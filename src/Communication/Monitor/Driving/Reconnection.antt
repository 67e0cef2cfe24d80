-- ===== src/Communication/Monitor/Driving/Reconnection.antt =====
-- With which connection the monitor comes back.
use ac_signalr_client_lib_rs.Base.{
  ℕ, zero, suc, ◌+◌, ◌*◌, ◌-◌, ◌%◌, ◌^◌, ◌≤◌, ◌≡◌, ◌≢◌, refl, true, false, some, inl, inr,
  Option-cases, Res-cases, List, [], ◌∷◌, ◌++◌, Text, lit, write, ok, err, lock, arith,
}
use ac_signalr_client_lib_rs.Client.Configuration.{ConnectionConfiguration}
use ac_signalr_client_lib_rs.Protocol.Negotiate.{NegotiateResponseV0}
use ac_signalr_client_lib_rs.Protocol.Messages.{Serde}
use ac_signalr_client_lib_rs.Communication.Http.{ConnectionData, negotiate}
use ac_signalr_client_lib_rs.Execution.Storage.{cancel_pending}
use ac_signalr_client_lib_rs.Communication.Socket.{Sockets, connect_socket}
use ac_signalr_client_lib_rs.Communication.Monitor.{
  System, idle, announcing, reconnecting, connected, connection_lost, ConnectionEvent,
  event_received, monitor_step, begin_attempt, mark_connection_lost, policy, handler_of,
}
use ac_signalr_client_lib_rs.Communication.Monitor.Attempts.{begin_past}
use ac_signalr_client_lib_rs.Communication.Monitor.Driving.{
  opened_or, reconnection, drive_step, drive,
}
use ac_signalr_client_lib_rs.Communication.Monitor.Driving.Rounds.{
  drive_waiting, drive_on, refused_lem, closed_lem, opened_lem, in_negotiation, in_opening,
  begin_attempt-in_negotiation, in_negotiation-in_opening,
}

module _ (responses : Serde NegotiateResponseV0) (network : ℕ → Sockets) where
  reconnection_refused :
      (options : ConnectionConfiguration) (i g left : ℕ) (e : Text)
      → negotiate (network i).net responses options ≡ err e
      → reconnection responses network options i g (suc left)
        ≡ reconnection responses network options (suc i) g left
  unfolding reconnection
  reconnection_refused options i g left e r = rw (reconnection, r) refl

  reconnection_offered :
      (options : ConnectionConfiguration) (i g left : ℕ) (d : ConnectionData)
      → negotiate (network i).net responses options ≡ ok d
      → reconnection responses network options i g (suc left)
        ≡ opened_or
            (reconnection responses network options (suc i) ((g + 1) % 2 ^ 64) left)
            g
            (connect_socket (network i) d)
  unfolding reconnection
  reconnection_offered options i g left d r = rw (reconnection, r) refl

module _ {ℓ} {V R : Type ℓ} (responses : Serde NegotiateResponseV0) (network : ℕ → Sockets) where
  -- The attempts that are left, at the top of the loop.
  begin_attempt-reconnection :
      (left : ℕ) (fuel : ℕ) (s : System V R) (k most : ℕ)
      → s.shutdown ≡ false
      → s.state.poisoned ≡ false
      → (policy s).max_attempts ≡ some most
      → k + left ≡ suc most
      → 3 * left + 1 ≤ fuel
      → let t = drive responses network fuel (begin_attempt s k) in
        (t.phase ≡ idle)
        × (t.state.inner
            ≡ reconnection responses network s.configuration.source_configuration
                (suc s.negotiations)
                s.next_generation
                left)
  unfolding reconnection
  begin_attempt-reconnection zero fuel s k most h q e n b =
      let (waits, state, _, _) = begin_past s k most h q e (omega arith) in
      rw (drive_waiting responses network fuel (begin_attempt s k) (rw waits refl)) (waits, state)
  begin_attempt-reconnection (suc left) fuel s k most h q e n b =
      let options : ConnectionConfiguration = s.configuration.source_configuration in
      let i : ℕ = suc s.negotiations in
      let first =
        begin_attempt-in_negotiation responses network fuel s k (omega arith) h
          (rw e (omega arith)) in
      elim (Res-cases (negotiate (network i).net responses options)) [
        | inr (m, r) ↦
            rw
              (
                first,
                refused_lem responses network (in_negotiation s k) k m refl r,
                reconnection_refused responses network options i s.next_generation left m r,
              )
              (begin_attempt-reconnection left (fuel - 1 - 1) (in_negotiation s k) (k + 1) most h q
                e (omega arith) (omega arith))
        | inl (d, r) ↦
            let s' : System V R = in_opening s k d in
            let second =
              in_negotiation-in_opening responses network (fuel - 1 - 1) s k d (omega arith) r in
            let offered =
              reconnection_offered responses network options i s.next_generation left d r in
            elim (Res-cases (connect_socket (network i) d)) [
              | inr (m, r') ↦
                  let closed = closed_lem responses network s' k s.next_generation d m refl r' in
                  rw (first, second, closed, offered, r')
                    (begin_attempt-reconnection left (fuel - 1 - 1 - 1) s' (k + 1) most h q e
                      (omega arith) (omega arith))
              | inl (c, r') ↦
                  rw (first, second, offered, r')
                    (opened_lem responses network (fuel - 1 - 1 - 1) s' k s.next_generation d c
                      (omega arith) refl q r')
            ]
      ]

  -- At an idle monitor with a client left, no shutdown, a sound state lock and reconnecting enabled
  -- with a limit on the attempts, when it takes the report that the current connection was lost, and
  -- no call of a client comes between: whatever the network does in each negotiation and each opening
  -- of a socket, within three rounds for each attempt and two more the monitor waits for the next
  -- event again, and the connection state is that of the first attempt that succeeds, under the
  -- generation that the attempts before it have left, or not connected where none does.
  pub drive-reconnection :
      (fuel : ℕ) (s : System V R) (g c most : ℕ) (reason : Text) (rest : List ConnectionEvent)
      → s.phase ≡ idle
      → s.events ≡ connection_lost g reason ∷ rest
      → s.clients ≢ 0
      → s.shutdown ≡ false
      → s.state.poisoned ≡ false
      → s.state.inner ≡ connected g c
      → (policy s).enabled ≡ true
      → (policy s).max_attempts ≡ some most
      → 3 * most + 2 ≤ fuel
      → let t = drive responses network fuel (monitor_step s event_received) in
        (t.phase ≡ idle)
        × (t.state.inner
            ≡ reconnection responses network s.configuration.source_configuration
                (suc s.negotiations)
                s.next_generation
                most)
  unfolding monitor_step mark_connection_lost drive_step
  drive-reconnection fuel s g c most reason rest p v n h q k d e b =
      let s1 : System V R = record s {
        events = rest;
        state = write s.state reconnecting;
        dropped = s.dropped ++ c ∷ [];
        storage =
            cancel_pending s.storage
              (lit "Connection lost before the invocation completed: " ++ reason);
      } in
      elim (Option-cases (handler_of (lock s.reconnecting_handler))) [
        | inl e' ↦
            let first : monitor_step s event_received ≡ begin_attempt s1 1 = ground arith in
            rw first
              (begin_attempt-reconnection most fuel s1 1 most h q e (omega arith) (omega arith))
        | inr (a, e') ↦
            let s2 : System V R = record s1 {
              phase = announcing;
              callbacks = s.callbacks ++ a ∷ [];
            } in
            let first : monitor_step s event_received ≡ s2 = ground arith in
            rw (first, drive_on responses network fuel s2 (omega arith) refl)
              (begin_attempt-reconnection most (fuel - 1) s2 1 most h q e (omega arith)
                (omega arith))
      ]
