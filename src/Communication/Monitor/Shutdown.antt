-- ===== src/Communication/Monitor/Shutdown.antt =====
-- What the monitor does once the shutdown flag is set, and where it comes too late.
use ac_signalr_client_lib_rs.Base.{ℕ, ◌≡◌, ◌∙◌, true, false, List, [], ◌∷◌, ok, err, lit, arith}
use ac_signalr_client_lib_rs.Communication.Http.{ConnectionData}
use ac_signalr_client_lib_rs.Communication.Monitor.{
  System, Phase, negotiating, connecting, Reply, socket_opened, monitor_step, monitor_run,
  begin_disconnect, finish_disconnect, current_connection,
}

-- The monitor is not inside an attempt.
abbrev pub IsOutside : Phase → Type 0
IsOutside (negotiating attempt) = ⊥
IsOutside (connecting attempt d g) = ⊥
IsOutside _ = Unit

module _ {ℓ} {V R : Type ℓ} where
  -- Nothing but the place of the monitor and its events has changed.
  pub record IsUntouched (s t : System V R) : Type ℓ where
    pub same_state : t.state ≡ s.state
    pub same_storage : t.storage ≡ s.storage
    pub same_negotiations : t.negotiations ≡ s.negotiations
    pub same_delays : t.delays ≡ s.delays
    pub same_callbacks : t.callbacks ≡ s.callbacks
    pub same_generation : t.next_generation ≡ s.next_generation

  quiet_step :
      (s : System V R) (r : Reply)
      → s.shutdown ≡ true
      → IsOutside s.phase
      → IsUntouched s (monitor_step s r)
        × ((monitor_step s r).shutdown ≡ true)
        × IsOutside (monitor_step s r).phase
  unfolding monitor_step
  quiet_step s r h o = ground arith

  -- Once the shutdown flag is set, a monitor that is not inside a reconnect attempt never begins
  -- one: whatever it waits for returns, the connection state, the pending invocations, the counts of
  -- negotiations, delays and callbacks stay as they are.
  monitor_run_after_shutdown :
      (s : System V R) (rs : List Reply)
      → s.shutdown ≡ true
      → IsOutside s.phase
      → IsUntouched s (monitor_run s rs)
  unfolding monitor_run
  monitor_run_after_shutdown s [] h o = ground arith
  monitor_run_after_shutdown s (r ∷ rs) h o =
      let (u, h', o') = quiet_step s r h o in
      let v = monitor_run_after_shutdown (monitor_step s r) rs h' o' in
      record {
        same_state = v.same_state ∙ u.same_state;
        same_storage = v.same_storage ∙ u.same_storage;
        same_negotiations = v.same_negotiations ∙ u.same_negotiations;
        same_delays = v.same_delays ∙ u.same_delays;
        same_callbacks = v.same_callbacks ∙ u.same_callbacks;
        same_generation = v.same_generation ∙ u.same_generation;
      }

  -- Where the state lock is sound, a graceful disconnect, complete with its two halves, leaves no
  -- connection for `send`, and the shutdown flag set, whatever the state was before.
  current_connection-finish_disconnect :
      (s : System V R)
      → s.state.poisoned ≡ false
      → let t = finish_disconnect (begin_disconnect s).0 in
        (current_connection t ≡ err (lit "Client is not connected, cannot send"))
        × (t.shutdown ≡ true)
  unfolding current_connection finish_disconnect begin_disconnect
  current_connection-finish_disconnect s h = ground arith

  -- A graceful disconnect that comes while the monitor opens a socket is undone, where the state
  -- lock is sound: when the socket opens, the new connection is installed although the shutdown
  -- flag is set.
  pub late_connection :
      (s : System V R) (attempt : ℕ) (d : ConnectionData) (g c : ℕ)
      → s.phase ≡ connecting attempt d g
      → s.state.poisoned ≡ false
      → let t = monitor_step (finish_disconnect (begin_disconnect s).0) (socket_opened (ok c)) in
        (current_connection t ≡ ok (g, c)) × (t.shutdown ≡ true)
  unfolding monitor_step current_connection finish_disconnect begin_disconnect
  late_connection s attempt d g c e h = ground arith
