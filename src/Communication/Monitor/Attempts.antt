-- ===== src/Communication/Monitor/Attempts.antt =====
-- How many attempts the monitor makes, what it waits between them, and how it ends.
use native.Mathlib.Nat.{add-zero}
use ac_signalr_client_lib_rs.Base.{
  ℕ, zero, suc, ◌+◌, ◌<◌, ◌≤◌, ◌%◌, ◌^◌, ◌≡◌, refl, ap, ◌∙◌, false, Option, none, some, List, [],
  ◌∷◌, ◌++◌, append-nil, append_assoc, Text, ok, err, length, arith,
}
use ac_signalr_client_lib_rs.Client.Configuration.{ReconnectPolicy, delay_for_attempt}
use ac_signalr_client_lib_rs.Communication.Http.{ConnectionData, get_reconnect_policy}
use ac_signalr_client_lib_rs.Communication.Monitor.{
  System, idle, sleeping, negotiating, connecting, not_connected, connected, Reply, slept,
  negotiated, socket_opened, monitor_step, monitor_run, begin_attempt, policy, disconnect,
}

-- How one attempt fails: in the negotiation, or in opening the socket.
pub data Failure : Type 0 where
  negotiation_fails : Text → Failure
  socket_fails : ConnectionData → Text → Failure

abbrev replies_of : Failure → List Reply
replies_of (negotiation_fails e) = slept ∷ negotiated (err e) ∷ []
replies_of (socket_fails d e) = slept ∷ negotiated (ok d) ∷ socket_opened (err e) ∷ []

unfoldable pub all_replies : List Failure → List Reply
all_replies [] = []
all_replies (f ∷ fs) = replies_of f ++ all_replies fs

-- The delays before the given number of attempts, from an attempt on.
unfoldable pub delays_from : ReconnectPolicy → ℕ → ℕ → List ℕ
delays_from p attempt zero = []
delays_from p attempt (suc n) = delay_for_attempt p attempt ∷ delays_from p (attempt + 1) n

-- Attempt `k` is within the limit.
abbrev pub IsAllowed : Option ℕ → ℕ → Type 0
IsAllowed none k = Unit
IsAllowed (some most) k = k ≤ most

IsAllowed-le : (m : Option ℕ) {j k : ℕ} → j ≤ k → IsAllowed m k → IsAllowed m j
IsAllowed-le none h a = tt
IsAllowed-le (some most) h a = omega arith

module _ {ℓ} {V R : Type ℓ} where
  monitor_run-append :
      (s : System V R) (rs qs : List Reply)
      → monitor_run s (rs ++ qs) ≡ monitor_run (monitor_run s rs) qs
  unfolding monitor_run
  monitor_run-append s [] qs = refl
  monitor_run-append s (r ∷ rs) qs = monitor_run-append (monitor_step s r) rs qs

  -- What a failed attempt leaves unchanged, and the attempt that it counts.
  record AfterFailure (s t : System V R) : Type ℓ where
    same_state : t.state ≡ s.state
    same_shutdown : t.shutdown ≡ s.shutdown
    same_configuration : t.configuration ≡ s.configuration
    same_storage : t.storage ≡ s.storage
    same_delays : t.delays ≡ s.delays
    one_more : t.negotiations ≡ suc s.negotiations

  attempt_fails :
      (s : System V R) (k : ℕ) (f : Failure)
      → s.phase ≡ sleeping k
      → s.shutdown ≡ false
      → (t : System V R) × (monitor_run s (replies_of f) ≡ begin_attempt t (k + 1))
        × AfterFailure s t
  unfolding monitor_run monitor_step
  attempt_fails s k (negotiation_fails e) p h = (
    record s { phase = negotiating k; negotiations = suc s.negotiations },
    ground arith,
    ground arith,
  )
  attempt_fails s k (socket_fails d e) p h = (
    record s {
      phase = connecting k d s.next_generation;
      negotiations = suc s.negotiations;
      next_generation = (s.next_generation + 1) % 2 ^ 64;
    },
    ground arith,
    ground arith,
  )

  pub begin_allowed :
      (s : System V R) (k : ℕ)
      → s.shutdown ≡ false
      → IsAllowed (policy s).max_attempts k
      → begin_attempt s k
        ≡ record s { phase = sleeping k; delays = s.delays ++ delay_for_attempt (policy s) k ∷ [] }
  unfolding begin_attempt get_reconnect_policy
  begin_allowed s k h a = ground arith

  pub begin_past :
      (s : System V R) (k most : ℕ)
      → s.shutdown ≡ false
      → s.state.poisoned ≡ false
      → (policy s).max_attempts ≡ some most
      → most < k
      → ((begin_attempt s k).phase ≡ idle)
        × ((begin_attempt s k).state.inner ≡ not_connected)
        × ((begin_attempt s k).negotiations ≡ s.negotiations)
        × ((begin_attempt s k).delays ≡ s.delays)
  unfolding begin_attempt get_reconnect_policy
  begin_past s k most h q e a = ground arith

  -- With a limit on the attempts, no shutdown and a sound state lock, where every attempt from the
  -- given one up to the limit fails: the monitor negotiates exactly once for each, waits before
  -- each for the delay of that attempt, then gives up, not connected, and waits for the next
  -- event.
  pub attempts_exhausted :
      (fs : List Failure) (s : System V R) (k most : ℕ)
      → s.shutdown ≡ false
      → s.state.poisoned ≡ false
      → (policy s).max_attempts ≡ some most
      → k + length fs ≡ suc most
      → let t = monitor_run (begin_attempt s k) (all_replies fs) in
        (t.phase ≡ idle)
        × (t.state.inner ≡ not_connected)
        × (t.negotiations ≡ s.negotiations + length fs)
        × (t.delays ≡ s.delays ++ delays_from (policy s) k (length fs))
  unfolding monitor_run all_replies delays_from
  attempts_exhausted [] s k most h q e n =
      ground (arith, begin_past s k most h q e, append-nil s.delays)
  attempts_exhausted (f ∷ fs) s k most h q e n =
      let p : ReconnectPolicy = policy s in
      let s' : System V R = record s {
        phase = sleeping k;
        delays = s.delays ++ delay_for_attempt p k ∷ [];
      } in
      let (t, run, u) = attempt_fails s' k f refl h in
      let same : policy t ≡ p = ap get_reconnect_policy u.same_configuration in
      let ih =
        attempts_exhausted fs t (k + 1) most (u.same_shutdown ∙ h)
          (ap (λ x. x.poisoned) u.same_state ∙ q) (ap (λ x. x.max_attempts) same ∙ e)
          (omega arith) in
      rw (begin_allowed s k h (rw e (omega arith))) (
        rw (monitor_run-append s' (replies_of f) (all_replies fs), run)
          (
            ih.0,
            ih.1,
            omega (arith, ih.2, u.one_more),
            ih.3
                ∙ ap (λ x. t.delays ++ delays_from x (k + 1) (length fs)) same
                ∙ ap (λ x. x ++ delays_from p (k + 1) (length fs)) u.same_delays
                ∙ append_assoc s.delays _ (delays_from p (k + 1) (length fs)),
          ))

  -- Without a shutdown, after attempts that are within the limit, or unlimited, and all fail, the
  -- monitor sleeps before the next one, has negotiated once for each, and the connection state is
  -- as before.
  attempts_pending :
      (fs : List Failure) (s : System V R) (k : ℕ)
      → s.phase ≡ sleeping k
      → s.shutdown ≡ false
      → IsAllowed (policy s).max_attempts (k + length fs)
      → let t = monitor_run s (all_replies fs) in
        (t.phase ≡ sleeping (k + length fs))
        × (t.state ≡ s.state)
        × (t.shutdown ≡ false)
        × (t.negotiations ≡ s.negotiations + length fs)
  unfolding monitor_run all_replies
  attempts_pending [] s k p h a = ground (arith, add-zero k, add-zero s.negotiations)
  attempts_pending (f ∷ fs) s k p h a =
      let (t, run, u) = attempt_fails s k f p h in
      let same : policy t ≡ policy s = ap get_reconnect_policy u.same_configuration in
      let within : IsAllowed (policy t).max_attempts (k + 1 + length fs) =
        rw same (IsAllowed-le (policy s).max_attempts (omega arith) a) in
      let next =
        begin_allowed t (k + 1) (u.same_shutdown ∙ h)
          (IsAllowed-le (policy t).max_attempts (omega arith) within) in
      let t' : System V R = record t {
        phase = sleeping (k + 1);
        delays = t.delays ++ delay_for_attempt (policy t) (k + 1) ∷ [];
      } in
      let ih = attempts_pending fs t' (k + 1) refl (u.same_shutdown ∙ h) within in
      rw (monitor_run-append s (replies_of f) (all_replies fs), run, next)
        (
          ih.0 ∙ ap sleeping (omega arith),
          ih.1 ∙ u.same_state,
          ih.2,
          omega (arith, ih.3, u.one_more),
        )

  opens :
      (u : System V R) (k : ℕ) (d : ConnectionData) (c : ℕ)
      → u.phase ≡ sleeping k
      → u.shutdown ≡ false
      → u.state.poisoned ≡ false
      → let t = monitor_run u (slept ∷ negotiated (ok d) ∷ socket_opened (ok c) ∷ []) in
        (t.state.inner ≡ connected u.next_generation c)
        × (t.negotiations ≡ suc u.negotiations)
        × (t.delays ≡ u.delays)
  unfolding monitor_run monitor_step
  opens u k d c p h q = ground arith

  -- Without a shutdown and with a sound state lock: after attempts that failed within the limit,
  -- one that succeeds installs its connection under the next generation, and no further delay or
  -- negotiation is begun.
  attempts_succeed :
      (fs : List Failure) (s : System V R) (k : ℕ) (d : ConnectionData) (c : ℕ)
      → s.phase ≡ sleeping k
      → s.shutdown ≡ false
      → s.state.poisoned ≡ false
      → IsAllowed (policy s).max_attempts (k + length fs)
      → let u = monitor_run s (all_replies fs) in
        let t = monitor_run u (slept ∷ negotiated (ok d) ∷ socket_opened (ok c) ∷ []) in
        (t.state.inner ≡ connected u.next_generation c)
        × (t.negotiations ≡ s.negotiations + length fs + 1)
        × (t.delays ≡ u.delays)
  attempts_succeed fs s k d c p h q a =
      let u : System V R = monitor_run s (all_replies fs) in
      let (asleep, state, running, count) = attempts_pending fs s k p h a in
      let (installed, more, delays) =
        opens u (k + length fs) d c asleep running (ap (λ x. x.poisoned) state ∙ q) in
      (installed, omega arith, delays)

  disconnect_while_handling :
      (s : System V R) (k : ℕ) → s.phase ≡ sleeping k → s.clients ≡ 1 → disconnect s ≡ s
  unfolding disconnect
  disconnect_while_handling s k p one = ground arith

  -- A monitor that sleeps before an attempt holds a pointer of its own, so the `disconnect` of the
  -- last client does nothing, if there was no shutdown before; with unlimited attempts the monitor
  -- then goes on through any number of failures, although no client is left.
  pub orphan_keeps_trying :
      (fs : List Failure) (s : System V R) (k : ℕ)
      → s.phase ≡ sleeping k
      → s.shutdown ≡ false
      → s.clients ≡ 1
      → (policy s).max_attempts ≡ none
      → let orphan = record (disconnect s) { clients = 0 } in
        ((monitor_run orphan (all_replies fs)).phase ≡ sleeping (k + length fs))
        × ((monitor_run orphan (all_replies fs)).negotiations ≡ s.negotiations + length fs)
  orphan_keeps_trying fs s k p h one unlimited =
      let (asleep, state, running, count) =
        attempts_pending fs (record s { clients = 0 }) k p h (rw unlimited tt) in
      rw (disconnect_while_handling s k p one) (asleep, count)
