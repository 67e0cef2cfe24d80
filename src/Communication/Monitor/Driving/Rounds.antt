-- ===== src/Communication/Monitor/Driving/Rounds.antt =====
-- The rounds of the monitor on a network, one for each of its awaits.
use ac_signalr_client_lib_rs.Base.{
  ℕ, zero, suc, ◌+◌, ◌-◌, ◌%◌, ◌^◌, ◌≤◌, ◌≡◌, refl, ◌∙◌, ap, true, false, inl, inr, Option-cases,
  [], ◌∷◌, ◌++◌, Text, ok, err, lock, arith,
}
use ac_signalr_client_lib_rs.Client.Configuration.{delay_for_attempt}
use ac_signalr_client_lib_rs.Protocol.Negotiate.{NegotiateResponseV0}
use ac_signalr_client_lib_rs.Protocol.Messages.{Serde}
use ac_signalr_client_lib_rs.Communication.Http.{ConnectionData, negotiate}
use ac_signalr_client_lib_rs.Communication.Socket.{Sockets, connect_socket}
use ac_signalr_client_lib_rs.Communication.Monitor.{
  System, idle, sleeping, negotiating, connecting, connected, monitor_step, begin_attempt, policy,
  handler_of,
}
use ac_signalr_client_lib_rs.Communication.Monitor.Attempts.{IsAllowed, begin_allowed}
use ac_signalr_client_lib_rs.Communication.Monitor.Driving.{rests, drive_step, drive}

module _ {ℓ} {V R : Type ℓ} where
  -- The monitor in the negotiation of an attempt, and in the opening of its socket.
  abbrev pub in_negotiation : System V R → ℕ → System V R
  in_negotiation s k = record s {
    phase = negotiating k;
    delays = s.delays ++ delay_for_attempt (policy s) k ∷ [];
    negotiations = suc s.negotiations;
  }

  abbrev pub in_opening : System V R → ℕ → ConnectionData → System V R
  in_opening s k d = record (in_negotiation s k) {
    phase = connecting k d s.next_generation;
    next_generation = (s.next_generation + 1) % 2 ^ 64;
  }

module _ {ℓ} {V R : Type ℓ} (responses : Serde NegotiateResponseV0) (network : ℕ → Sockets) where
  pub drive_waiting :
      (fuel : ℕ) (s : System V R) → rests s.phase ≡ true → drive responses network fuel s ≡ s
  unfolding drive
  drive_waiting zero s h = refl
  drive_waiting (suc fuel) s h = rw h refl

  drive_goes_on :
      (fuel : ℕ) (s : System V R)
      → rests s.phase ≡ false
      → drive responses network (suc fuel) s
        ≡ drive responses network fuel (drive_step responses network s)
  unfolding drive
  drive_goes_on fuel s h = rw h refl

  pub drive_on :
      (fuel : ℕ) (s : System V R)
      → 1 ≤ fuel
      → rests s.phase ≡ false
      → drive responses network fuel s
        ≡ drive responses network (fuel - 1) (drive_step responses network s)
  drive_on zero s b h = ground arith
  drive_on (suc fuel) s b h =
      drive_goes_on fuel s h
      ∙ ap (λ n. drive responses network n (drive_step responses network s)) (omega arith)

  slept_lem :
      (s : System V R) (k : ℕ)
      → s.phase ≡ sleeping k
      → s.shutdown ≡ false
      → drive_step responses network s
        ≡ record s { phase = negotiating k; negotiations = suc s.negotiations }
  unfolding drive_step monitor_step
  slept_lem s k p h = ground arith

  pub refused_lem :
      (s : System V R) (k : ℕ) (e : Text)
      → s.phase ≡ negotiating k
      → negotiate (network s.negotiations).net responses s.configuration.source_configuration
        ≡ err e
      → drive_step responses network s ≡ begin_attempt s (k + 1)
  unfolding drive_step monitor_step
  refused_lem s k e p n = rw (p, n) refl

  offered_lem :
      (s : System V R) (k : ℕ) (d : ConnectionData)
      → s.phase ≡ negotiating k
      → negotiate (network s.negotiations).net responses s.configuration.source_configuration ≡ ok d
      → drive_step responses network s ≡ record s {
        phase = connecting k d s.next_generation;
        next_generation = (s.next_generation + 1) % 2 ^ 64;
      }
  unfolding drive_step monitor_step
  offered_lem s k d p n = rw (p, n) refl

  pub closed_lem :
      (s : System V R) (k g : ℕ) (d : ConnectionData) (e : Text)
      → s.phase ≡ connecting k d g
      → connect_socket (network s.negotiations) d ≡ err e
      → drive_step responses network s ≡ begin_attempt s (k + 1)
  unfolding drive_step monitor_step
  closed_lem s k g d e p n = rw (p, n) refl

  pub opened_lem :
      (fuel : ℕ) (s : System V R) (k g : ℕ) (d : ConnectionData) (c : ℕ)
      → 1 ≤ fuel
      → s.phase ≡ connecting k d g
      → s.state.poisoned ≡ false
      → connect_socket (network s.negotiations) d ≡ ok c
      → let t = drive responses network fuel (drive_step responses network s) in
        (t.phase ≡ idle) × (t.state.inner ≡ connected g c)
  unfolding drive_step monitor_step
  opened_lem fuel s k g d c b p q n =
      elim (Option-cases (handler_of (lock s.reconnected_handler))) [
        | inl e ↦
            rw
              (
                drive_waiting fuel (drive_step responses network s) (rw (p, n, q, e) refl),
                p,
                n,
                q,
                e,
              )
              (refl, refl)
        | inr (h, e) ↦
            rw
              (
                drive_on fuel (drive_step responses network s) b (rw (p, n, q, e) refl),
                drive_waiting (fuel - 1)
                    (drive_step responses network (drive_step responses network s))
                    (rw (p, n, q, e) refl),
                p,
                n,
                q,
                e,
              )
              (refl, refl)
      ]

  pub begin_attempt-in_negotiation :
      (fuel : ℕ) (s : System V R) (k : ℕ)
      → 2 ≤ fuel
      → s.shutdown ≡ false
      → IsAllowed (policy s).max_attempts k
      → drive responses network fuel (begin_attempt s k)
        ≡ drive responses network (fuel - 1 - 1) (drive_step responses network (in_negotiation s k))
  begin_attempt-in_negotiation fuel s k b h a =
      let s' : System V R = record s {
        phase = sleeping k;
        delays = s.delays ++ delay_for_attempt (policy s) k ∷ [];
      } in
      rw
        (
          begin_allowed s k h a,
          drive_on fuel s' (omega arith) refl,
          slept_lem s' k refl h,
          drive_on (fuel - 1) (in_negotiation s k) (omega arith) refl,
        )
        refl

  pub in_negotiation-in_opening :
      (fuel : ℕ) (s : System V R) (k : ℕ) (d : ConnectionData)
      → 1 ≤ fuel
      → negotiate (network (suc s.negotiations)).net responses s.configuration.source_configuration
        ≡ ok d
      → drive responses network fuel (drive_step responses network (in_negotiation s k))
        ≡ drive responses network (fuel - 1) (drive_step responses network (in_opening s k d))
  in_negotiation-in_opening fuel s k d b r =
      rw
        (
          offered_lem (in_negotiation s k) k d refl r,
          drive_on fuel (in_opening s k d) (omega arith) refl,
        )
        refl
