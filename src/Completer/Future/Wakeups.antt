-- ===== src/Completer/Future/Wakeups.antt =====
-- Which task a completion wakes.
use ac_signalr_client_lib_rs.Base.{
  ℕ, ◌≡◌, refl, ap, ◌∙◌, Option, none, some, List, [], ◌∷◌, inl, inr, Option-cases, arith,
}
use ac_signalr_client_lib_rs.Completer.Future.{
  State, incomplete, waiting, complete, ready, pending, woke, panicked, new, complete_with, poll,
}
use ac_signalr_client_lib_rs.Completer.Future.Delivery.{run, step, polls_by}

abbrev pub last : Option ℕ → List ℕ → Option ℕ
last d [] = d
last d (w ∷ ws) = last (some w) ws

module _ {ℓ} {A : Type ℓ} where
  abbrev parked : Option ℕ → State A
  parked none = incomplete
  parked (some w) = waiting w

  poll-parked : (d : Option ℕ) (w : ℕ) → (poll {A = A} (parked d) w).0 ≡ waiting w
  unfolding poll
  poll-parked none w = refl
  poll-parked (some v) w = ground arith

  run-polls_by :
      (d : Option ℕ) (ws : List ℕ) → run {A = A} (parked d) (polls_by ws) ≡ parked (last d ws)
  unfolding run step
  run-polls_by d [] = refl
  run-polls_by d (w ∷ ws) =
      ap (λ s. run s (polls_by ws)) (poll-parked d w) ∙ run-polls_by (some w) ws

  -- However often and by whichever tasks a new future was polled, its completion does not panic and
  -- wakes the task that polled last (none if there was no poll), the next poll returns the value,
  -- and the poll after that returns nothing.
  pub complete_with-polls_by :
      (ws : List ℕ) (a : A) (w v : ℕ)
      → let (s, effect) = complete_with (run (new none) (polls_by ws)) a in
        (effect ≡ woke (last none ws))
        × ((poll s w).1 ≡ ready a)
        × ((poll (poll s w).0 v).1 ≡ pending)
  unfolding complete_with new poll
  complete_with-polls_by ws a w v = elim (Option-cases (last none ws)) [
    | inl e ↦ rw (run-polls_by none ws, e) (refl, refl, refl)
    | inr (t, e) ↦ rw (run-polls_by none ws, e) (refl, refl, refl)
  ]

  -- A second completion panics, but only after it has stored its value: the next poll returns the
  -- second value, also where the first was taken already or the future was cancelled.
  pub complete_with_again :
      (held : Option A) (b : A) (w : ℕ)
      → let (s, effect) = complete_with (complete held) b in
        (effect ≡ panicked) × ((poll s w).1 ≡ ready b)
  unfolding complete_with poll
  complete_with_again held b w = (refl, refl)
