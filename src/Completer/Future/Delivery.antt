-- ===== src/Completer/Future/Delivery.antt =====
-- What the polls of a manual future return, over any sequence of polls, completions and
-- cancellations.
use ac_signalr_client_lib_rs.Base.{ℕ, ◌+◌, ◌≤◌, none, some, List, [], ◌∷◌, arith}
use ac_signalr_client_lib_rs.Completer.Future.{
  State, incomplete, complete, ready, pending, new, complete_with, cancel, poll,
}

pub data Event {ℓ} (A : Type ℓ) : Type ℓ where
  polls : ℕ → Event A
  completes : A → Event A
  cancels : Event A

module _ {ℓ} {A : Type ℓ} where
  unfoldable pub step : State A → Event A → State A
  unfolding complete_with cancel poll
  step s (polls w) = (poll s w).0
  step s (completes a) = (complete_with s a).0
  step s cancels = cancel s

  unfoldable pub run : State A → List (Event A) → State A
  unfolding step
  run s [] = s
  run s (e ∷ es) = run (step s e) es

  abbrev count_yielded : State A → Event A → ℕ
  count_yielded s (polls w) = elim (poll s w).1 [ ready a ↦ 1 | pending ↦ 0 ]
  count_yielded s _ = 0

  -- How many polls of the history returned a value.
  unfoldable pub readies : State A → List (Event A) → ℕ
  unfolding step poll
  readies s [] = 0
  readies s (e ∷ es) = count_yielded s e + readies (step s e) es

  abbrev is_completion : Event A → ℕ
  is_completion (completes a) = 1
  is_completion _ = 0

  unfoldable pub completions : List (Event A) → ℕ
  completions [] = 0
  completions (e ∷ es) = is_completion e + completions es

  -- A value is in the state, and not taken yet.
  abbrev stored : State A → ℕ
  stored (complete (some a)) = 1
  stored _ = 0

  stored-step :
      (s : State A) (e : Event A)
      → count_yielded s e + stored (step s e) ≤ stored s + is_completion e
  unfolding step poll
  stored-step s e = ground arith

  readies_bounded : (s : State A) (es : List (Event A)) → readies s es ≤ stored s + completions es
  unfolding readies completions
  readies_bounded s [] = omega arith
  readies_bounded s (e ∷ es) = omega (arith, stored-step s e, readies_bounded (step s e) es)

  -- In every history of polls, completions and cancellations of a new future, at most as many polls
  -- return a value as there were completions: no completion is delivered twice.
  pub readies-le-completions : (es : List (Event A)) → readies (new none) es ≤ completions es
  unfolding new
  readies-le-completions es = omega (arith, readies_bounded incomplete es)

  abbrev pub polls_by : List ℕ → List (Event A)
  polls_by [] = []
  polls_by (w ∷ ws) = polls w ∷ polls_by ws
