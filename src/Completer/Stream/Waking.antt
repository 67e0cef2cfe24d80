-- ===== src/Completer/Stream/Waking.antt =====
-- Which tasks the completer of a manual stream wakes.
use ac_signalr_client_lib_rs.Base.{
  ℕ, ◌≡◌, refl, ap, ◌∙◌, ◌≢◌, Option, none, some, List, [], ◌∷◌, ◌++◌, arith,
}
use ac_signalr_client_lib_rs.Completer.Future.{ready, pending}
use ac_signalr_client_lib_rs.Completer.Stream.{StreamState, create, push, close, poll_next}
use ac_signalr_client_lib_rs.Completer.Stream.Order.{Event, pushes, closes, polls, step, run}

abbrev tasks : Option ℕ → List ℕ
tasks none = []
tasks (some w) = w ∷ []

module _ {ℓ} {A : Type ℓ} where
  abbrev woken : StreamState A → Event A → List ℕ
  woken s (pushes a) = tasks (push s a).1
  woken s closes = tasks (close s).1
  woken s (polls w) = []

  -- The tasks that are woken in a history, in order.
  unfoldable pub all_woken : StreamState A → List (Event A) → List ℕ
  all_woken s [] = []
  all_woken s (e ∷ es) = woken s e ++ all_woken (step s e) es

  -- The task that waits after an event: one that polled and was told to wait, until the next push or
  -- close.
  abbrev waiting_after : Option ℕ → StreamState A → Event A → Option ℕ
  waiting_after waiting s (polls w) = elim (poll_next s w).1 [
    | ready x ↦ waiting
    | pending ↦ some w
  ]
  waiting_after waiting s _ = none

  abbrev due : Option ℕ → Event A → List ℕ
  due waiting (polls w) = []
  due waiting _ = tasks waiting

  -- The tasks that ought to be woken, by what the polls returned.
  unfoldable pub all_due : Option ℕ → StreamState A → List (Event A) → List ℕ
  all_due waiting s [] = []
  all_due waiting s (e ∷ es) = due waiting e ++ all_due (waiting_after waiting s e) (step s e) es

  step_waker : (s : StreamState A) (e : Event A) → (step s e).waker ≡ waiting_after s.waker s e
  unfolding step push close poll_next
  step_waker s (pushes a) = refl
  step_waker s closes = refl
  step_waker s (polls w) = ground arith

  woken-due : (s : StreamState A) (e : Event A) → woken s e ≡ due s.waker e
  unfolding push close
  woken-due s (pushes a) = refl
  woken-due s closes = refl
  woken-due s (polls w) = refl

  all_woken-all_due_from :
      (s : StreamState A) (es : List (Event A)) → all_woken s es ≡ all_due s.waker s es
  unfolding all_woken all_due
  all_woken-all_due_from s [] = refl
  all_woken-all_due_from s (e ∷ es) =
      ap (λ x. x ++ all_woken (step s e) es) (woken-due s e)
      ∙ ap (◌++◌ (due s.waker e)) (all_woken-all_due_from (step s e) es)
      ∙ ap (λ x. due s.waker e ++ all_due x (step s e) es) (step_waker s e)

  -- Nobody is registered to be woken while the queue has an entry.
  abbrev pub IsAwake : StreamState A → Type ℓ
  IsAwake s = s.queue ≢ [] → s.waker ≡ none

  poll-IsAwake :
      (q : List (Option A)) (waker : Option ℕ) (w : ℕ)
      → (q ≢ [] → waker ≡ none)
      → IsAwake (step (record { queue = q; waker = waker }) (polls w))
  unfolding step poll_next
  poll-IsAwake [] waker w h = λ ne. absurd (ne refl)
  poll-IsAwake (x ∷ q) waker w h = λ _. h (λ e. cc)

  step-IsAwake : (s : StreamState A) (e : Event A) → IsAwake s → IsAwake (step s e)
  unfolding step push close
  step-IsAwake s (pushes a) h = λ _. refl
  step-IsAwake s closes h = λ _. refl
  step-IsAwake s (polls w) h = poll-IsAwake s.queue s.waker w h

  run-IsAwake : (s : StreamState A) (es : List (Event A)) → IsAwake s → IsAwake (run s es)
  unfolding run
  run-IsAwake s [] h = h
  run-IsAwake s (e ∷ es) h = run-IsAwake (step s e) es (step-IsAwake s e h)

  -- In every history of a new stream, the tasks that are woken are, in order and each once, those
  -- whose polls were told to wait: the first push or close after such a poll wakes its task, or the
  -- task of the last of several such polls, and nobody else is woken; and no waker is left registered
  -- while the queue has an entry.
  pub all_woken-all_due :
      (es : List (Event A))
      → (all_woken create es ≡ all_due none create es) × IsAwake (run create es)
  unfolding create
  all_woken-all_due es = (all_woken-all_due_from create es, run-IsAwake create es (λ _. refl))
