-- ===== src/Completer/Stream/Order.antt =====
-- A manual stream is a queue: entries come out in the order in which they went in.
use ac_signalr_client_lib_rs.Base.{
  ℕ, ◌≡◌, refl, ◌∙◌, ap, sym, Option, none, some, List, [], ◌∷◌, ◌++◌, append_assoc, append-nil,
}
use ac_signalr_client_lib_rs.Completer.Future.{ready, pending}
use ac_signalr_client_lib_rs.Completer.Stream.{StreamState, create, push, close, poll_next}

pub data Event {ℓ} (A : Type ℓ) : Type ℓ where
  pushes : A → Event A
  closes : Event A
  polls : ℕ → Event A

module _ {ℓ} {A : Type ℓ} where
  unfoldable pub step : StreamState A → Event A → StreamState A
  step s (pushes a) = (push s a).0
  step s closes = (close s).0
  step s (polls w) = (poll_next s w).0

  -- What the reader gets from one event.
  abbrev received : StreamState A → Event A → List (Option A)
  received s (polls w) = elim (poll_next s w).1 [ ready x ↦ x ∷ [] | pending ↦ [] ]
  received s _ = []

  -- What the completer sends in one event.
  abbrev sent : Event A → List (Option A)
  sent (pushes a) = some a ∷ []
  sent closes = none ∷ []
  sent (polls w) = []

  unfoldable pub run : StreamState A → List (Event A) → StreamState A
  run s [] = s
  run s (e ∷ es) = run (step s e) es

  unfoldable pub all_received : StreamState A → List (Event A) → List (Option A)
  all_received s [] = []
  all_received s (e ∷ es) = received s e ++ all_received (step s e) es

  unfoldable pub all_sent : List (Event A) → List (Option A)
  all_sent [] = []
  all_sent (e ∷ es) = sent e ++ all_sent es

  poll-order :
      (q : List (Option A)) (waker : Option ℕ) (w : ℕ)
      → received (record { queue = q; waker = waker }) (polls w)
          ++ (step (record { queue = q; waker = waker }) (polls w)).queue
        ≡ q
  unfolding step poll_next
  poll-order [] waker w = refl
  poll-order (x ∷ q) waker w = refl

  step-order :
      (s : StreamState A) (e : Event A) → received s e ++ (step s e).queue ≡ s.queue ++ sent e
  unfolding step push close
  step-order s (pushes a) = refl
  step-order s closes = refl
  step-order s (polls w) = poll-order s.queue s.waker w ∙ sym (append-nil s.queue)

  run-order :
      (s : StreamState A) (es : List (Event A))
      → all_received s es ++ (run s es).queue ≡ s.queue ++ all_sent es
  unfolding run all_received all_sent
  run-order s [] = sym (append-nil s.queue)
  run-order s (e ∷ es) =
      append_assoc (received s e) _ _
      ∙ ap (◌++◌ (received s e)) (run-order (step s e) es)
      ∙ sym (append_assoc (received s e) _ _)
      ∙ ap (λ q. q ++ all_sent es) (step-order s e)
      ∙ append_assoc s.queue _ _

  -- In every history of a new stream, what the reader has received, followed by what is still
  -- queued, is exactly what the completer has sent: every item and every close mark, in order.
  pub received-queue :
      (es : List (Event A)) → all_received create es ++ (run create es).queue ≡ all_sent es
  unfolding create
  received-queue es = run-order create es
