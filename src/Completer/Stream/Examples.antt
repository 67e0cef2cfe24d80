-- ===== src/Completer/Stream/Examples.antt =====
-- The theorems about manual streams at a concrete history.
use ac_signalr_client_lib_rs.Base.{ℕ, ◌≡◌, refl, none, some, List, [], ◌∷◌, ◌++◌}
use ac_signalr_client_lib_rs.Completer.Stream.{create, push, close, poll_next}
use ac_signalr_client_lib_rs.Completer.Stream.Order.{
  Event, pushes, closes, polls, step, run, all_received, all_sent, received-queue,
}
use ac_signalr_client_lib_rs.Completer.Stream.Waking.{
  all_woken, all_due, IsAwake, all_woken-all_due,
}

abbrev history : List (Event ℕ)
history = polls 3 ∷ pushes 7 ∷ pushes 8 ∷ polls 3 ∷ closes ∷ []

history_queue : (run create history).queue ≡ some 8 ∷ none ∷ []
unfolding run step create push close poll_next
history_queue = refl

received-queue_example :
    all_received create history ++ (run create history).queue ≡ some 7 ∷ some 8 ∷ none ∷ []
unfolding all_sent
received-queue_example = received-queue history

history_woken : all_woken create history ≡ 3 ∷ []
unfolding all_woken step create push close poll_next
history_woken = refl

all_woken-all_due_example :
    (all_woken create history ≡ all_due none create history) × IsAwake (run create history)
all_woken-all_due_example = all_woken-all_due history
