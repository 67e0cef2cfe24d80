-- ===== src/Completer/Future/Examples.antt =====
-- The theorems about manual futures at concrete histories, and tests.
use ac_signalr_client_lib_rs.Base.{ℕ, ◌≤◌, ◌≡◌, refl, none, some, List, [], ◌∷◌}
use ac_signalr_client_lib_rs.Completer.Future.{
  complete, ready, pending, woke, panicked, new, complete_with, poll, completed, poll_completed,
}
use ac_signalr_client_lib_rs.Completer.Future.Delivery.{
  Event, polls, completes, cancels, run, polls_by, readies, completions, readies-le-completions,
}
use ac_signalr_client_lib_rs.Completer.Future.Wakeups.{complete_with-polls_by, complete_with_again}

abbrev history : List (Event ℕ)
history = polls 1 ∷ completes 7 ∷ polls 1 ∷ polls 2 ∷ cancels ∷ polls 1 ∷ []

history_delivers_once : readies (new none) history ≡ 1
unfolding readies new
history_delivers_once = refl

completed_delivers_once :
    ((poll_completed (completed {A = ℕ} 7)).1 ≡ ready 7)
    × ((poll_completed (poll_completed (completed {A = ℕ} 7)).0).1 ≡ pending)
unfolding completed poll_completed
completed_delivers_once = (refl, refl)

readies-le-completions_example : readies (new none) history ≤ completions history
readies-le-completions_example = readies-le-completions history

complete_with-polls_by_example :
    ((complete_with {A = ℕ} (run (new none) (polls_by (4 ∷ 5 ∷ []))) 7).1 ≡ woke (some 5))
    × ((poll (complete_with {A = ℕ} (run (new none) (polls_by (4 ∷ 5 ∷ []))) 7).0 5).1 ≡ ready 7)
    × ((poll (poll (complete_with {A = ℕ} (run (new none) (polls_by (4 ∷ 5 ∷ []))) 7).0 5).0 6).1
        ≡ pending)
complete_with-polls_by_example = complete_with-polls_by (4 ∷ 5 ∷ []) 7 5 6

complete_with_again_example :
    ((complete_with {A = ℕ} (complete (some 7)) 8).1 ≡ panicked)
    × ((poll (complete_with {A = ℕ} (complete (some 7)) 8).0 1).1 ≡ ready 8)
complete_with_again_example = complete_with_again (some 7) 8 1
