-- ===== src/Execution/FutureState.antt =====
-- src/execution/storage.rs: `ManualFutureState`, a future of a truth value and its completer, each of
-- which is taken once. Its clones share the state of the future; this is one of them.
use ac_signalr_client_lib_rs.Base.{ℕ, ◌≡◌, refl, Bool, true, false, none}
use ac_signalr_client_lib_rs.Completer.Future.{
  State, Poll, ready, Completed, woke, new, complete_with, poll, completed, poll_completed,
}

pub record ManualFutureState : Type 0 where
  pub has_completer : Bool
  pub has_future : Bool
  pub shared : State Bool

-- `ManualFutureState::new`
unfoldable pub new_state : ManualFutureState
unfolding new
new_state = record { has_completer = true; has_future = true; shared = new none }

abbrev completed_once : ManualFutureState → Bool → Bool → ManualFutureState × Completed
completed_once s value true = (
  record s { has_completer = false; shared = (complete_with s.shared value).0 },
  (complete_with s.shared value).1,
)
completed_once s value false = (s, woke none)

-- `ManualFutureState::complete`, and what it did.
unfoldable pub complete_state : ManualFutureState → Bool → ManualFutureState × Completed
unfolding complete_with
complete_state s value = completed_once s value s.has_completer

abbrev awaited_once : ManualFutureState → ℕ → Bool → ManualFutureState × Poll Bool
awaited_once s w true =
    (record s { has_future = false; shared = (poll s.shared w).0 }, (poll s.shared w).1)
awaited_once s w false = (s, (poll_completed (completed false)).1)

-- `ManualFutureState::awaiter`, up to its first poll.
unfoldable pub awaiter : ManualFutureState → ℕ → ManualFutureState × Poll Bool
unfolding poll poll_completed completed
awaiter s w = awaited_once s w s.has_future

-- Of two completions of a new state the second does nothing, and neither panics; the first wait for
-- it gets the first value at once, the second gets false.
complete_state-awaiter :
    (v x : Bool) (a b : ℕ)
    → let once = complete_state new_state v in
      let twice = complete_state once.0 x in
      let first = awaiter twice.0 a in
      (once.1 ≡ woke none)
      × (twice ≡ (once.0, woke none))
      × (first.1 ≡ ready v)
      × ((awaiter first.0 b).1 ≡ ready false)
unfolding complete_state awaiter new_state
complete_state-awaiter v x a b = (refl, refl, refl, refl)
