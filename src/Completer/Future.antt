-- ===== src/Completer/Future.antt =====
-- src/completer/manual_future.rs and completed_future.rs. The state that a `ManualFuture` and its
-- completer share is a value; an operation returns the new state and what it did. A waker is the
-- number of the task that it wakes. The mutex is left out: `lock_state` goes on with a poisoned one.
pub mod Delivery
pub mod Wakeups
mod Examples
use ac_signalr_client_lib_rs.Base.{ℕ, Bool, true, false, Option, none, some, ◌==◌, if◌then◌else◌}

pub data State {ℓ} (A : Type ℓ) : Type ℓ where
  incomplete : State A
  waiting : ℕ → State A
  complete : Option A → State A

-- What a completion does besides the new state: it wakes the waiting task if there is one, or it
-- panics.
pub data Completed : Type 0 where
  woke : Option ℕ → Completed
  panicked : Completed

pub data Poll {ℓ} (A : Type ℓ) : Type ℓ where
  ready : A → Poll A
  pending : Poll A

module _ {ℓ} {A : Type ℓ} where
  -- `State::new`
  unfoldable pub new : Option A → State A
  new none = incomplete
  new (some a) = complete (some a)

  -- `is_completed` of both halves.
  unfoldable pub is_completed : State A → Bool
  is_completed incomplete = false
  is_completed (waiting w) = false
  is_completed (complete v) = true

  abbrev replaced : State A → Completed
  replaced incomplete = woke none
  replaced (waiting w) = woke (some w)
  replaced (complete v) = panicked

  -- `ManualFutureCompleter::complete`: the value is stored first, then the old state is looked at.
  unfoldable pub complete_with : State A → A → State A × Completed
  complete_with s a = (complete (some a), replaced s)

  -- `ManualFutureCompleter::cancel`
  unfoldable pub cancel : State A → State A
  cancel s = complete none

  -- `ManualFuture::poll`: a waiting future keeps its waker if that wakes the same task.
  unfoldable pub poll : State A → ℕ → State A × Poll A
  poll incomplete w = (waiting w, pending)
  poll (waiting v) w = ((if v == w then waiting v else waiting w), pending)
  poll (complete (some a)) w = (complete none, ready a)
  poll (complete none) w = (complete none, pending)

-- `CompletedFuture`: its data, until the first poll takes it.
pub record CompletedFuture {ℓ} (A : Type ℓ) : Type ℓ where
  pub held : Option A

abbrev take {ℓ} : {A : Type ℓ} → Option A → CompletedFuture A × Poll A
take none = (record { held = none }, pending)
take (some a) = (record { held = none }, ready a)

module _ {ℓ} {A : Type ℓ} where
  unfoldable pub completed : A → CompletedFuture A
  completed a = record { held = some a }

  -- `CompletedFuture::poll`
  unfoldable pub poll_completed : CompletedFuture A → CompletedFuture A × Poll A
  poll_completed f = take f.held
