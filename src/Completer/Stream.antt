-- ===== src/Completer/Stream.antt =====
-- src/completer/manual_stream.rs. The queue and the waker that a `ManualStream` and its completer
-- share are one record; `none` in the queue is the mark of `close`. A waker is the number of the
-- task that it wakes. The mutexes are left out: their guards go on with a poisoned one.
pub mod Order
pub mod Waking
mod Examples
use ac_signalr_client_lib_rs.Base.{ℕ, Option, none, some, List, [], ◌∷◌, ◌++◌}
use ac_signalr_client_lib_rs.Completer.Future.{Poll, ready, pending}

pub record StreamState {ℓ} (A : Type ℓ) : Type ℓ where
  pub queue : List (Option A)
  pub waker : Option ℕ

module _ {ℓ} {A : Type ℓ} where
  -- `ManualStreamState::new`
  unfoldable pub create : StreamState A
  create = record { queue = []; waker = none }

  -- An entry goes to the back, and the waker is taken and woken: the new state, and who was woken.
  abbrev enqueue : StreamState A → Option A → StreamState A × Option ℕ
  enqueue s entry = (record { queue = s.queue ++ entry ∷ []; waker = none }, s.waker)

  unfoldable pub push : StreamState A → A → StreamState A × Option ℕ
  push s item = enqueue s (some item)

  unfoldable pub close : StreamState A → StreamState A × Option ℕ
  close s = enqueue s none

  abbrev pop : List (Option A) → StreamState A → ℕ → StreamState A × Poll (Option A)
  pop (entry ∷ rest) s w = (record s { queue = rest }, ready entry)
  pop [] s w = (record s { waker = some w }, pending)

  -- `poll_next`
  unfoldable pub poll_next : StreamState A → ℕ → StreamState A × Poll (Option A)
  poll_next s w = pop s.queue s w
