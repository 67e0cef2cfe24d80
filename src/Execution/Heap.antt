-- ===== src/Execution/Heap.antt =====
-- What the actions share with the rest of the program: the futures and streams that callers hold,
-- by number, the calls made of registered callbacks, and the tasks that were woken. `V` stands for
-- `serde_json::Value`, `R` for the types that callers ask for.
pub mod Open
use ac_signalr_client_lib_rs.Base.{
  ℕ, Bool, true, Option, none, some, List, [], ◌∷◌, ◌++◌, length, get_elem?, set, Res,
}
use ac_signalr_client_lib_rs.Completer.Future.{
  State, incomplete, Completed, woke, panicked, complete_with, Poll, pending, poll,
}
use ac_signalr_client_lib_rs.Completer.Stream.{StreamState}
use ac_signalr_client_lib_rs.Completer.Stream as Stream
use ac_signalr_client_lib_rs.Protocol.Invoke.{Invocation}

pub record Heap {ℓ} (V R : Type ℓ) : Type ℓ where
  pub futures : List (State (Res R))
  pub streams : List (StreamState R)
  pub calls : List (ℕ × Invocation V)
  pub woken : List ℕ
  pub crashed : Bool

abbrev option_list : Option ℕ → List ℕ
option_list none = []
option_list (some w) = w ∷ []

module _ {ℓ} {V R : Type ℓ} where
  -- `ManualFuture::new`: the number of the new future.
  unfoldable pub new_future : Heap V R → Heap V R × ℕ
  new_future h = (record h { futures = h.futures ++ incomplete ∷ [] }, length h.futures)

  -- `ManualStream::create`
  unfoldable pub new_stream : Heap V R → Heap V R × ℕ
  new_stream h = (record h { streams = h.streams ++ Stream.create ∷ [] }, length h.streams)

  abbrev after : Heap V R → Completed → Heap V R
  after h (woke w) = record h { woken = h.woken ++ option_list w }
  after h panicked = record h { crashed = true }

  abbrev settle_state : Heap V R → ℕ → Res R → Option (State (Res R)) → Heap V R
  settle_state h i r none = h
  settle_state h i r (some s) =
      after (record h { futures = set h.futures i (complete_with s r).0 }) (complete_with s r).1

  -- `completer.complete(result)`; a panic is recorded.
  unfoldable pub settle : Heap V R → ℕ → Res R → Heap V R
  unfolding complete_with
  settle h i r = settle_state h i r (get_elem? h.futures i)

  abbrev polled : Heap V R → ℕ → ℕ → Option (State (Res R)) → Heap V R × Poll (Res R)
  polled h i w none = (h, pending)
  polled h i w (some s) = (record h { futures = set h.futures i (poll s w).0 }, (poll s w).1)

  -- The poll of a future that the caller of an invocation waits for.
  unfoldable pub poll_future : Heap V R → ℕ → ℕ → Heap V R × Poll (Res R)
  unfolding poll
  poll_future h i w = polled h i w (get_elem? h.futures i)

  abbrev feed :
      Heap V R → ℕ → (StreamState R → StreamState R × Option ℕ) → Option (StreamState R) → Heap V R
  feed h i op none = h
  feed h i op (some s) = record h {
    streams = set h.streams i (op s).0;
    woken = h.woken ++ option_list (op s).1;
  }

  -- `completer.push(item)`
  unfoldable pub push_item : Heap V R → ℕ → R → Heap V R
  push_item h i item = feed h i (λ s. Stream.push s item) (get_elem? h.streams i)

  -- `completer.close()`
  unfoldable pub close_stream : Heap V R → ℕ → Heap V R
  close_stream h i = feed h i Stream.close (get_elem? h.streams i)

  -- `(self.callback)(context)`
  unfoldable pub call : Heap V R → ℕ → Invocation V → Heap V R
  call h callback i = record h { calls = h.calls ++ (callback, i) ∷ [] }

  abbrev taken : Heap V R → ℕ → ℕ → Option (StreamState R) → Heap V R × Poll (Option R)
  taken h i w none = (h, pending)
  taken h i w (some s) =
      (record h { streams = set h.streams i (Stream.poll_next s w).0 }, (Stream.poll_next s w).1)

  -- The poll of a stream that the caller of an enumeration reads.
  unfoldable pub poll_stream : Heap V R → ℕ → ℕ → Heap V R × Poll (Option R)
  poll_stream h i w = taken h i w (get_elem? h.streams i)
