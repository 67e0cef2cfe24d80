-- ===== src/Execution/Dispatch/History.antt =====
-- Histories of a storage: what the client, the reader, the monitor and the waiting callers do to it,
-- in any order.
mod Examples
use ac_signalr_client_lib_rs.Base.{
  ℕ, refl, ◌∙◌, inl, inr, Option-cases, Res-cases, Bool-cases, List, [], ◌∷◌, Text, Res, ok, err,
  arith,
}
use ac_signalr_client_lib_rs.Client.Configuration.{Protocol}
use ac_signalr_client_lib_rs.Protocol.Negotiate as Negotiate
use ac_signalr_client_lib_rs.Protocol.Negotiate.{MessageType}
use ac_signalr_client_lib_rs.Protocol.Invoke.{Completion, StreamItem, get_target}
use ac_signalr_client_lib_rs.Protocol.Messages.{Serde, deserialize}
use ac_signalr_client_lib_rs.Execution.Heap.{Heap, poll_future, poll_stream, new_future, new_stream}
use ac_signalr_client_lib_rs.Execution.Heap.Open.{
  Transfers, new_future-Transfers, poll_future-Transfers, poll_stream-Transfers,
}
use ac_signalr_client_lib_rs.Execution.Actions.{new_invocation, new_enumerable}
use ac_signalr_client_lib_rs.Execution.Storage.{
  Storage, new, contains, cancel_pending, dispose, remove_action,
}
use ac_signalr_client_lib_rs.Execution.Storage.Ownership.{
  IsOwned, insert_action-IsOwned, update-IsOwned, remove_action-IsOwned, defer_message-IsOwned,
  replay_deferred-IsOwned,
}
use ac_signalr_client_lib_rs.Execution.Storage.Cancelling.{cancel_pending-IsOwned, dispose-IsOwned}
use ac_signalr_client_lib_rs.Execution.Dispatch.{
  Codec, create_key, add_callback, add_invocation, add_stream, process_message, unregister,
  UnregistrationHandler, deliver, removed_after,
}

-- A call of the storage, or the poll of a future or stream by a task that waits for it.
pub data Call {ℓ} (V R : Type ℓ) : Type ℓ where
  creates_key : Text → Call V R
  adds_callback : Text → ℕ → Call V R
  adds_invocation : Text → Serde (Completion R) → Call V R
  adds_stream : Text → Serde (Completion R) → Serde (StreamItem R) → Call V R
  processes : Text → MessageType → Protocol → Call V R
  unregisters : UnregistrationHandler → Call V R
  removes : Text → Call V R
  cancels : Text → Call V R
  disposes : ℕ → Call V R
  polls : ℕ → ℕ → Call V R
  polls_stream : ℕ → ℕ → Call V R

module _ {ℓ} {V R : Type ℓ} where
  unfoldable pub perform : Codec V → Storage V R → Call V R → Storage V R
  perform c s (creates_key target) = (create_key s target).0
  perform c s (adds_callback target callback) = add_callback c s target callback
  perform c s (adds_invocation key completions) = (add_invocation s key completions).0
  perform c s (adds_stream key completions items) = (add_stream s key completions items).0
  perform c s (processes message t p) = (process_message c s message t p).0
  perform c s (unregisters handler) = unregister s handler
  perform c s (removes key) = remove_action s key
  perform c s (cancels reason) = cancel_pending s reason
  perform c s (disposes strong_count) = dispose s strong_count
  perform c s (polls i w) = record s { heap = (poll_future s.heap i w).0 }
  perform c s (polls_stream i w) = record s { heap = (poll_stream s.heap i w).0 }

  unfoldable pub history : Codec V → Storage V R → List (Call V R) → Storage V R
  unfolding perform
  history c s [] = s
  history c s (x ∷ xs) = history c (perform c s x) xs

  transferred :
      (s : Storage V R) (h : Heap V R)
      → Transfers s.heap h (λ j. 0) (λ j. 0)
      → IsOwned s
      → IsOwned (record s { heap = h })
  transferred s h t w = record {
    unique = w.unique;
    balanced = record {
      balance = λ j. omega (arith, t.balance j, w.balanced.balance j);
      quiet = t.quiet ∙ w.balanced.quiet;
    };
  }

  removed_after-IsOwned :
      (key : Text) (r : Storage V R × Res (Unit {0}))
      → IsOwned r.0
      → IsOwned (removed_after key r).0
  removed_after-IsOwned key (s, ok u) w = remove_action-IsOwned s key w
  removed_after-IsOwned key (s, err e) w = w

  process_message-IsOwned :
      (c : Codec V) (s : Storage V R) (message : Text) (t : MessageType) (p : Protocol)
      → IsOwned s
      → IsOwned (process_message c s message t p).0
  unfolding process_message
  process_message-IsOwned c s message Negotiate.invocation p w =
      elim (Res-cases (deserialize c.invocations message p)) [
        | inr (m, e) ↦ rw e w
        | inl (i, e) ↦ elim (Bool-cases (contains s (get_target i))) [
          | inl f ↦
              rw (e, f) (update-IsOwned c.lossy s (get_target i) message Negotiate.invocation p w)
          | inr f ↦ rw (e, f) (defer_message-IsOwned c.lossy s (get_target i) _ w)
        ]
      ]
  process_message-IsOwned c s message Negotiate.stream_item p w =
      elim (Res-cases (deserialize c.possible_invocations message p)) [
        | inr (m, e) ↦ rw e w
        | inl (i, e) ↦ elim (Option-cases i.invocation_id) [
          | inl f ↦ rw (e, f) w
          | inr (key, f) ↦
              rw (e, f) (update-IsOwned c.lossy s key message Negotiate.stream_item p w)
        ]
      ]
  process_message-IsOwned c s message Negotiate.completion p w =
      elim (Res-cases (deserialize c.possible_invocations message p)) [
        | inr (m, e) ↦ rw e w
        | inl (i, e) ↦ elim (Option-cases i.invocation_id) [
          | inl f ↦ rw (e, f) w
          | inr (key, f) ↦
              rw (e, f)
                (removed_after-IsOwned key (deliver c s key message Negotiate.completion p)
                  (update-IsOwned c.lossy s key message Negotiate.completion p w))
        ]
      ]
  process_message-IsOwned c s message _ p w = w

  add_callback-IsOwned :
      (c : Codec V) (s : Storage V R) (target : Text) (callback : ℕ)
      → IsOwned s
      → IsOwned (add_callback c s target callback)
  unfolding add_callback
  add_callback-IsOwned c s target callback w =
      replay_deferred-IsOwned c.lossy _ target
        (insert_action-IsOwned s target _ w.unique w.balanced)

  add_invocation-IsOwned :
      (s : Storage V R) (key : Text) (completions : Serde (Completion R))
      → IsOwned s
      → IsOwned (add_invocation s key completions).0
  unfolding add_invocation new_invocation
  add_invocation-IsOwned s key completions w =
      let t = new_future-Transfers s.heap in
      insert_action-IsOwned (record s { heap = (new_future s.heap).0 }) key _ w.unique
        (record {
          balance = λ j. omega (arith, t.balance j, w.balanced.balance j);
          quiet = t.quiet ∙ w.balanced.quiet;
        })

  add_stream-IsOwned :
      (s : Storage V R) (key : Text) (completions : Serde (Completion R))
      (items : Serde (StreamItem R))
      → IsOwned s
      → IsOwned (add_stream s key completions items).0
  unfolding add_stream new_enumerable new_stream
  add_stream-IsOwned s key completions items w =
      insert_action-IsOwned (record s { heap = (new_stream s.heap).0 }) key _ w.unique
        (record { balance = w.balanced.balance; quiet = w.balanced.quiet })

  pub perform-IsOwned :
      (c : Codec V) (s : Storage V R) (x : Call V R) → IsOwned s → IsOwned (perform c s x)
  unfolding perform create_key unregister
  perform-IsOwned c s (creates_key target) w = record { unique = w.unique; balanced = w.balanced }
  perform-IsOwned c s (adds_callback target callback) w = add_callback-IsOwned c s target callback w
  perform-IsOwned c s (adds_invocation key completions) w =
      add_invocation-IsOwned s key completions w
  perform-IsOwned c s (adds_stream key completions items) w =
      add_stream-IsOwned s key completions items w
  perform-IsOwned c s (processes message t p) w = process_message-IsOwned c s message t p w
  perform-IsOwned c s (unregisters handler) w = remove_action-IsOwned s handler.key w
  perform-IsOwned c s (removes key) w = remove_action-IsOwned s key w
  perform-IsOwned c s (cancels reason) w = cancel_pending-IsOwned s reason w
  perform-IsOwned c s (disposes strong_count) w = dispose-IsOwned s strong_count w
  perform-IsOwned c s (polls i w) o = transferred s _ (poll_future-Transfers s.heap i w) o
  perform-IsOwned c s (polls_stream i w) o = transferred s _ (poll_stream-Transfers s.heap i w) o

  history_from :
      (c : Codec V) (s : Storage V R) (xs : List (Call V R)) → IsOwned s → IsOwned (history c s xs)
  unfolding history
  history_from c s [] w = w
  history_from c s (x ∷ xs) w = history_from c (perform c s x) xs (perform-IsOwned c s x w)

  -- In every history of a new storage: its keys are distinct, no completion of a future has
  -- panicked, and every future that is neither completed nor cancelled is owed a result by exactly
  -- one action of the storage, no other action being left with a future to complete.
  pub history-IsOwned :
      (c : Codec V) (capacity : ℕ) (xs : List (Call V R)) → IsOwned (history c (new capacity) xs)
  unfolding new
  history-IsOwned c capacity xs =
      history_from c (new capacity) xs
        (record { unique = tt; balanced = record { balance = λ j. refl; quiet = refl } })
