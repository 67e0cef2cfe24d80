-- ===== src/Execution/Dispatch/Callbacks.antt =====
-- Which calls of a storage change the number of its callbacks.
use ac_signalr_client_lib_rs.Base.{
  ℕ, ◌+◌, ◌≡◌, refl, ◌∙◌, none, some, inl, inr, Text, Res, ok, err, Mutex, write, lock-cases,
  Option-cases, Bool-cases, Res-cases, lookup, lookup-insert_self, if◌then◌else◌, arith,
}
use ac_signalr_client_lib_rs.Client.Configuration.{Protocol}
use ac_signalr_client_lib_rs.Protocol.Negotiate as Negotiate
use ac_signalr_client_lib_rs.Protocol.Negotiate.{MessageType}
use ac_signalr_client_lib_rs.Protocol.Invoke.{Completion, StreamItem, get_target}
use ac_signalr_client_lib_rs.Protocol.Messages.{Serde, deserialize}
use ac_signalr_client_lib_rs.Execution.Heap.{Heap, new_future, new_stream}
use ac_signalr_client_lib_rs.Execution.Actions.{
  Action, update_with, complete_invocation, new_invocation, new_enumerable,
}
use ac_signalr_client_lib_rs.Execution.Storage.{Storage, contains, update}
use ac_signalr_client_lib_rs.Execution.Storage.Ownership.{IsOwned, update-IsOwned}
use ac_signalr_client_lib_rs.Execution.Storage.Callbacks.{
  is_one, found_one, callback_count, insert_action-callback_count, update-callback_count,
  remove_action-callback_count, defer_message-callback_count, replay_deferred-callback_count,
}
use ac_signalr_client_lib_rs.Execution.Dispatch.{
  Codec, process_message, add_callback, add_invocation, add_stream, deliver, removed_after,
}

module _ {ℓ} {V R : Type ℓ} where
  -- A callback refuses a completion.
  completed_action :
      (c : Codec V) (e : Mutex (Action V R)) (h : Heap V R) (message : Text) (p : Protocol)
      → let (a', h', r) = update_with c.lossy e.inner h message Negotiate.completion p in
        r ≡ ok tt → is_one (write e a') ≡ 0
  unfolding update_with complete_invocation
  completed_action c e h message p = ground arith

  completed_kind :
      (c : Codec V) (s : Storage V R) (key message : Text) (p : Protocol)
      → (deliver c s key message Negotiate.completion p).1 ≡ ok tt
      → found_one (lookup key (deliver c s key message Negotiate.completion p).0.actions.inner) ≡ 0
  unfolding update
  completed_kind c s key message p = elim (lock-cases s.actions) [
    | inl q ↦ rw q (λ h. cc)
    | inr q ↦ elim (Option-cases (lookup key s.actions.inner)) [
      | inl e ↦ rw (q, e) (λ h. cc)
      | inr (x, e) ↦ elim (lock-cases x) [
        | inl r ↦ rw (q, e, r) (λ h. cc)
        | inr r ↦
            rw
              (
                q,
                e,
                r,
                lookup-insert_self key
                    (write x (update_with c.lossy x.inner s.heap message Negotiate.completion p).0)
                    s.actions.inner,
              )
              (completed_action c x s.heap message p)
      ]
    ]
  ]

  removed_after-callback_count :
      (key : Text) (r : Storage V R × Res (Unit {0}))
      → IsOwned r.0
      → (r.1 ≡ ok tt → found_one (lookup key r.0.actions.inner) ≡ 0)
      → callback_count (removed_after key r).0.actions.inner ≡ callback_count r.0.actions.inner
  removed_after-callback_count key (s, ok u) w n =
      ground (arith, n refl, remove_action-callback_count s key w.unique)
  removed_after-callback_count key (s, err e) w n = refl

  pub process_message-callback_count :
      (c : Codec V) (s : Storage V R) (message : Text) (t : MessageType) (p : Protocol)
      → IsOwned s
      → callback_count (process_message c s message t p).0.actions.inner
        ≡ callback_count s.actions.inner
  unfolding process_message
  process_message-callback_count c s message Negotiate.invocation p w =
      elim (Res-cases (deserialize c.invocations message p)) [
        | inr (m, e) ↦ rw e refl
        | inl (i, e) ↦ elim (Bool-cases (contains s (get_target i))) [
          | inl f ↦
              rw (e, f)
                (update-callback_count c.lossy s (get_target i) message Negotiate.invocation p)
          | inr f ↦ rw (e, f) (defer_message-callback_count c.lossy s (get_target i) _)
        ]
      ]
  process_message-callback_count c s message Negotiate.stream_item p w =
      elim (Res-cases (deserialize c.possible_invocations message p)) [
        | inr (m, e) ↦ rw e refl
        | inl (i, e) ↦ elim (Option-cases i.invocation_id) [
          | inl f ↦ rw (e, f) refl
          | inr (key, f) ↦
              rw (e, f) (update-callback_count c.lossy s key message Negotiate.stream_item p)
        ]
      ]
  process_message-callback_count c s message Negotiate.completion p w =
      elim (Res-cases (deserialize c.possible_invocations message p)) [
        | inr (m, e) ↦ rw e refl
        | inl (i, e) ↦ elim (Option-cases i.invocation_id) [
          | inl f ↦ rw (e, f) refl
          | inr (key, f) ↦
              rw (e, f)
                (removed_after-callback_count key (deliver c s key message Negotiate.completion p)
                    (update-IsOwned c.lossy s key message Negotiate.completion p w)
                    (completed_kind c s key message p)
                  ∙ update-callback_count c.lossy s key message Negotiate.completion p)
        ]
      ]
  process_message-callback_count c s message _ p w = refl

  pub add_callback-callback_count :
      (c : Codec V) (s : Storage V R) (target : Text) (callback : ℕ)
      → callback_count (add_callback c s target callback).actions.inner
        ≡ callback_count s.actions.inner
          + (if s.actions.poisoned
              then 0
              else elim (lookup target s.actions.inner) [ none ↦ 1 | some e ↦ 0 ])
  unfolding add_callback
  add_callback-callback_count c s target callback =
      replay_deferred-callback_count c.lossy _ target ∙ insert_action-callback_count s target _

  pub add_invocation-callback_count :
      (s : Storage V R) (key : Text) (completions : Serde (Completion R))
      → callback_count (add_invocation s key completions).0.actions.inner
        ≡ callback_count s.actions.inner
  unfolding add_invocation new_invocation
  add_invocation-callback_count s key completions =
      insert_action-callback_count (record s { heap = (new_future s.heap).0 }) key _ ∙ ground arith

  pub add_stream-callback_count :
      (s : Storage V R) (key : Text) (completions : Serde (Completion R))
      (items : Serde (StreamItem R))
      → callback_count (add_stream s key completions items).0.actions.inner
        ≡ callback_count s.actions.inner
  unfolding add_stream new_enumerable
  add_stream-callback_count s key completions items =
      insert_action-callback_count (record s { heap = (new_stream s.heap).0 }) key _ ∙ ground arith
