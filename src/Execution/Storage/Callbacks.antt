-- ===== src/Execution/Storage/Callbacks.antt =====
-- How many callbacks a storage holds, and that only `add_callback`, `remove` and `dispose` change it.
pub mod Kept
use ac_signalr_client_lib_rs.Base.{
  ℕ, ◌+◌, ◌≡◌, refl, ◌∙◌, false, Option, none, some, inl, inr, List, [], ◌∷◌, Text, Mutex, lock,
  write, unlocked, lock-cases, Option-cases, lookup, remove, lookup-remove, AreUnique, total,
  total-insert_new, total-insert_old, total-remove, text_eq_refl, if◌then◌else◌, arith,
}
use ac_signalr_client_lib_rs.Client.Configuration.{Protocol}
use ac_signalr_client_lib_rs.Protocol.Negotiate.{MessageType}
use ac_signalr_client_lib_rs.Execution.Heap.{Heap}
use ac_signalr_client_lib_rs.Execution.Actions.{
  Action, Lossy, callback_action, invocation_action, enumerable_action, update_with,
  complete_invocation,
}
use ac_signalr_client_lib_rs.Execution.Storage.{
  Storage, ActionMap, Deferred, update_entry, insert_action, update, remove_action, defer_message,
  replay_all, replay_deferred,
}

-- One for a callback, whose mutex may be poisoned.
abbrev pub is_one {ℓ} : {V R : Type ℓ} → Mutex (Action V R) → ℕ
is_one e = elim e.inner [
  | callback_action a ↦ 1
  | invocation_action a ↦ 0
  | enumerable_action a ↦ 0
]

abbrev pub found_one {ℓ} : {V R : Type ℓ} → Option (Mutex (Action V R)) → ℕ
found_one none = 0
found_one (some e) = is_one e

module _ {ℓ} {V R : Type ℓ} where
  unfoldable pub callback_count : ActionMap V R → ℕ
  callback_count m = total is_one m

  pub insert_action-callback_count :
      (s : Storage V R) (key : Text) (a : Action V R)
      → callback_count (insert_action s key a).actions.inner
        ≡ callback_count s.actions.inner
          + (if s.actions.poisoned then 0 else elim (lookup key s.actions.inner) [
            | none ↦ is_one {V = V} (unlocked a)
            | some e ↦ 0
          ])
  unfolding insert_action callback_count
  insert_action-callback_count s key a =
      ground (arith, total-insert_new is_one key (unlocked a) s.actions.inner)

  update_with_kind :
      (lossy : Lossy) (e : Mutex (Action V R)) (h : Heap V R) (message : Text) (t : MessageType)
      (p : Protocol)
      → is_one (write e (update_with lossy e.inner h message t p).0) ≡ is_one e
  unfolding update_with complete_invocation
  update_with_kind lossy e h message t p = ground arith

  update_entry-callback_count :
      (lossy : Lossy) (s : Storage V R) (key : Text) (message : Text) (t : MessageType)
      (p : Protocol) (e : Mutex (Action V R))
      → lookup key s.actions.inner ≡ some e
      → callback_count
          (update_entry s key
            (λ a h. update_with lossy a h message t p)
            s.actions.inner
            e
            (lock e)).0.actions.inner
        ≡ callback_count s.actions.inner
  unfolding callback_count
  update_entry-callback_count lossy s key message t p e f = elim (lock-cases e) [
    | inl q ↦ rw q refl
    | inr q ↦
        let e' : Mutex (Action V R) = write e (update_with lossy e.inner s.heap message t p).0 in
        rw q (
          omega (
            arith,
            total-insert_old is_one key e' s.actions.inner f,
            update_with_kind lossy e s.heap message t p,
          ))
  ]

  pub update-callback_count :
      (lossy : Lossy) (s : Storage V R) (key : Text) (message : Text) (t : MessageType)
      (p : Protocol)
      → callback_count (update s key (λ a h. update_with lossy a h message t p)).0.actions.inner
        ≡ callback_count s.actions.inner
  unfolding update
  update-callback_count lossy s key message t p = elim (lock-cases s.actions) [
    | inl q ↦ rw q refl
    | inr q ↦ elim (Option-cases (lookup key s.actions.inner)) [
      | inl e ↦ rw (q, e) refl
      | inr (x, e) ↦ rw (q, e) (update_entry-callback_count lossy s key message t p x e)
    ]
  ]

  pub remove_action-callback_count :
      (s : Storage V R) (key : Text)
      → AreUnique s.actions.inner
      → callback_count (remove_action s key).actions.inner
          + (if s.actions.poisoned then 0 else found_one (lookup key s.actions.inner))
        ≡ callback_count s.actions.inner
  unfolding remove_action callback_count
  remove_action-callback_count s key u = elim (lock-cases s.actions) [
    | inl q ↦ ground (arith, q)
    | inr q ↦ elim (Option-cases (lookup key s.actions.inner)) [
      | inl e ↦ ground (arith, q, e)
      | inr (x, e) ↦ ground (arith, q, e, total-remove is_one key s.actions.inner u e)
    ]
  ]

  -- The key is free afterwards.
  pub lookup-remove_action :
      (s : Storage V R) (key : Text)
      → s.actions.poisoned ≡ false
      → lookup key (remove_action s key).actions.inner ≡ none
  unfolding remove_action
  lookup-remove_action s key q = elim (Option-cases (lookup key s.actions.inner)) [
    | inl e ↦ ground (arith, q, e)
    | inr (x, e) ↦ ground (arith, q, e, lookup-remove key key s.actions.inner, text_eq_refl key)
  ]

  pub defer_message-callback_count :
      (lossy : Lossy) (s : Storage V R) (key : Text) (d : Deferred)
      → callback_count (defer_message lossy s key d).actions.inner ≡ callback_count s.actions.inner
  unfolding defer_message
  defer_message-callback_count lossy s key d = elim (lock-cases s.actions) [
    | inl q ↦ rw q refl
    | inr q ↦ elim (Option-cases (lookup key s.actions.inner)) [
      | inl e ↦ elim (lock-cases s.deferred_messages) [
        | inl r ↦ rw (q, e, r) refl
        | inr r ↦ rw (q, e, r) refl
      ]
      | inr (x, e) ↦
          rw (q, e)
            (update_entry-callback_count lossy s key d.message d.message_type d.protocol x e)
    ]
  ]

  replay_all-callback_count :
      (lossy : Lossy) (s : Storage V R) (key : Text) (ds : List Deferred)
      → callback_count (replay_all lossy s key ds).actions.inner ≡ callback_count s.actions.inner
  unfolding replay_all
  replay_all-callback_count lossy s key [] = refl
  replay_all-callback_count lossy s key (d ∷ ds) =
      replay_all-callback_count lossy
        (update s key (λ a h. update_with lossy a h d.message d.message_type d.protocol)).0 key ds
      ∙ update-callback_count lossy s key d.message d.message_type d.protocol

  pub replay_deferred-callback_count :
      (lossy : Lossy) (s : Storage V R) (key : Text)
      → callback_count (replay_deferred lossy s key).actions.inner ≡ callback_count s.actions.inner
  unfolding replay_deferred
  replay_deferred-callback_count lossy s key = elim (lock-cases s.deferred_messages) [
    | inl q ↦ rw q refl
    | inr q ↦ elim (Option-cases (lookup key s.deferred_messages.inner)) [
      | inl e ↦ rw (q, e) refl
      | inr (ds, e) ↦
          rw (q, e)
            (replay_all-callback_count lossy
              (record s {
                deferred_messages =
                    write s.deferred_messages (remove key s.deferred_messages.inner);
              })
              key ds)
    ]
  ]
