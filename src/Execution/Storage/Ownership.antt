-- ===== src/Execution/Storage/Ownership.antt =====
-- Every future that is still open is owed a result by exactly one action of the storage, and no
-- completion panics: the operations of the storage keep this, whatever the locks are like.
use ac_signalr_client_lib_rs.Base.{
  ℕ, ◌+◌, ◌≡◌, ◌∙◌, false, none, some, inl, inr, List, [], ◌∷◌, Text, Mutex, lock, write, unlocked,
  lookup, insert, remove, AreUnique, insert-AreUnique, remove-AreUnique, total, total-insert_new,
  total-insert_old, total-remove, lookup-le-total, Option-cases, lock-cases, arith,
}
use ac_signalr_client_lib_rs.Client.Configuration.{Protocol}
use ac_signalr_client_lib_rs.Protocol.Negotiate.{MessageType}
use ac_signalr_client_lib_rs.Execution.Heap.{Heap}
use ac_signalr_client_lib_rs.Execution.Heap.Open.{open_at, Transfers}
use ac_signalr_client_lib_rs.Execution.Actions.{Action, Lossy, update_with, drop_action}
use ac_signalr_client_lib_rs.Execution.Actions.Owning.{
  owes, IsOwed, update_with-Transfers, drop_action-Transfers,
}
use ac_signalr_client_lib_rs.Execution.Storage.{
  Storage, ActionMap, Deferred, update_entry, insert_action, update, remove_action, defer_message,
  replay_all, replay_deferred,
}

-- What an entry owes future `j`; a poisoned mutex holds its action still.
abbrev pub entry_owes {ℓ} : {V R : Type ℓ} → ℕ → Mutex (Action V R) → ℕ
entry_owes j e = owes e.inner j

module _ {ℓ} {V R : Type ℓ} where
  -- A map and a heap, with what actions outside the map owe.
  pub record IsBalanced (m : ActionMap V R) (h : Heap V R) (outside : ℕ → ℕ) : Type ℓ where
    pub balance : (j : ℕ) → total (entry_owes j) m + outside j ≡ open_at h j
    pub quiet : h.crashed ≡ false

  -- The keys are distinct, every open future is owed by exactly one action, every future that is owed
  -- is open, and no completion has panicked.
  pub record IsOwned (s : Storage V R) : Type ℓ where
    pub unique : AreUnique s.actions.inner
    pub balanced : IsBalanced s.actions.inner s.heap (λ j. 0)

  pub drop_outside :
      (m : ActionMap V R) (h : Heap V R) (a : Action V R)
      → IsBalanced m h (owes a)
      → IsBalanced m (drop_action a h) (λ j. 0)
  drop_outside m h a b =
      let t = drop_action-Transfers a h (λ j. omega (arith, b.balance j)) in
      record { balance = λ j. omega (arith, t.balance j, b.balance j); quiet = t.quiet ∙ b.quiet }

  insert_new :
      (m : ActionMap V R) (h : Heap V R) (key : Text) (a : Action V R)
      → lookup key m ≡ none
      → IsBalanced m h (owes a)
      → IsBalanced (insert key (unlocked a) m) h (λ j. 0)
  insert_new m h key a e b = record {
    balance = λ j. omega (arith, b.balance j, total-insert_new (entry_owes j) key (unlocked a) m e);
    quiet = b.quiet;
  }

  -- An action that is new to the storage is either stored or dropped.
  pub insert_action-IsOwned :
      (s : Storage V R) (key : Text) (a : Action V R)
      → AreUnique s.actions.inner
      → IsBalanced s.actions.inner s.heap (owes a)
      → IsOwned (insert_action s key a)
  unfolding insert_action
  insert_action-IsOwned s key a u b = elim (lock-cases s.actions) [
    | inl p ↦ rw p (record { unique = u; balanced = drop_outside s.actions.inner s.heap a b })
    | inr p ↦ elim (Option-cases (lookup key s.actions.inner)) [
      | inl e ↦
          rw (p, e)
            (record {
              unique = insert-AreUnique key (unlocked a) s.actions.inner u;
              balanced = insert_new s.actions.inner s.heap key a e b;
            })
      | inr (x, e) ↦
          rw (p, e) (record { unique = u; balanced = drop_outside s.actions.inner s.heap a b })
    ]
  ]

  pub remove_found :
      (m : ActionMap V R) (h : Heap V R) (key : Text) {e : Mutex (Action V R)}
      → AreUnique m
      → lookup key m ≡ some e
      → IsBalanced m h (λ j. 0)
      → IsBalanced (remove key m) (drop_action e.inner h) (λ j. 0)
  remove_found m h key {e} u f b = drop_outside (remove key m) h e.inner (record {
    balance = λ j. omega (arith, b.balance j, total-remove (entry_owes j) key m u f);
    quiet = b.quiet;
  })

  update_found :
      (m : ActionMap V R) (h h' : Heap V R) (key : Text) (e : Mutex (Action V R)) (a' : Action V R)
      → lookup key m ≡ some e
      → Transfers h h' (owes e.inner) (owes a')
      → IsBalanced m h (λ j. 0)
      → IsBalanced (insert key (write e a') m) h' (λ j. 0)
  update_found m h h' key e a' f t b = record {
    balance = λ j. omega (
      arith,
      b.balance j,
      t.balance j,
      total-insert_old (entry_owes j) key (write e a') m f,
      lookup-le-total (entry_owes j) key m f,
    );
    quiet = t.quiet ∙ b.quiet;
  }

  -- The entry of an action, updated with a message unless its mutex is poisoned.
  update_entry-IsOwned :
      (lossy : Lossy) (s : Storage V R) (key : Text) (message : Text) (t : MessageType)
      (p : Protocol) (e : Mutex (Action V R))
      → lookup key s.actions.inner ≡ some e
      → IsOwned s
      → IsOwned
          (update_entry s key
            (λ a h. update_with lossy a h message t p)
            s.actions.inner
            e
            (lock e)).0
  update_entry-IsOwned lossy s key message t p e f w = elim (lock-cases e) [
    | inl q ↦ rw q w
    | inr q ↦
        let owed : IsOwed e.inner s.heap = λ j.
          omega
            (arith, w.balanced.balance j, lookup-le-total (entry_owes j) key s.actions.inner f) in
        let (a', h', r) = update_with lossy e.inner s.heap message t p in
        rw q (record {
          unique = insert-AreUnique key (write e a') s.actions.inner w.unique;
          balanced =
              update_found s.actions.inner s.heap h' key e a' f
                (update_with-Transfers lossy e.inner s.heap message t p owed) w.balanced;
        })
  ]

  pub update-IsOwned :
      (lossy : Lossy) (s : Storage V R) (key : Text) (message : Text) (t : MessageType)
      (p : Protocol)
      → IsOwned s
      → IsOwned (update s key (λ a h. update_with lossy a h message t p)).0
  unfolding update
  update-IsOwned lossy s key message t p w = elim (lock-cases s.actions) [
    | inl q ↦ rw q w
    | inr q ↦ elim (Option-cases (lookup key s.actions.inner)) [
      | inl e ↦ rw (q, e) w
      | inr (x, e) ↦ rw (q, e) (update_entry-IsOwned lossy s key message t p x e w)
    ]
  ]

  pub remove_action-IsOwned :
      (s : Storage V R) (key : Text) → IsOwned s → IsOwned (remove_action s key)
  unfolding remove_action
  remove_action-IsOwned s key w = elim (lock-cases s.actions) [
    | inl q ↦ rw q w
    | inr q ↦ elim (Option-cases (lookup key s.actions.inner)) [
      | inl e ↦ rw (q, e) w
      | inr (x, e) ↦
          rw (q, e)
            (record {
              unique = remove-AreUnique key s.actions.inner w.unique;
              balanced = remove_found s.actions.inner s.heap key w.unique e w.balanced;
            })
    ]
  ]

  pub defer_message-IsOwned :
      (lossy : Lossy) (s : Storage V R) (key : Text) (d : Deferred)
      → IsOwned s
      → IsOwned (defer_message lossy s key d)
  unfolding defer_message
  defer_message-IsOwned lossy s key d w = elim (lock-cases s.actions) [
    | inl q ↦ rw q w
    | inr q ↦ elim (Option-cases (lookup key s.actions.inner)) [
      | inl e ↦ elim (lock-cases s.deferred_messages) [
        | inl r ↦ rw (q, e, r) w
        | inr r ↦ rw (q, e, r) (record { unique = w.unique; balanced = w.balanced })
      ]
      | inr (x, e) ↦
          rw (q, e) (update_entry-IsOwned lossy s key d.message d.message_type d.protocol x e w)
    ]
  ]

  replay_all-IsOwned :
      (lossy : Lossy) (s : Storage V R) (key : Text) (ds : List Deferred)
      → IsOwned s
      → IsOwned (replay_all lossy s key ds)
  unfolding replay_all
  replay_all-IsOwned lossy s key [] w = w
  replay_all-IsOwned lossy s key (d ∷ ds) w =
      let s' : Storage V R =
        (update s key (λ a h. update_with lossy a h d.message d.message_type d.protocol)).0 in
      replay_all-IsOwned lossy s' key ds
        (update-IsOwned lossy s key d.message d.message_type d.protocol w)

  pub replay_deferred-IsOwned :
      (lossy : Lossy) (s : Storage V R) (key : Text)
      → IsOwned s
      → IsOwned (replay_deferred lossy s key)
  unfolding replay_deferred
  replay_deferred-IsOwned lossy s key w = elim (lock-cases s.deferred_messages) [
    | inl q ↦ rw q w
    | inr q ↦ elim (Option-cases (lookup key s.deferred_messages.inner)) [
      | inl e ↦ rw (q, e) w
      | inr (ds, e) ↦
          rw (q, e)
            (replay_all-IsOwned lossy
              (record s {
                deferred_messages =
                    write s.deferred_messages (remove key s.deferred_messages.inner);
              })
              key ds (record { unique = w.unique; balanced = w.balanced }))
    ]
  ]
