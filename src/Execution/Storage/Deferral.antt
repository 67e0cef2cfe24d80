-- ===== src/Execution/Storage/Deferral.antt =====
-- The messages that arrive before their callback is registered: which of them are kept, and that
-- registering the callback replays them.
use ac_signalr_client_lib_rs.Base.{
  ℕ, ◌≤◌, ◌≡◌, refl, sym, ap, ◌∙◌, none, false, List, [], ◌∷◌, ◌++◌, append_assoc, append-nil, Text,
  lookup, insert, lookup-insert_self, length, length-append, last_of, last_of-append,
  length-last_of-le, last_of_short, drop, Bool-cases, ltb, ltb→lt, inl, inr, ◌-◌, write, arith,
}
use ac_signalr_client_lib_rs.Execution.Actions.{Lossy}
use ac_signalr_client_lib_rs.Execution.Storage.{
  Storage, Deferred, defer_message, or_default, bounded_push,
}

bounded_push_lem :
    (n : ℕ) (q : List Deferred) (d : Deferred)
    → length q ≤ n
    → bounded_push n q d ≡ last_of n (q ++ d ∷ [])
bounded_push_lem n q d h = elim (Bool-cases (ltb n (length (q ++ d ∷ [])))) [
  | inl e ↦
      let k : 1 ≡ length (q ++ d ∷ []) - n =
        omega (arith, length-append q (d ∷ []), ltb→lt n (length (q ++ d ∷ [])) e) in
      rw e (ap (λ m. drop m (q ++ d ∷ [])) k)
  | inr e ↦ rw e (sym (last_of_short n (q ++ d ∷ []) (ground arith)))
]

module _ {ℓ} {V R : Type ℓ} where
  -- The messages kept for a key, oldest first.
  unfoldable pub queue : Storage V R → Text → List Deferred
  queue s key = or_default (lookup key s.deferred_messages.inner)

  -- No action has the key, and the locks are sound.
  pub record IsUnregistered (s : Storage V R) (key : Text) : Type ℓ where
    pub vacant : lookup key s.actions.inner ≡ none
    pub actions_sound : s.actions.poisoned ≡ false
    pub deferred_sound : s.deferred_messages.poisoned ≡ false

  unfoldable pub defer_all : Lossy → Storage V R → Text → List Deferred → Storage V R
  defer_all lossy s key [] = s
  defer_all lossy s key (d ∷ ds) = defer_all lossy (defer_message lossy s key d) key ds

  defer_message_lem :
      (lossy : Lossy) (s : Storage V R) (key : Text) (d : Deferred)
      → IsUnregistered s key
      → defer_message lossy s key d ≡ record s {
        deferred_messages = write s.deferred_messages (
            insert key
              (bounded_push s.deferred_message_capacity (queue s key) d)
              s.deferred_messages.inner);
      }
  unfolding defer_message queue
  defer_message_lem lossy s key d u = ground arith

  defer_step :
      (lossy : Lossy) (s : Storage V R) (key : Text) (d : Deferred)
      → IsUnregistered s key
      → length (queue s key) ≤ s.deferred_message_capacity
      → let t = defer_message lossy s key d in
        IsUnregistered t key
        × (queue t key ≡ last_of s.deferred_message_capacity (queue s key ++ d ∷ []))
        × (t.deferred_message_capacity ≡ s.deferred_message_capacity)
        × (t.heap ≡ s.heap)
  unfolding queue
  defer_step lossy s key d u h = rw (defer_message_lem lossy s key d u) (
    record {
      vacant = u.vacant;
      actions_sound = u.actions_sound;
      deferred_sound = u.deferred_sound;
    },
    rw
        (lookup-insert_self key (bounded_push s.deferred_message_capacity (queue s key) d)
          s.deferred_messages.inner)
        (bounded_push_lem s.deferred_message_capacity (queue s key) d h),
    refl,
    refl,
  )

  -- Messages deferred for a key that no action has, in a storage whose locks are sound and whose
  -- queue for the key is within the capacity: of those kept before and the new ones, exactly the
  -- last `deferred_message_capacity` are kept, oldest first.
  pub queue-defer_all :
      (lossy : Lossy) (s : Storage V R) (key : Text) (ds : List Deferred)
      → IsUnregistered s key
      → length (queue s key) ≤ s.deferred_message_capacity
      → queue (defer_all lossy s key ds) key
        ≡ last_of s.deferred_message_capacity (queue s key ++ ds)
  unfolding defer_all
  queue-defer_all lossy s key [] u h =
      rw (append-nil (queue s key))
        (sym (last_of_short s.deferred_message_capacity (queue s key) h))
  queue-defer_all lossy s key (d ∷ ds) u h =
      let t : Storage V R = defer_message lossy s key d in
      let (u', q, c, _) = defer_step lossy s key d u h in
      let n : ℕ = s.deferred_message_capacity in
      queue-defer_all lossy t key ds u' (rw (q, c) (length-last_of-le n (queue s key ++ d ∷ [])))
      ∙ rw (q, c)
          (last_of-append n (queue s key ++ d ∷ []) ds
            ∙ ap (last_of n) (append_assoc (queue s key) (d ∷ []) ds))

  -- Deferring changes neither the heap nor whether the key is registered.
  pub defer_all-keeps :
      (lossy : Lossy) (s : Storage V R) (key : Text) (ds : List Deferred)
      → IsUnregistered s key
      → length (queue s key) ≤ s.deferred_message_capacity
      → IsUnregistered (defer_all lossy s key ds) key × ((defer_all lossy s key ds).heap ≡ s.heap)
  unfolding defer_all
  defer_all-keeps lossy s key [] u h = (u, refl)
  defer_all-keeps lossy s key (d ∷ ds) u h =
      let t : Storage V R = defer_message lossy s key d in
      let (u', q, c, e) = defer_step lossy s key d u h in
      let (u'', e') =
        defer_all-keeps lossy t key ds u'
          (rw (q, c) (length-last_of-le s.deferred_message_capacity (queue s key ++ d ∷ []))) in
      (u'', e' ∙ e)
