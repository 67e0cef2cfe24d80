-- ===== src/Execution/Storage/Cancelled.antt =====
-- What is left after `cancel_pending`.
use ac_signalr_client_lib_rs.Base.{
  ℕ, ◌≡◌, ◌⊎◌, text_eq_comm, remove_vacant, refl, ◌∙◌, ap, Bool, true, false, none, inl, inr, List,
  [], ◌∷◌, All, Text, text_eq, text_eq_refl, Mutex, lock, lookup, remove, AreUnique, total,
  Bool-cases, if◌then◌else◌, arith,
}
use ac_signalr_client_lib_rs.Execution.Heap.{Heap}
use ac_signalr_client_lib_rs.Execution.Heap.Open.{open_at}
use ac_signalr_client_lib_rs.Execution.Actions.{
  Action, callback_action, cancel, is_completed, complete_invocation,
}
use ac_signalr_client_lib_rs.Execution.Storage.{
  Storage, ActionMap, cancel_entry, cancel_entries, drop_found, remove_keys, cancel_pending,
}
use ac_signalr_client_lib_rs.Execution.Storage.Ownership.{entry_owes, IsOwned}
use ac_signalr_client_lib_rs.Execution.Storage.Cancelling.{
  cancel_pending-IsOwned, cancel_entries_keys,
}

abbrev is_callback {ℓ} : {V R : Type ℓ} → Action V R → Bool
is_callback (callback_action a) = true
is_callback _ = false

-- The entries whose action is a callback.
unfoldable pub callbacks_of {ℓ} : {V R : Type ℓ} → ActionMap V R → ActionMap V R
callbacks_of [] = []
callbacks_of ((k, e) ∷ m) =
    let rest = callbacks_of m in if is_callback e.inner then (k, e) ∷ rest else rest

-- No mutex of an entry is poisoned.
abbrev pub AreSound {ℓ} : {V R : Type ℓ} → ActionMap V R → Type 0
AreSound [] = Unit
AreSound ((k, e) ∷ m) = (e.poisoned ≡ false) × AreSound m

module _ {ℓ} {V R : Type ℓ} where
  cancelled_entry :
      (reason : Text) (e : Mutex (Action V R)) (h : Heap V R)
      → e.poisoned ≡ false
      → let (e', h', done) = cancel_entry reason e h (lock e) in
        ((is_callback e.inner ≡ true) × (e' ≡ e) × (done ≡ false))
        ⊎ ((is_callback e.inner ≡ false) × (done ≡ true))
  unfolding cancel complete_invocation is_completed
  cancelled_entry reason e h q = ground arith

  -- A key that the map does not have is not among the completed ones.
  pub cancel_entries_other :
      (reason : Text) (m : ActionMap V R) (h : Heap V R) (key : Text)
      → lookup key m ≡ none
      → All (λ j. text_eq key j ≡ false) (cancel_entries reason m h).2
  unfolding cancel_entries lookup
  cancel_entries_other reason [] h key e = tt
  cancel_entries_other reason ((k, x) ∷ m) h key e = elim (Bool-cases (text_eq k key)) [
    | inl t ↦ absurd (ground (arith, e, t))
    | inr t ↦
        let (x', h', done) = cancel_entry reason x h (lock x) in
        let ih = cancel_entries_other reason m h' key (ground (arith, e, t)) in
        elim (Bool-cases done) [ inl d ↦ rw d (text_eq_comm key k ∙ t, ih) | inr d ↦ rw d ih ]
  ]

  remove_keys-cons :
      (keys : List Text) (k : Text) (x : Mutex (Action V R)) (m : ActionMap V R) (h h' : Heap V R)
      → All (λ j. text_eq k j ≡ false) keys
      → (remove_keys keys ((k, x) ∷ m) h).0 ≡ (k, x) ∷ (remove_keys keys m h').0
  unfolding remove_keys remove lookup
  remove_keys-cons [] k x m h h' n = refl
  remove_keys-cons (j ∷ keys) k x m h h' n =
      rw (remove_keys, n.0) (remove_keys-cons keys k x (remove j m) _ _ n.1)

  remove_head :
      (k : Text) (x : Mutex (Action V R)) (m : ActionMap V R)
      → lookup k m ≡ none
      → remove k ((k, x) ∷ m) ≡ m
  unfolding remove
  remove_head k x m e = rw (text_eq_refl k) (remove_vacant k m e)

  remove_keys-cancel_entries :
      (reason : Text) (m : ActionMap V R) (h h' : Heap V R)
      → AreUnique m
      → AreSound m
      → let (m', g, keys) = cancel_entries reason m h in (remove_keys keys m' h').0 ≡ callbacks_of m
  unfolding cancel_entries remove_keys callbacks_of
  remove_keys-cancel_entries reason [] h h' u s = refl
  remove_keys-cancel_entries reason ((k, x) ∷ m) h h' u s =
      let (x', g, done) = cancel_entry reason x h (lock x) in
      let (m', g', keys) = cancel_entries reason m g in
      elim (cancelled_entry reason x h s.0) [
        | inl (c, same, d) ↦
            rw (c, same, d)
              (remove_keys-cons keys k x m' h' h' (cancel_entries_other reason m g k u.0)
                ∙ ap (λ l. (k, x) ∷ l) (remove_keys-cancel_entries reason m g h' u.1 s.1))
        | inr (c, d) ↦
            rw (c, d)
              (ap (λ l. (remove_keys keys l (drop_found h' (lookup k ((k, x') ∷ m')))).0)
                  (remove_head k x' m' (cancel_entries_keys reason m g k u.0))
                ∙ remove_keys-cancel_entries reason m g _ u.1 s.1)
      ]

  callbacks_of_owe : (m : ActionMap V R) (j : ℕ) → total (entry_owes j) (callbacks_of m) ≡ 0
  unfolding callbacks_of
  callbacks_of_owe [] j = refl
  callbacks_of_owe ((k, e) ∷ m) j = ground (arith, callbacks_of_owe m j)

  pub cancel_pending-callbacks_of :
      (s : Storage V R) (reason : Text)
      → IsOwned s
      → s.actions.poisoned ≡ false
      → AreSound s.actions.inner
      → let t = cancel_pending s reason in
        (t.actions.inner ≡ callbacks_of s.actions.inner) × ((j : ℕ) → open_at t.heap j ≡ 0)
  unfolding cancel_pending
  cancel_pending-callbacks_of s reason w q a =
      let left : (cancel_pending s reason).actions.inner ≡ callbacks_of s.actions.inner =
        rw q (remove_keys-cancel_entries reason s.actions.inner s.heap _ w.unique a) in
      let b = (cancel_pending-IsOwned s reason w).balanced in
      (
        left,
        λ j. omega (
          arith,
          b.balance j,
          ap (total (entry_owes j)) left,
          callbacks_of_owe s.actions.inner j,
        ),
      )
