-- ===== src/Execution/Storage/Callbacks/Kept.antt =====
-- `cancel_pending` takes no callback away.
use ac_signalr_client_lib_rs.Base.{
  ◌≡◌, refl, ◌∙◌, true, false, inl, inr, List, [], ◌∷◌, All, Text, Mutex, lock, lock-cases,
  Option-cases, Bool-cases, lookup, remove, lookup-remove, AreUnique, remove-AreUnique,
  remove_vacant, total-remove, text_eq, text_eq_refl, arith,
}
use ac_signalr_client_lib_rs.Execution.Heap.{Heap}
use ac_signalr_client_lib_rs.Execution.Actions.{Action, cancel, is_completed, complete_invocation}
use ac_signalr_client_lib_rs.Execution.Storage.{
  Storage, ActionMap, cancel_entry, cancel_entries, drop_found, remove_keys, cancel_pending,
}
use ac_signalr_client_lib_rs.Execution.Storage.Cancelling.{cancel_entries-AreUnique}
use ac_signalr_client_lib_rs.Execution.Storage.Cancelled.{cancel_entries_other}
use ac_signalr_client_lib_rs.Execution.Storage.Callbacks.{is_one, found_one, callback_count}

module _ {ℓ} {V R : Type ℓ} where
  -- A cancelled entry is what it was, and no callback is among the completed ones.
  cancel_entry_kind :
      (reason : Text) (e : Mutex (Action V R)) (h : Heap V R)
      → let (e', h', done) = cancel_entry reason e h (lock e) in
        (is_one e' ≡ is_one e) × (done ≡ true → is_one e' ≡ 0)
  unfolding cancel complete_invocation is_completed
  cancel_entry_kind reason e h = ground arith

  -- What stands under the key is no callback.
  abbrev IsOther : ActionMap V R → Text → Type 0
  IsOther m k = found_one (lookup k m) ≡ 0

  others_remove :
      (k : Text) (m : ActionMap V R) (keys : List Text)
      → All (IsOther m) keys
      → All (IsOther (remove k m)) keys
  others_remove k m [] h = tt
  others_remove k m (j ∷ keys) h =
      (rw (lookup-remove k j m) (ground (arith, h.0)), others_remove k m keys h.1)

  others_cons :
      (k : Text) (e : Mutex (Action V R)) (m : ActionMap V R) (keys : List Text)
      → All (λ j. text_eq k j ≡ false) keys
      → All (IsOther m) keys
      → All (IsOther ((k, e) ∷ m)) keys
  unfolding lookup
  others_cons k e m [] n h = tt
  others_cons k e m (j ∷ keys) n h = (rw n.0 h.0, others_cons k e m keys n.1 h.1)

  head-IsOther :
      (k : Text) (e : Mutex (Action V R)) (m : ActionMap V R)
      → is_one e ≡ 0
      → IsOther ((k, e) ∷ m) k
  unfolding lookup
  head-IsOther k e m h = rw (text_eq_refl k) h

  cancel_entries-callback_count :
      (reason : Text) (m : ActionMap V R) (h : Heap V R)
      → AreUnique m
      → let (m', h', keys) = cancel_entries reason m h in
        (callback_count m' ≡ callback_count m) × All (IsOther m') keys
  unfolding cancel_entries callback_count
  cancel_entries-callback_count reason [] h u = (refl, tt)
  cancel_entries-callback_count reason ((k, x) ∷ m) h u =
      let (x', h', done) = cancel_entry reason x h (lock x) in
      let (m', h'', keys) = cancel_entries reason m h' in
      let (same, no_callback) = cancel_entry_kind reason x h in
      let (ih, others) = cancel_entries-callback_count reason m h' u.1 in
      let rest = others_cons k x' m' keys (cancel_entries_other reason m h' k u.0) others in
      (
        omega (arith, same, ih),
        elim (Bool-cases done) [
          | inl d ↦ rw d (head-IsOther k x' m' (no_callback d), rest)
          | inr d ↦ rw d rest
        ],
      )

  remove_keys-callback_count :
      (keys : List Text) (m : ActionMap V R) (h : Heap V R)
      → AreUnique m
      → All (IsOther m) keys
      → callback_count (remove_keys keys m h).0 ≡ callback_count m
  unfolding remove_keys callback_count
  remove_keys-callback_count [] m h u n = refl
  remove_keys-callback_count (k ∷ keys) m h u n =
      let same : callback_count (remove k m) ≡ callback_count m = elim (Option-cases (lookup k m)) [
        | inl e ↦ rw (remove_vacant k m e) refl
        | inr (x, e) ↦ ground (arith, n.0, e, total-remove is_one k m u e)
      ] in
      remove_keys-callback_count keys (remove k m) (drop_found h (lookup k m))
        (remove-AreUnique k m u) (others_remove k m keys n.1)
      ∙ same

  pub cancel_pending-callback_count :
      (s : Storage V R) (reason : Text)
      → AreUnique s.actions.inner
      → callback_count (cancel_pending s reason).actions.inner ≡ callback_count s.actions.inner
  unfolding cancel_pending
  cancel_pending-callback_count s reason u = elim (lock-cases s.actions) [
    | inl q ↦ rw q refl
    | inr q ↦
        let m : ActionMap V R = s.actions.inner in
        let (m', h', keys) = cancel_entries reason m s.heap in
        let (same, others) = cancel_entries-callback_count reason m s.heap u in
        rw q (
          remove_keys-callback_count keys m' h' (cancel_entries-AreUnique reason m s.heap u) others
          ∙ same)
  ]
