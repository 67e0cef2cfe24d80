-- ===== src/Execution/Storage/Answers.antt =====
-- With what `cancel_pending` answers the callers that wait.
use ac_signalr_client_lib_rs.Base.{
  ℕ, ◌+◌, ◌≤◌, ◌≡◌, ◌⊎◌, inl, inr, refl, sym, ◌∙◌, ap, subst, false, Option, none, some,
  Option-cases, List, [], ◌∷◌, Text, err, Mutex, lock, lock-cases, get_elem?, get_elem?-set, lookup,
  remove, AreUnique, remove-AreUnique, total, lookup-le-total, arith,
}
use ac_signalr_client_lib_rs.Completer.Future.{complete, complete_with}
use ac_signalr_client_lib_rs.Execution.Heap.{Heap, settle, close_stream}
use ac_signalr_client_lib_rs.Execution.Heap.Open.{is_open, open_at, unit_at}
use ac_signalr_client_lib_rs.Execution.Actions.{
  Action, callback_action, invocation_action, enumerable_action, cancel, complete_invocation,
  drop_action,
}
use ac_signalr_client_lib_rs.Execution.Actions.Owning.{owes, owed_to, IsOwed}
use ac_signalr_client_lib_rs.Execution.Storage.{
  Storage, ActionMap, cancel_entry, cancel_entries, drop_found, remove_keys, cancel_pending,
}
use ac_signalr_client_lib_rs.Execution.Storage.Ownership.{entry_owes, IsBalanced, IsOwned}
use ac_signalr_client_lib_rs.Execution.Storage.Cancelling.{
  cancel_entry-Transfers, cancel_entries-AreUnique, cancel_entries-IsBalanced, removed,
}
use ac_signalr_client_lib_rs.Execution.Storage.Cancelled.{
  AreSound, callbacks_of, cancel_pending-callbacks_of,
}

module _ {ℓ} {V R : Type ℓ} where
  -- From `h` to `h'` future `j` stayed as it was, or it was open and got the error.
  abbrev Answers : Text → Heap V R → Heap V R → ℕ → Type ℓ
  Answers reason h h' j =
      (get_elem? h'.futures j ≡ get_elem? h.futures j)
      ⊎ ((open_at h j ≡ 1) × (get_elem? h'.futures j ≡ some (complete (some (err reason)))))

  settle-Answers :
      (reason : Text) (h : Heap V R) (i j : ℕ)
      → open_at h i ≡ 1
      → Answers reason h (settle h i (err reason)) j
  unfolding settle complete_with
  settle-Answers reason h i j o = elim (Option-cases (get_elem? h.futures i)) [
    | inl e ↦ absurd (ground arith)
    | inr (s, e) ↦ ground (arith, e, get_elem?-set h.futures i j (complete (some (err reason))) e)
  ]

  cancel-Answers :
      (reason : Text) (a : Action V R) (h : Heap V R) (j : ℕ)
      → IsOwed a h
      → Answers reason h (cancel a h reason).1 j
  unfolding cancel complete_invocation close_stream
  cancel-Answers reason (callback_action a) h j o = inl refl
  cancel-Answers reason (invocation_action a) h j o = by_completer a.completer refl
    where
      by_completer :
          (c : Option ℕ)
          → a.completer ≡ c
          → Answers reason h (cancel (invocation_action a) h reason).1 j
      by_completer none e = rw e (inl refl)
      by_completer (some i) e =
          let owed : unit_at i i ≤ open_at h i = subst (λ c. owed_to c i ≤ open_at h i) e (o i) in
          rw e (settle-Answers reason h i j (ground arith))
  cancel-Answers reason (enumerable_action a) h j o = inl (ground arith)

  chain :
      (reason : Text) (h h' h'' : Heap V R) (j : ℕ)
      → Answers reason h h' j
      → Answers reason h' h'' j
      → Answers reason h h'' j
  chain reason h h' h'' j p q = ground (arith, p, q)

  cancel_entries-Answers :
      (reason : Text) (m : ActionMap V R) (h : Heap V R) (outside : ℕ → ℕ) (j : ℕ)
      → IsBalanced m h outside
      → Answers reason h (cancel_entries reason m h).1 j
  unfolding cancel_entries
  cancel_entries-Answers reason [] h outside j b = inl refl
  cancel_entries-Answers reason ((k, x) ∷ m) h outside j b =
      let (x', h', done) = cancel_entry reason x h (lock x) in
      let o : IsOwed x.inner h = λ i. omega (arith, b.balance i) in
      let t = cancel_entry-Transfers reason x h o in
      let first : Answers reason h h' j = elim (lock-cases x) [
        | inl q ↦ rw q (inl refl)
        | inr q ↦ rw q (cancel-Answers reason x.inner h j o)
      ] in
      chain reason h h' (cancel_entries reason m h').1 j first (
        cancel_entries-Answers reason m h' (λ i. owes x'.inner i + outside i) j
          (record {
            balance = λ i. omega (arith, t.balance i, b.balance i);
            quiet = t.quiet ∙ b.quiet;
          }))

  -- Where no future is open, dropping an action changes none.
  drop_action_closed :
      (a : Action V R) (h : Heap V R)
      → ((j : ℕ) → open_at h j ≡ 0)
      → IsOwed a h
      → (drop_action a h).futures ≡ h.futures
  unfolding drop_action complete_invocation close_stream
  drop_action_closed (callback_action a) h z o = refl
  drop_action_closed (invocation_action a) h z o = by_completer a.completer refl
    where
      by_completer :
          (c : Option ℕ)
          → a.completer ≡ c
          → (drop_action (invocation_action a) h).futures ≡ h.futures
      by_completer none e = rw e refl
      by_completer (some i) e =
          let owed : unit_at i i ≤ open_at h i = subst (λ c. owed_to c i ≤ open_at h i) e (o i) in
          absurd (ground (arith, z i, owed))
  drop_action_closed (enumerable_action a) h z o = ground arith

  remove_keys_closed :
      (keys : List Text) (m : ActionMap V R) (h : Heap V R)
      → AreUnique m
      → IsBalanced m h (λ j. 0)
      → ((j : ℕ) → open_at h j ≡ 0)
      → (remove_keys keys m h).1.futures ≡ h.futures
  unfolding remove_keys
  remove_keys_closed [] m h u b z = refl
  remove_keys_closed (k ∷ keys) m h u b z =
      let h' : Heap V R = drop_found h (lookup k m) in
      let same : h'.futures ≡ h.futures = elim (Option-cases (lookup k m)) [
        | inl e ↦ rw e refl
        | inr (x, e) ↦ rw e (
            drop_action_closed x.inner h z
              (λ j. omega (arith, b.balance j, lookup-le-total (entry_owes j) k m e)))
      ] in
      remove_keys_closed keys (remove k m) h' (remove-AreUnique k m u) (removed k m h u b)
        (λ j. ap (λ f. is_open (get_elem? f j)) same ∙ z j)
      ∙ same

  cancelled_owes :
      (reason : Text) (e : Mutex (Action V R)) (h : Heap V R) (j : ℕ)
      → e.poisoned ≡ false
      → entry_owes j (cancel_entry reason e h (lock e)).0 ≡ 0
  unfolding cancel complete_invocation
  cancelled_owes reason e h j q = ground arith

  cancel_entries_owe :
      (reason : Text) (m : ActionMap V R) (h : Heap V R) (j : ℕ)
      → AreSound m
      → total (entry_owes j) (cancel_entries reason m h).0 ≡ 0
  unfolding cancel_entries
  cancel_entries_owe reason [] h j s = refl
  cancel_entries_owe reason ((k, x) ∷ m) h j s = omega (
    arith,
    cancelled_owes reason x h j s.0,
    cancel_entries_owe reason m (cancel_entry reason x h (lock x)).1 j s.1,
  )

  -- `cancel_pending` on a storage that owes exactly the open futures, with sound mutexes: the actions
  -- that are left are exactly its callbacks, no future is open any more, every future that was open
  -- holds the reason as its error, and every other future is as before.
  pub cancel_pending_lem :
      (s : Storage V R) (reason : Text)
      → IsOwned s
      → s.actions.poisoned ≡ false
      → AreSound s.actions.inner
      → let t = cancel_pending s reason in
        (t.actions.inner ≡ callbacks_of s.actions.inner)
        × ((j : ℕ) → open_at t.heap j ≡ 0)
        × ((j : ℕ)
            → (get_elem? t.heap.futures j ≡ get_elem? s.heap.futures j)
              ⊎ ((open_at s.heap j ≡ 1)
                  × (get_elem? t.heap.futures j ≡ some (complete (some (err reason))))))
  unfolding cancel_pending
  cancel_pending_lem s reason w q a =
      let m : ActionMap V R = s.actions.inner in
      let (m', h', keys) = cancel_entries reason m s.heap in
      let (left, closed) = cancel_pending-callbacks_of s reason w q a in
      let b = cancel_entries-IsBalanced reason m s.heap (λ j. 0) w.balanced in
      let same : (remove_keys keys m' h').1.futures ≡ h'.futures =
        remove_keys_closed keys m' h' (cancel_entries-AreUnique reason m s.heap w.unique) b
          (λ j. omega (arith, b.balance j, cancel_entries_owe reason m s.heap j a)) in
      (
        left,
        closed,
        λ j. rw q (
            subst
              (λ f.
                (get_elem? f j ≡ get_elem? s.heap.futures j)
                ⊎ ((open_at s.heap j ≡ 1) × (get_elem? f j ≡ some (complete (some (err reason))))))
              (sym same) (cancel_entries-Answers reason m s.heap (λ j. 0) j w.balanced)),
      )
