-- ===== src/Execution/Storage/Cancelling.antt =====
-- `cancel_pending` and `dispose` give up what the actions owe.
use ac_signalr_client_lib_rs.Base.{
  ℕ, ◌+◌, ◌≤◌, ◌≡◌, refl, ◌∙◌, none, inl, inr, List, [], ◌∷◌, Text, text_eq, Mutex, lock,
  lock-cases, lookup, remove, AreUnique, remove-AreUnique, remove_vacant, Option-cases, Bool-cases,
  ◌==◌, arith,
}
use ac_signalr_client_lib_rs.Execution.Heap.{Heap}
use ac_signalr_client_lib_rs.Execution.Heap.Open.{open_at, Transfers}
use ac_signalr_client_lib_rs.Execution.Actions.{Action, drop_action}
use ac_signalr_client_lib_rs.Execution.Actions.Owning.{owes, cancel-Transfers}
use ac_signalr_client_lib_rs.Execution.Storage.{
  Storage, ActionMap, cancel_entry, cancel_entries, drop_found, remove_keys, cancel_pending,
  drop_all, dispose,
}
use ac_signalr_client_lib_rs.Execution.Storage.Ownership.{
  entry_owes, IsBalanced, IsOwned, drop_outside, remove_found,
}

module _ {ℓ} {V R : Type ℓ} where
  -- The loop keeps the keys.
  pub cancel_entries_keys :
      (reason : Text) (m : ActionMap V R) (h : Heap V R) (key : Text)
      → lookup key m ≡ none
      → lookup key (cancel_entries reason m h).0 ≡ none
  unfolding cancel_entries lookup
  cancel_entries_keys reason [] h key e = refl
  cancel_entries_keys reason ((k, x) ∷ m) h key e = elim (Bool-cases (text_eq k key)) [
    | inl t ↦ absurd (ground (arith, e, t))
    | inr t ↦ rw t (
        cancel_entries_keys reason m (cancel_entry reason x h (lock x)).1 key
          (ground (arith, e, t)))
  ]

  pub cancel_entries-AreUnique :
      (reason : Text) (m : ActionMap V R) (h : Heap V R)
      → AreUnique m
      → AreUnique (cancel_entries reason m h).0
  unfolding cancel_entries
  cancel_entries-AreUnique reason [] h u = tt
  cancel_entries-AreUnique reason ((k, x) ∷ m) h u =
      let h' : Heap V R = (cancel_entry reason x h (lock x)).1 in
      (cancel_entries_keys reason m h' k u.0, cancel_entries-AreUnique reason m h' u.1)

  pub cancel_entry-Transfers :
      (reason : Text) (e : Mutex (Action V R)) (h : Heap V R)
      → ((j : ℕ) → entry_owes j e ≤ open_at h j)
      → let (e', h', done) = cancel_entry reason e h (lock e) in
        Transfers h h' (owes e.inner) (owes e'.inner)
  cancel_entry-Transfers reason e h o = elim (lock-cases e) [
    | inl q ↦ rw q (record { balance = λ j. refl; quiet = refl })
    | inr q ↦ rw q (cancel-Transfers e.inner h reason o)
  ]

  pub cancel_entries-IsBalanced :
      (reason : Text) (m : ActionMap V R) (h : Heap V R) (outside : ℕ → ℕ)
      → IsBalanced m h outside
      → let (m', h', keys) = cancel_entries reason m h in IsBalanced m' h' outside
  unfolding cancel_entries
  cancel_entries-IsBalanced reason [] h outside b = b
  cancel_entries-IsBalanced reason ((k, x) ∷ m) h outside b =
      let (x', h', done) = cancel_entry reason x h (lock x) in
      let t = cancel_entry-Transfers reason x h (λ j. omega (arith, b.balance j)) in
      let rest =
        cancel_entries-IsBalanced reason m h' (λ j. owes x'.inner j + outside j)
          (record {
            balance = λ j. omega (arith, t.balance j, b.balance j);
            quiet = t.quiet ∙ b.quiet;
          }) in
      record { balance = λ j. omega (arith, rest.balance j); quiet = rest.quiet }

  pub removed :
      (k : Text) (m : ActionMap V R) (h : Heap V R)
      → AreUnique m
      → IsBalanced m h (λ j. 0)
      → IsBalanced (remove k m) (drop_found h (lookup k m)) (λ j. 0)
  removed k m h u b = elim (Option-cases (lookup k m)) [
    | inl e ↦ rw (e, remove_vacant k m e) b
    | inr (x, e) ↦ rw e (remove_found m h k u e b)
  ]

  pub remove_keys-IsBalanced :
      (keys : List Text) (m : ActionMap V R) (h : Heap V R)
      → AreUnique m
      → IsBalanced m h (λ j. 0)
      → let (m', h') = remove_keys keys m h in AreUnique m' × IsBalanced m' h' (λ j. 0)
  unfolding remove_keys
  remove_keys-IsBalanced [] m h u b = (u, b)
  remove_keys-IsBalanced (k ∷ keys) m h u b =
      remove_keys-IsBalanced keys (remove k m) (drop_found h (lookup k m)) (remove-AreUnique k m u)
        (removed k m h u b)

  pub cancel_pending-IsOwned :
      (s : Storage V R) (reason : Text) → IsOwned s → IsOwned (cancel_pending s reason)
  unfolding cancel_pending
  cancel_pending-IsOwned s reason w = elim (lock-cases s.actions) [
    | inl q ↦ rw q w
    | inr q ↦
        let (m', h', keys) = cancel_entries reason s.actions.inner s.heap in
        let (u, b) =
          remove_keys-IsBalanced keys m' h'
            (cancel_entries-AreUnique reason s.actions.inner s.heap w.unique)
            (cancel_entries-IsBalanced reason s.actions.inner s.heap (λ j. 0) w.balanced) in
        rw q (record { unique = u; balanced = b })
  ]

  drop_all-IsBalanced :
      (m : ActionMap V R) (h : Heap V R)
      → IsBalanced m h (λ j. 0)
      → IsBalanced [] (drop_all m h) (λ j. 0)
  unfolding drop_all
  drop_all-IsBalanced [] h b = b
  drop_all-IsBalanced ((k, x) ∷ m) h b = drop_all-IsBalanced m (drop_action x.inner h) (
      drop_outside m h x.inner
        (record { balance = λ j. omega (arith, b.balance j); quiet = b.quiet }))

  pub dispose-IsOwned :
      (s : Storage V R) (strong_count : ℕ) → IsOwned s → IsOwned (dispose s strong_count)
  unfolding dispose
  dispose-IsOwned s strong_count w = elim (Bool-cases (strong_count == 1)) [
    | inr e ↦ rw e w
    | inl e ↦ elim (lock-cases s.actions) [
      | inl q ↦ rw (e, q) w
      | inr q ↦
          rw (e, q)
            (record {
              unique = tt;
              balanced = drop_all-IsBalanced s.actions.inner s.heap w.balanced;
            })
    ]
  ]
