-- ===== src/Execution/Storage/Ended.antt =====
-- `cancel_pending` ends the streams that callers read.
use ac_signalr_client_lib_rs.Base.{
  ℕ, ◌≡◌, refl, sym, ◌∙◌, ap, subst, false, Option, none, some, inl, inr, List, [], ◌∷◌, ◌++◌,
  append_assoc, append-nil, All, Text, text_eq, Res, err, Mutex, unlocked, lock, lock-cases,
  get_elem?, get_elem?-set, lookup, remove, Option-cases, Bool-cases, ◌==◌, arith,
}
use ac_signalr_client_lib_rs.Completer.Future.{complete_with}
use ac_signalr_client_lib_rs.Completer.Stream.{StreamState, close}
use ac_signalr_client_lib_rs.Execution.Heap.{Heap, settle, close_stream}
use ac_signalr_client_lib_rs.Execution.Heap.Open.{get_elem?-close_stream}
use ac_signalr_client_lib_rs.Execution.Actions.{
  Action, EnumerableAction, callback_action, invocation_action, enumerable_action, cancel,
  complete_invocation, drop_action,
}
use ac_signalr_client_lib_rs.Execution.Storage.{
  Storage, ActionMap, cancel_entry, cancel_entries, drop_found, remove_keys, cancel_pending,
}

abbrev pub AreEnds {ℓ} : {A : Type ℓ} → List (Option A) → Type ℓ
AreEnds l = All (λ x. x ≡ none) l

AreEnds-append {ℓ} : {A : Type ℓ} (l m : List (Option A)) → AreEnds l → AreEnds m → AreEnds (l ++ m)
AreEnds-append [] m a b = b
AreEnds-append (x ∷ l) m a b = (a.0, AreEnds-append l m a.1 b)

-- One end mark behind others might as well stand before them.
end_first {ℓ} :
    {A : Type ℓ} (l m : List (Option A))
    → AreEnds l
    → AreEnds m
    → (n : List (Option A)) × (l ++ none ∷ m ≡ none ∷ n) × AreEnds n
end_first [] m a b = (m, refl, b)
end_first (x ∷ l) m a b =
    (l ++ none ∷ m, ap (λ y. y ∷ l ++ none ∷ m) a.0, AreEnds-append l (none ∷ m) a.1 (refl, b))

module _ {ℓ} {V R : Type ℓ} where
  -- From `h` to `h'` stream `j` got the entries, and then end marks alone.
  abbrev Gets : List (Option R) → Heap V R → Heap V R → ℕ → Type ℓ
  Gets l h h' j =
      (st : StreamState R)
      → get_elem? h.streams j ≡ some st
      → (st' : StreamState R) × (rest : List (Option R)) × (get_elem? h'.streams j ≡ some st')
        × (st'.queue ≡ st.queue ++ (l ++ rest))
        × AreEnds rest

  Gets-same : (h h' : Heap V R) (j : ℕ) → h'.streams ≡ h.streams → Gets [] h h' j
  Gets-same h h' j e st f = (st, [], ap (λ s. get_elem? s j) e ∙ f, sym (append-nil st.queue), tt)

  Gets-append :
      (l : List (Option R)) (h h' h'' : Heap V R) (j : ℕ)
      → Gets l h h' j
      → Gets [] h' h'' j
      → Gets l h h'' j
  Gets-append l h h' h'' j p q st e =
      let (st', rest, e', f, a) = p st e in
      let (st'', rest', e'', g, b) = q st' e' in
      (
        st'',
        rest ++ rest',
        e'',
        g
            ∙ ap (λ x. x ++ rest') f
            ∙ append_assoc st.queue (l ++ rest) rest'
            ∙ ap (λ x. st.queue ++ x) (append_assoc l rest rest'),
        AreEnds-append rest rest' a b,
      )

  Gets-behind :
      (h h' h'' : Heap V R) (j : ℕ)
      → Gets [] h h' j
      → Gets (none ∷ []) h' h'' j
      → Gets (none ∷ []) h h'' j
  Gets-behind h h' h'' j p q st e =
      let (st', rest, e', f, a) = p st e in
      let (st'', rest', e'', g, b) = q st' e' in
      let (n, same, c) = end_first rest rest' a b in
      (
        st'',
        n,
        e'',
        g
            ∙ ap (λ x. x ++ none ∷ rest') f
            ∙ append_assoc st.queue rest (none ∷ rest')
            ∙ ap (λ x. st.queue ++ x) same,
        c,
      )

  settle-streams : (h : Heap V R) (i : ℕ) (r : Res R) → (settle h i r).streams ≡ h.streams
  unfolding settle complete_with
  settle-streams h i r = ground arith

  close_stream-Gets_self : (h : Heap V R) (i : ℕ) → Gets (none ∷ []) h (close_stream h i) i
  unfolding close
  close_stream-Gets_self h i st e = ((close st).0, [], get_elem?-close_stream h i st e, refl, tt)

  close_stream_other :
      (h : Heap V R) (i j : ℕ)
      → (i == j) ≡ false
      → get_elem? (close_stream h i).streams j ≡ get_elem? h.streams j
  unfolding close_stream
  close_stream_other h i j n = elim (Option-cases (get_elem? h.streams i)) [
    | inl f ↦ rw f refl
    | inr (s, f) ↦ ground (arith, f, n, get_elem?-set h.streams i j (close s).0 f)
  ]

  close_stream-Gets : (h : Heap V R) (i j : ℕ) → Gets [] h (close_stream h i) j
  unfolding close
  close_stream-Gets h i j st e = elim (Bool-cases (i == j)) [
    | inl same ↦
        let k : i ≡ j = ground (arith, same) in
        let at_i : get_elem? h.streams i ≡ some st =
          subst (λ n. get_elem? h.streams n ≡ some st) (sym k) e in
        (
          (close st).0,
          none ∷ [],
          subst (λ n. get_elem? (close_stream h i).streams n ≡ some (close st).0) k
              (get_elem?-close_stream h i st at_i),
          refl,
          (refl, tt),
        )
    | inr other ↦ (st, [], close_stream_other h i j other ∙ e, sym (append-nil st.queue), tt)
  ]

  cancel-Gets :
      (reason : Text) (a : Action V R) (h : Heap V R) (j : ℕ) → Gets [] h (cancel a h reason).1 j
  unfolding cancel complete_invocation
  cancel-Gets reason (callback_action a) h j = Gets-same h h j refl
  cancel-Gets reason (invocation_action a) h j = elim (Option-cases a.completer) [
    | inl e ↦ rw e (Gets-same h h j refl)
    | inr (i, e) ↦ rw e (Gets-same h (settle h i (err reason)) j (settle-streams h i (err reason)))
  ]
  cancel-Gets reason (enumerable_action a) h j = close_stream-Gets h a.completer j

  drop_action-Gets : (a : Action V R) (h : Heap V R) (j : ℕ) → Gets [] h (drop_action a h) j
  unfolding drop_action complete_invocation
  drop_action-Gets (callback_action a) h j = Gets-same h h j refl
  drop_action-Gets (invocation_action a) h j = elim (Option-cases a.completer) [
    | inl e ↦ rw e (Gets-same h h j refl)
    | inr (i, e) ↦ rw e (Gets-same h (settle h i _) j (settle-streams h i _))
  ]
  drop_action-Gets (enumerable_action a) h j = close_stream-Gets h a.completer j

  cancel_entry-Gets :
      (reason : Text) (e : Mutex (Action V R)) (h : Heap V R) (j : ℕ)
      → Gets [] h (cancel_entry reason e h (lock e)).1 j
  cancel_entry-Gets reason e h j = elim (lock-cases e) [
    | inl q ↦ rw q (Gets-same h h j refl)
    | inr q ↦ rw q (cancel-Gets reason e.inner h j)
  ]

  cancel_entries-Gets :
      (reason : Text) (m : ActionMap V R) (h : Heap V R) (j : ℕ)
      → Gets [] h (cancel_entries reason m h).1 j
  unfolding cancel_entries
  cancel_entries-Gets reason [] h j = Gets-same h h j refl
  cancel_entries-Gets reason ((k, x) ∷ m) h j =
      let h' : Heap V R = (cancel_entry reason x h (lock x)).1 in
      Gets-append [] h h' (cancel_entries reason m h').1 j (cancel_entry-Gets reason x h j)
        (cancel_entries-Gets reason m h' j)

  remove_keys-Gets :
      (keys : List Text) (m : ActionMap V R) (h : Heap V R) (j : ℕ)
      → Gets [] h (remove_keys keys m h).1 j
  unfolding remove_keys
  remove_keys-Gets [] m h j = Gets-same h h j refl
  remove_keys-Gets (k ∷ keys) m h j =
      let h' : Heap V R = drop_found h (lookup k m) in
      let first : Gets [] h h' j = elim (Option-cases (lookup k m)) [
        | inl e ↦ rw e (Gets-same h h j refl)
        | inr (x, e) ↦ rw e (drop_action-Gets x.inner h j)
      ] in
      Gets-append [] h h' (remove_keys keys (remove k m) h').1 j first
        (remove_keys-Gets keys (remove k m) h' j)

  head_ends :
      (reason : Text) (x : Mutex (Action V R)) (a : EnumerableAction R) (h : Heap V R)
      → x ≡ unlocked (enumerable_action a)
      → Gets (none ∷ []) h (cancel_entry reason x h (lock x)).1 a.completer
  unfolding cancel
  head_ends reason x a h same = rw same (close_stream-Gets_self h a.completer)

  -- The entry of the stream is among those that are cancelled.
  cancel_entries-ends :
      (reason : Text) (m : ActionMap V R) (h : Heap V R) (key : Text) (a : EnumerableAction R)
      → lookup key m ≡ some (unlocked (enumerable_action a))
      → Gets (none ∷ []) h (cancel_entries reason m h).1 a.completer
  unfolding cancel_entries lookup
  cancel_entries-ends reason [] h key a f = cc
  cancel_entries-ends reason ((k, x) ∷ m) h key a f =
      let j : ℕ = a.completer in
      let h' : Heap V R = (cancel_entry reason x h (lock x)).1 in
      elim (Bool-cases (text_eq k key)) [
        | inl t ↦
            let same : x ≡ unlocked (enumerable_action a) = ground (arith, f, t) in
            Gets-append (none ∷ []) h h' (cancel_entries reason m h').1 j
              (head_ends reason x a h same) (cancel_entries-Gets reason m h' j)
        | inr t ↦
            Gets-behind h h' (cancel_entries reason m h').1 j (cancel_entry-Gets reason x h j)
              (cancel_entries-ends reason m h' key a (ground (arith, f, t)))
      ]

  -- `cancel_pending`, where the map of actions is sound: the stream that an action of the storage
  -- feeds, under whatever key, keeps the items that wait in it, and behind them it has the mark of the
  -- end; nothing but further end marks comes after that.
  pub cancel_pending_ends :
      (s : Storage V R) (reason key : Text) (a : EnumerableAction R) (st : StreamState R)
      → s.actions.poisoned ≡ false
      → lookup key s.actions.inner ≡ some (unlocked (enumerable_action a))
      → get_elem? s.heap.streams a.completer ≡ some st
      → (st' : StreamState R) × (rest : List (Option R)) × (get_elem?
            (cancel_pending s reason).heap.streams
            a.completer
          ≡ some st')
        × (st'.queue ≡ st.queue ++ none ∷ rest)
        × AreEnds rest
  unfolding cancel_pending
  cancel_pending_ends s reason key a st q f there =
      let m : ActionMap V R = s.actions.inner in
      let (m', h', keys) = cancel_entries reason m s.heap in
      rw q (
        Gets-append (none ∷ []) s.heap h' (remove_keys keys m' h').1 a.completer
          (cancel_entries-ends reason m s.heap key a f) (remove_keys-Gets keys m' h' a.completer) st
          there)
