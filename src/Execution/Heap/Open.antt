-- ===== src/Execution/Heap/Open.antt =====
-- Which futures of a heap are open: neither completed nor cancelled. An operation that gives a
-- completer up takes one from what is open, and does not panic if that future was open.
use ac_signalr_client_lib_rs.Base.{
  ℕ, ◌+◌, ◌≡◌, refl, Option, none, some, get_elem?, get_elem?-set, get_elem?-append, get_elem?-end,
  Option-cases, inl, inr, Res, ◌==◌, if◌then◌else◌, arith,
}
use ac_signalr_client_lib_rs.Completer.Future.{
  State, incomplete, waiting, complete, complete_with, poll,
}
use ac_signalr_client_lib_rs.Completer.Stream.{StreamState, close}
use ac_signalr_client_lib_rs.Protocol.Invoke.{Invocation}
use ac_signalr_client_lib_rs.Execution.Heap.{
  Heap, poll_future, poll_stream, new_future, settle, push_item, close_stream, call,
}

abbrev pub is_open {ℓ} : {A : Type ℓ} → Option (State A) → ℕ
is_open none = 0
is_open (some incomplete) = 1
is_open (some (waiting w)) = 1
is_open (some (complete v)) = 0

-- One at the number itself, nothing elsewhere.
abbrev pub unit_at : ℕ → ℕ → ℕ
unit_at i j = if i == j then 1 else 0

module _ {ℓ} {V R : Type ℓ} where
  -- One if future `j` is open, else nothing.
  abbrev pub open_at : Heap V R → ℕ → ℕ
  open_at h j = is_open (get_elem? h.futures j)

  -- From `h` to `h'` the completers `given` were given up and the completers `made` were made: what is
  -- open changes by these, and nothing panicked.
  pub record Transfers (h h' : Heap V R) (given made : ℕ → ℕ) : Type ℓ where
    pub balance : (j : ℕ) → open_at h' j + given j ≡ open_at h j + made j
    pub quiet : h'.crashed ≡ h.crashed

  pub settle-Transfers :
      (h : Heap V R) (i : ℕ) (r : Res R)
      → open_at h i ≡ 1
      → Transfers h (settle h i r) (unit_at i) (λ j. 0)
  unfolding settle complete_with
  settle-Transfers h i r o = elim (Option-cases (get_elem? h.futures i)) [
    | inl e ↦ absurd (ground arith)
    | inr (s, e) ↦ record {
      balance = λ j. ground (arith, get_elem?-set h.futures i j (complete (some r)) e);
      quiet = ground arith;
    }
  ]

  pub new_future-Transfers :
      (h : Heap V R) → Transfers h (new_future h).0 (λ j. 0) (unit_at (new_future h).1)
  unfolding new_future
  new_future-Transfers h = record {
    balance = λ j. ground (arith, get_elem?-append h.futures j incomplete, get_elem?-end h.futures);
    quiet = refl;
  }

  -- Operations on streams and callbacks leave the futures alone.
  pub push_item-Transfers :
      (h : Heap V R) (i : ℕ) (item : R) → Transfers h (push_item h i item) (λ j. 0) (λ j. 0)
  unfolding push_item
  push_item-Transfers h i item = record { balance = λ j. ground arith; quiet = ground arith }

  pub close_stream-Transfers :
      (h : Heap V R) (i : ℕ) → Transfers h (close_stream h i) (λ j. 0) (λ j. 0)
  unfolding close_stream
  close_stream-Transfers h i = record { balance = λ j. ground arith; quiet = ground arith }

  pub call-Transfers :
      (h : Heap V R) (callback : ℕ) (i : Invocation V)
      → Transfers h (call h callback i) (λ j. 0) (λ j. 0)
  unfolding call
  call-Transfers h callback i = record { balance = λ j. refl; quiet = refl }

  -- Polls neither open nor close a future.
  pub poll_future-Transfers :
      (h : Heap V R) (i w : ℕ) → Transfers h (poll_future h i w).0 (λ j. 0) (λ j. 0)
  unfolding poll_future poll
  poll_future-Transfers h i w = elim (Option-cases (get_elem? h.futures i)) [
    | inl e ↦ rw e (record { balance = λ j. refl; quiet = refl })
    | inr (s, e) ↦ record {
      balance = λ j. ground (arith, e, get_elem?-set h.futures i j (poll s w).0 e);
      quiet = ground arith;
    }
  ]

  pub poll_stream-Transfers :
      (h : Heap V R) (i w : ℕ) → Transfers h (poll_stream h i w).0 (λ j. 0) (λ j. 0)
  unfolding poll_stream
  poll_stream-Transfers h i w = record { balance = λ j. ground arith; quiet = ground arith }

  -- A stream that is closed.
  pub get_elem?-close_stream :
      (h : Heap V R) (i : ℕ) (st : StreamState R)
      → get_elem? h.streams i ≡ some st
      → get_elem? (close_stream h i).streams i ≡ some (close st).0
  unfolding close_stream
  get_elem?-close_stream h i st e = ground (arith, e, get_elem?-set h.streams i i (close st).0 e)
