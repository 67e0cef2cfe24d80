-- ===== src/Execution/Actions/Owning.antt =====
-- The future that an action owes a result, and that every method of an action gives it up exactly
-- where it completes it.
use ac_signalr_client_lib_rs.Base.{
  ℕ, ◌+◌, ◌≤◌, ◌≡◌, refl, Option, none, some, Text, lit, subst, Res, err, Res-cases, inl, inr,
  arith,
}
use ac_signalr_client_lib_rs.Client.Configuration.{Protocol}
use ac_signalr_client_lib_rs.Protocol.Negotiate as Negotiate
use ac_signalr_client_lib_rs.Protocol.Negotiate.{MessageType}
use ac_signalr_client_lib_rs.Protocol.Messages.{deserialize}
use ac_signalr_client_lib_rs.Protocol.Invoke.{into_result}
use ac_signalr_client_lib_rs.Execution.Heap.{Heap}
use ac_signalr_client_lib_rs.Execution.Heap.Open.{
  open_at, unit_at, Transfers, settle-Transfers, push_item-Transfers, close_stream-Transfers,
  call-Transfers,
}
use ac_signalr_client_lib_rs.Execution.Actions.{
  Action, InvocationAction, callback_action, invocation_action, enumerable_action, Lossy,
  update_with, complete_invocation, cancel, drop_action,
}

abbrev pub owed_to : Option ℕ → ℕ → ℕ
owed_to none j = 0
owed_to (some i) j = unit_at i j

-- One if the action owes a result to future `j`, else nothing.
abbrev pub owes {ℓ} : {V R : Type ℓ} → Action V R → ℕ → ℕ
owes (callback_action a) j = 0
owes (invocation_action a) j = owed_to a.completer j
owes (enumerable_action a) j = 0

module _ {ℓ} {V R : Type ℓ} where
  -- What an action owes is open.
  abbrev pub IsOwed : Action V R → Heap V R → Type 0
  IsOwed a h = (j : ℕ) → owes a j ≤ open_at h j

  Transfers-same : (h : Heap V R) (f : ℕ → ℕ) → Transfers h h f f
  Transfers-same h f = record { balance = λ j. refl; quiet = refl }

  owed_one : (h : Heap V R) (i : ℕ) → ((j : ℕ) → unit_at i j ≤ open_at h j) → open_at h i ≡ 1
  owed_one h i o = ground (arith, o i)

  complete_invocation-Transfers :
      (a : InvocationAction R) (h : Heap V R) (r : Res R)
      → IsOwed (invocation_action a) h
      → let (a', h') = complete_invocation a h r in
        Transfers h h' (owed_to a.completer) (owed_to a'.completer)
  unfolding complete_invocation
  complete_invocation-Transfers a h r o = by_completer a.completer refl
    where
      by_completer :
          (c : Option ℕ)
          → a.completer ≡ c
          → let (a', h') = complete_invocation a h r in
            Transfers h h' (owed_to a.completer) (owed_to a'.completer)
      by_completer none e = rw e (Transfers-same h (λ j. 0))
      by_completer (some i) e = rw e (
          settle-Transfers h i r
            (owed_one h i (λ j. subst (λ c. owed_to c j ≤ open_at h j) e (o j))))

  complete_invocation_taken :
      (a : InvocationAction R) (h : Heap V R) (r : Res R)
      → (complete_invocation a h r).0.completer ≡ none
  unfolding complete_invocation
  complete_invocation_taken a h r = ground arith

  update_invocation-Transfers :
      (lossy : Lossy) (a : InvocationAction R) (h : Heap V R) (message : Text) (t : MessageType)
      (p : Protocol)
      → IsOwed (invocation_action a) h
      → let (a', h', r) = update_with lossy (invocation_action a) h message t p in
        Transfers h h' (owed_to a.completer) (owes a')
  unfolding update_with
  update_invocation-Transfers lossy a h message Negotiate.completion p o =
      elim (Res-cases (deserialize a.completions message p)) [
        | inl (c, e) ↦ rw e (complete_invocation-Transfers a h (into_result c) o)
        | inr (m, e) ↦ rw e (Transfers-same h (owed_to a.completer))
      ]
  update_invocation-Transfers lossy a h message _ p o = Transfers-same h (owed_to a.completer)

  pub update_with-Transfers :
      (lossy : Lossy) (a : Action V R) (h : Heap V R) (message : Text) (t : MessageType)
      (p : Protocol)
      → IsOwed a h
      → let (a', h', r) = update_with lossy a h message t p in Transfers h h' (owes a) (owes a')
  unfolding update_with
  update_with-Transfers lossy (callback_action a) h message Negotiate.invocation p o =
      elim (Res-cases (deserialize a.invocations message p)) [
        | inl (c, e) ↦ rw e (call-Transfers h a.callback c)
        | inr (m, e) ↦ rw e (Transfers-same h (λ j. 0))
      ]
  update_with-Transfers lossy (callback_action a) h message _ p o = Transfers-same h (λ j. 0)
  update_with-Transfers lossy (invocation_action a) h message t p o =
      update_invocation-Transfers lossy a h message t p o
  update_with-Transfers lossy (enumerable_action a) h message Negotiate.stream_item p o =
      elim (Res-cases (deserialize a.items message p)) [
        | inl (c, e) ↦ rw e (push_item-Transfers h a.completer c.item)
        | inr (m, e) ↦ rw e (Transfers-same h (λ j. 0))
      ]
  update_with-Transfers lossy (enumerable_action a) h message Negotiate.completion p o =
      elim (Res-cases (deserialize a.completions message p)) [
        | inl (c, e) ↦ rw e (close_stream-Transfers h a.completer)
        | inr (m, e) ↦ rw e (Transfers-same h (λ j. 0))
      ]
  update_with-Transfers lossy (enumerable_action a) h message _ p o = Transfers-same h (λ j. 0)

  pub cancel-Transfers :
      (a : Action V R) (h : Heap V R) (reason : Text)
      → IsOwed a h
      → let (a', h') = cancel a h reason in Transfers h h' (owes a) (owes a')
  unfolding cancel
  cancel-Transfers (callback_action a) h reason o = Transfers-same h (λ j. 0)
  cancel-Transfers (invocation_action a) h reason o =
      complete_invocation-Transfers a h (err reason) o
  cancel-Transfers (enumerable_action a) h reason o = close_stream-Transfers h a.completer

  pub drop_action-Transfers :
      (a : Action V R) (h : Heap V R) → IsOwed a h → Transfers h (drop_action a h) (owes a) (λ j. 0)
  unfolding drop_action
  drop_action-Transfers (callback_action a) h o = Transfers-same h (λ j. 0)
  drop_action-Transfers (invocation_action a) h o =
      let r : Res R = err (lit "Invocation was cancelled") in
      let t = complete_invocation-Transfers a h r o in
      record {
        balance = λ j.
            subst
              (λ c.
                open_at (complete_invocation a h r).1 j + owed_to a.completer j
                ≡ open_at h j + owed_to c j)
              (complete_invocation_taken a h r) (t.balance j);
        quiet = t.quiet;
      }
  drop_action-Transfers (enumerable_action a) h o = close_stream-Transfers h a.completer
