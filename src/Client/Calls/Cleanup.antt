-- ===== src/Client/Calls/Cleanup.antt =====
-- What an invocation leaves behind in the storage.
use ac_signalr_client_lib_rs.Base.{
  ℕ, ◌≡◌, refl, false, some, inl, inr, Text, Res, ok, err, Option-cases, lookup, remove,
  remove-insert, remove_vacant, length, unlocked, arith,
}
use ac_signalr_client_lib_rs.Client.Calls.{send_built, awaited}
use ac_signalr_client_lib_rs.Protocol.Invoke.{Invocation, Completion, Built, built, panicked}
use ac_signalr_client_lib_rs.Protocol.Messages.{Serde}
use ac_signalr_client_lib_rs.Execution.Actions.{invocation_action}
use ac_signalr_client_lib_rs.Execution.Storage.{Storage, insert_action, remove_action}
use ac_signalr_client_lib_rs.Execution.Dispatch.{add_invocation}
use ac_signalr_client_lib_rs.Communication.Monitor.{System, send}

module _ {ℓ} {V R : Type ℓ} where
  -- Sending touches no storage.
  pub send_built-storage :
      (s : System V R) (queue : ℕ → Text → Res (Unit {0})) (invocations : Serde (Invocation V))
      (b : Built V)
      → (send_built s queue invocations b).0.storage ≡ s.storage
  unfolding send
  send_built-storage s queue invocations (built i) = ground arith
  send_built-storage s queue invocations panicked = refl

  pub remove_action-actions :
      (s : Storage V R) (key : Text)
      → s.actions.poisoned ≡ false
      → ((remove_action s key).actions.inner ≡ remove key s.actions.inner)
        × ((remove_action s key).actions.poisoned ≡ false)
  unfolding remove_action
  remove_action-actions s key h = elim (Option-cases (lookup key s.actions.inner)) [
    | inl e ↦ ground (arith, remove_vacant key s.actions.inner)
    | inr (x, e) ↦ ground arith
  ]

  pub add_invocation-actions :
      (s : Storage V R) (key : Text) (completions : Serde (Completion R))
      → s.actions.poisoned ≡ false
      → (remove key (add_invocation s key completions).0.actions.inner ≡ remove key s.actions.inner)
        × ((add_invocation s key completions).0.actions.poisoned ≡ false)
  unfolding add_invocation insert_action
  add_invocation-actions s key completions h = elim (Option-cases (lookup key s.actions.inner)) [
    | inl e ↦ ground (
      arith,
      remove-insert key
          (unlocked (
            invocation_action (record {
              invocation_id = key;
              completer = some (length s.heap.futures);
              completions = completions;
            })))
          s.actions.inner,
    )
    | inr (x, e) ↦ ground arith
  ]

  pub awaited_key :
      (key : Text) (i : ℕ) (p : System V R × Res (Unit {0})) → (awaited key i p).1 ≡ key
  awaited_key key i (t, ok u) = refl
  awaited_key key i (t, err e) = refl
