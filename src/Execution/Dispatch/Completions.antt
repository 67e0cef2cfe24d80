-- ===== src/Execution/Dispatch/Completions.antt =====
-- What a completion message does to the invocation that it names.
use ac_signalr_client_lib_rs.Base.{
  ℕ, ◌≡◌, none, some, false, Text, ok, err, lookup, remove, insert-lookup, remove-insert,
  lookup-insert_self, arith,
}
use ac_signalr_client_lib_rs.Client.Configuration.{Protocol}
use ac_signalr_client_lib_rs.Protocol.Negotiate as Negotiate
use ac_signalr_client_lib_rs.Protocol.Invoke.{Completion, PossibleInvocation, into_result}
use ac_signalr_client_lib_rs.Protocol.Messages.{deserialize}
use ac_signalr_client_lib_rs.Execution.Heap.{settle}
use ac_signalr_client_lib_rs.Execution.Actions.{
  InvocationAction, invocation_action, update_with, drop_action,
}
use ac_signalr_client_lib_rs.Execution.Storage.{Storage}
use ac_signalr_client_lib_rs.Execution.Dispatch.{Codec, process_message}

-- A storage whose locks are sound holds the pending invocation `a` under `key`, and the message
-- names that key.
pub record Awaits {ℓ} {V R : Type ℓ} (c : Codec V) (s : Storage V R) (key : Text)
    (a : InvocationAction R) (i : ℕ) (message : Text) (p : Protocol) : Type ℓ where
  pub named : PossibleInvocation
  pub reads : deserialize c.possible_invocations message p ≡ ok named
  pub names : named.invocation_id ≡ some key
  pub sound : s.actions.poisoned ≡ false
  pub found :
      lookup key s.actions.inner ≡ some (record { poisoned = false; inner = invocation_action a })
  pub is_open : a.completer ≡ some i

module _ {ℓ} {V R : Type ℓ} (c : Codec V) (s : Storage V R) (key : Text) (a : InvocationAction R)
    (i : ℕ) (message : Text) (p : Protocol) where
  -- In a storage with sound locks, a completion that names a pending invocation and can be
  -- deserialized at its type completes the invocation's future with the result or error that it
  -- carries, takes the invocation out of the storage, and changes nothing else.
  pub completion_resolves :
      Awaits c s key a i message p
      → (result : Completion R) → deserialize a.completions message p ≡ ok result
      → process_message c s message Negotiate.completion p ≡ (
        record s {
          actions = record s.actions { inner = remove key s.actions.inner };
          heap = settle s.heap i (into_result result);
        },
        ok tt,
      )
  unfolding process_message update_with drop_action into_result
  completion_resolves w result e = ground (
    arith,
    remove-insert key
        (record { poisoned = false; inner = invocation_action (record a { completer = none }) })
        s.actions.inner,
    lookup-insert_self key
        (record { poisoned = false; inner = invocation_action (record a { completer = none }) })
        s.actions.inner,
  )

  -- In a storage with sound locks, a completion that names a pending invocation but cannot be
  -- deserialized at its type changes nothing: the error is returned to the reader, and the
  -- invocation stays pending.
  pub undecodable_stays :
      Awaits c s key a i message p
      → (reason : Text) → deserialize a.completions message p ≡ err reason
      → process_message c s message Negotiate.completion p ≡ (s, err reason)
  unfolding process_message update_with drop_action into_result
  undecodable_stays w reason e = ground (
    arith,
    insert-lookup key (record { poisoned = false; inner = invocation_action a }) s.actions.inner,
  )
