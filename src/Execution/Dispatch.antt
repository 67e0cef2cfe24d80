-- ===== src/Execution/Dispatch.antt =====
-- src/execution/storage.rs: the methods that the trait `Storage` gives on top of those of
-- `UpdatableActionStorage`, and the handle that unregisters a callback.
pub mod Keys
pub mod Callbacks
pub mod History
pub mod Streaming
pub mod Completions
pub mod Registration
mod Examples
use ac_signalr_client_lib_rs.Base.{
  ℕ, Option, none, some, ◌++◌, Text, lit, show_nat, Res, ok, err, ◌>>=◌, if◌then◌else◌,
}
use ac_signalr_client_lib_rs.Client.Configuration.{Protocol}
use ac_signalr_client_lib_rs.Protocol.Negotiate as Negotiate
use ac_signalr_client_lib_rs.Protocol.Negotiate.{MessageType}
use ac_signalr_client_lib_rs.Protocol.Invoke.{
  Invocation, Completion, StreamItem, PossibleInvocation, get_target,
}
use ac_signalr_client_lib_rs.Protocol.Messages.{Serde, deserialize}
use ac_signalr_client_lib_rs.Execution.Actions.{
  callback_action, invocation_action, enumerable_action, Lossy, update_with, new_invocation,
  new_enumerable,
}
use ac_signalr_client_lib_rs.Execution.Storage.{
  Storage, insert_action, contains, update, remove_action, defer_message, replay_deferred,
  increment,
}

-- serde at the types that `process_message` reads, and the printing of lossy text.
pub record Codec {ℓ} (V : Type ℓ) : Type ℓ where
  pub invocations : Serde (Invocation V)
  pub possible_invocations : Serde PossibleInvocation
  pub lossy : Lossy

module _ {ℓ} {V R : Type ℓ} where
  -- `create_key`
  unfoldable pub create_key : Storage V R → Text → Storage V R × Text
  unfolding increment
  create_key s target = let (s', n) = increment s in (s', target ++ lit "_" ++ show_nat n)

  -- `add_callback`
  unfoldable pub add_callback : Codec V → Storage V R → Text → ℕ → Storage V R
  unfolding insert_action replay_deferred
  add_callback c s target callback =
      replay_deferred c.lossy
        (insert_action s target (
          callback_action
            (record { target = target; callback = callback; invocations = c.invocations })))
        target

  -- `add_invocation`: the number of the future that the caller waits for.
  unfoldable pub add_invocation : Storage V R → Text → Serde (Completion R) → Storage V R × ℕ
  unfolding new_invocation insert_action
  add_invocation s key completions =
      let (a, h, i) = new_invocation key completions s.heap in
      (insert_action (record s { heap = h }) key (invocation_action a), i)

  -- `add_stream`: the number of the stream that the caller reads.
  unfoldable pub add_stream :
      Storage V R → Text → Serde (Completion R) → Serde (StreamItem R) → Storage V R × ℕ
  unfolding new_enumerable insert_action
  add_stream s key completions items =
      let (a, h, i) = new_enumerable key completions items s.heap in
      (insert_action (record s { heap = h }) key (enumerable_action a), i)

  abbrev pub deliver :
      Codec V → Storage V R → Text → Text → MessageType → Protocol → Storage V R × Res (Unit {0})
  deliver c s key message t p = update s key (λ a h. update_with c.lossy a h message t p)

  abbrev pub invoked :
      Codec V → Storage V R → Text → Protocol → Res (Invocation V) → Storage V R × Res (Unit {0})
  invoked c s message p (err e) = (s, err e)
  invoked c s message p (ok i) =
      if contains s (get_target i)
      then deliver c s (get_target i) message Negotiate.invocation p
      else (
        defer_message c.lossy s (get_target i)
            (record { message = message; message_type = Negotiate.invocation; protocol = p }),
        ok tt,
      )

  abbrev pub item_for :
      Codec V → Storage V R → Text → Protocol → Option Text → Storage V R × Res (Unit {0})
  item_for c s message p none = (s, ok tt)
  item_for c s message p (some key) = deliver c s key message Negotiate.stream_item p

  abbrev pub item_received :
      Codec V
      → Storage V R
      → Text
      → Protocol
      → Res PossibleInvocation
      → Storage V R × Res (Unit {0})
  item_received c s message p (err e) = (s, err e)
  item_received c s message p (ok i) = item_for c s message p i.invocation_id

  -- The `?` after `update` skips the removal where the action refuses the message.
  abbrev pub removed_after : Text → Storage V R × Res (Unit {0}) → Storage V R × Res (Unit {0})
  removed_after key (s, ok u) = (remove_action s key, ok tt)
  removed_after key (s, err e) = (s, err e)

  abbrev pub completion_for :
      Codec V → Storage V R → Text → Protocol → Option Text → Storage V R × Res (Unit {0})
  completion_for c s message p none = (s, ok tt)
  completion_for c s message p (some key) =
      removed_after key (deliver c s key message Negotiate.completion p)

  abbrev pub completion_received :
      Codec V
      → Storage V R
      → Text
      → Protocol
      → Res PossibleInvocation
      → Storage V R × Res (Unit {0})
  completion_received c s message p (err e) = (s, err e)
  completion_received c s message p (ok i) = completion_for c s message p i.invocation_id

  -- `process_message`
  unfoldable pub process_message :
      Codec V → Storage V R → Text → MessageType → Protocol → Storage V R × Res (Unit {0})
  unfolding update contains defer_message remove_action get_target
  process_message c s message Negotiate.invocation p =
      invoked c s message p (deserialize c.invocations message p)
  process_message c s message Negotiate.stream_item p =
      item_received c s message p (deserialize c.possible_invocations message p)
  process_message c s message Negotiate.completion p =
      completion_received c s message p (deserialize c.possible_invocations message p)
  process_message c s message _ p = (s, ok tt)

-- `StorageUnregistrationHandler`: the storage is the one that the client uses.
pub record UnregistrationHandler : Type 0 where
  pub key : Text

-- `unregister`
unfoldable pub unregister {ℓ} : {V R : Type ℓ} → Storage V R → UnregistrationHandler → Storage V R
unfolding remove_action
unregister s handler = remove_action s handler.key
