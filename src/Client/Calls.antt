-- ===== src/Client/Calls.antt =====
-- src/client/signalr_client.rs: the calls of `SignalRClient`. Its storage is the one of the
-- connection, so a client is the shared `System`. A call that waits is cut at its await: `invoke` up
-- to the future that it waits for, and the drop of its cleanup guard, which ends it.
-- The client handle that goes where the guard takes a callback away is counted in Client.Handles.
pub mod Cleanup
pub mod Answered
pub mod Endings
pub mod Enumerated
pub mod Taken
mod Examples
use ac_signalr_client_lib_rs.Base.{ℕ, Option, none, some, List, Text, Res, ok, err, [], ◌>>=◌}
use ac_signalr_client_lib_rs.Client.Configuration.{Setting, new, configure}
use ac_signalr_client_lib_rs.Protocol.Negotiate.{NegotiateResponseV0}
use ac_signalr_client_lib_rs.Protocol.Invoke.{
  Invocation, Completion, StreamItem, Built, built, panicked, create_single, create_multiple,
  with_invocation_id, new_arguments, with_arguments, build_invocation,
}
use ac_signalr_client_lib_rs.Protocol.Messages.{Serde}
use ac_signalr_client_lib_rs.Execution.Storage.{remove_action}
use ac_signalr_client_lib_rs.Execution.Dispatch.{create_key, add_invocation, add_stream}
use ac_signalr_client_lib_rs.Communication.Http.{negotiate}
use ac_signalr_client_lib_rs.Communication.Socket.{Sockets, connect_socket}
use ac_signalr_client_lib_rs.Communication.Monitor.{System, connect, send}

-- The arguments that the closure of the caller gives, if there is one.
abbrev pub configured {ℓ} : {V : Type ℓ} → Invocation V → Option (List (Res V)) → Built V
configured i none = built i
configured i (some arguments) = build_invocation (with_arguments (new_arguments i) arguments)

module _ {ℓ} {V R : Type ℓ} where
  -- `connect_internal`
  unfoldable pub connect_internal :
      Serde NegotiateResponseV0 → Sockets → Text → Text → List Setting → Res (System V R)
  unfolding new configure connect
  connect_internal responses n domain hub options = do
    configuration ← negotiate n.net responses (configure (new domain hub) options)
    connect configuration (connect_socket n configuration)

  -- `send` of the connection, for an invocation that was built; a panic of the builder sends nothing.
  abbrev pub send_built :
      System V R
      → (ℕ → Text → Res (Unit {0}))
      → Serde (Invocation V)
      → Built V
      → System V R × Res (Unit {0})
  send_built s queue invocations (built i) = send s queue invocations i
  send_built s queue invocations panicked = (s, err [])

  -- The removal from the storage, by the guard `PendingInvocationCleanup` or after a failed send.
  unfoldable pub clean_up : System V R → Text → System V R
  unfolding remove_action
  clean_up s key = record s { storage = remove_action s.storage key }

  abbrev pub awaited : Text → ℕ → System V R × Res (Unit {0}) → System V R × Text × Res ℕ
  awaited key i (s, ok u) = (s, key, ok i)
  awaited key i (s, err e) = (clean_up s key, key, err e)

  -- `invoke_internal` up to its await: the key that the guard removes, and the future waited for.
  unfoldable pub invoke_internal :
      System V R
      → (ℕ → Text → Res (Unit {0}))
      → Serde (Invocation V)
      → Serde (Completion R)
      → Text
      → Option (List (Res V))
      → System V R × Text × Res ℕ
  unfolding create_key add_invocation create_single with_invocation_id send build_invocation
      clean_up
  invoke_internal s queue invocations completions target arguments =
      let (made, key) = create_key s.storage target in
      let (stored, i) = add_invocation made key completions in
      awaited key i (
        send_built (record s { storage = stored }) queue invocations
          (configured (with_invocation_id (create_single target) key) arguments))

  -- `send_internal`
  unfoldable pub send_internal :
      System V R
      → (ℕ → Text → Res (Unit {0}))
      → Serde (Invocation V)
      → Text
      → Option (List (Res V))
      → System V R × Res (Unit {0})
  unfolding create_single send build_invocation
  send_internal s queue invocations target arguments =
      send_built s queue invocations (configured (create_single target) arguments)

  abbrev pub streamed : Text → ℕ → System V R × Res (Unit {0}) → System V R × ℕ
  streamed key i (s, ok u) = (s, i)
  streamed key i (s, err e) = (clean_up s key, i)

  -- `enumerate_internal`: the stream is returned also where the send failed.
  unfoldable pub enumerate_internal :
      System V R
      → (ℕ → Text → Res (Unit {0}))
      → Serde (Invocation V)
      → Serde (Completion R)
      → Serde (StreamItem R)
      → Text
      → Option (List (Res V))
      → System V R × ℕ
  unfolding create_key add_stream create_multiple with_invocation_id send build_invocation clean_up
  enumerate_internal s queue invocations completions items target arguments =
      let (made, key) = create_key s.storage target in
      let (stored, i) = add_stream made key completions items in
      streamed key i (
        send_built (record s { storage = stored }) queue invocations
          (configured (with_invocation_id (create_multiple target) key) arguments))
