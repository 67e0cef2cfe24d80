-- ===== src/Client/Api.antt =====
-- src/client/signalr_client.rs: the public calls of `SignalRClient`, and of `disconnect_gracefully` of
-- src/communication/client_tokio.rs the run that nothing comes between.
mod Examples
use ac_signalr_client_lib_rs.Base.{
  ℕ, ◌≡◌, true, false, Option, none, some, List, [], Text, lit, Res, ok, err, arith,
}
use ac_signalr_client_lib_rs.Client.Configuration.{Setting}
use ac_signalr_client_lib_rs.Client.Calls.{
  connect_internal, invoke_internal, send_internal, enumerate_internal,
}
use ac_signalr_client_lib_rs.Protocol.Negotiate.{NegotiateResponseV0}
use ac_signalr_client_lib_rs.Protocol.Invoke.{Invocation, Completion, StreamItem}
use ac_signalr_client_lib_rs.Protocol.Messages.{Serde}
use ac_signalr_client_lib_rs.Execution.Heap.Open.{open_at}
use ac_signalr_client_lib_rs.Execution.Storage.Ownership.{IsOwned}
use ac_signalr_client_lib_rs.Execution.Storage.Cancelled.{AreSound, callbacks_of}
use ac_signalr_client_lib_rs.Execution.Storage.Answers.{cancel_pending_lem}
use ac_signalr_client_lib_rs.Communication.Socket.{Sockets}
use ac_signalr_client_lib_rs.Communication.Monitor.{
  System, ConnectionState, not_connected, connected, begin_disconnect, finish_disconnect,
  drop_client,
}

abbrev closed_on : (ℕ → Res (Unit {0})) → Option ℕ → Res (Unit {0})
closed_on close none = ok tt
closed_on close (some c) = close c

-- What the answer of a graceful disconnect is.
abbrev pub close_result : (ℕ → Res (Unit {0})) → ConnectionState → Res (Unit {0})
close_result close (connected g c) = close c
close_result close _ = ok tt

module _ {ℓ} {V R : Type ℓ} where
  -- `connect`, with the default configuration.
  unfoldable pub connect : Serde NegotiateResponseV0 → Sockets → Text → Text → Res (System V R)
  unfolding connect_internal
  connect responses n domain hub = connect_internal responses n domain hub []

  -- `connect_with`
  unfoldable pub connect_with :
      Serde NegotiateResponseV0 → Sockets → Text → Text → List Setting → Res (System V R)
  unfolding connect_internal
  connect_with responses n domain hub options = connect_internal responses n domain hub options

  -- `invoke` and `invoke_with_args`, up to the future that they wait for.
  unfoldable pub invoke :
      System V R
      → (ℕ → Text → Res (Unit {0}))
      → Serde (Invocation V)
      → Serde (Completion R)
      → Text
      → System V R × Text × Res ℕ
  unfolding invoke_internal
  invoke s queue invocations completions target =
      invoke_internal s queue invocations completions target none

  unfoldable pub invoke_with_args :
      System V R
      → (ℕ → Text → Res (Unit {0}))
      → Serde (Invocation V)
      → Serde (Completion R)
      → Text
      → List (Res V)
      → System V R × Text × Res ℕ
  unfolding invoke_internal
  invoke_with_args s queue invocations completions target arguments =
      invoke_internal s queue invocations completions target (some arguments)

  -- `send` and `send_with_args`
  unfoldable pub send :
      System V R
      → (ℕ → Text → Res (Unit {0}))
      → Serde (Invocation V)
      → Text
      → System V R × Res (Unit {0})
  unfolding send_internal
  send s queue invocations target = send_internal s queue invocations target none

  unfoldable pub send_with_args :
      System V R
      → (ℕ → Text → Res (Unit {0}))
      → Serde (Invocation V)
      → Text
      → List (Res V)
      → System V R × Res (Unit {0})
  unfolding send_internal
  send_with_args s queue invocations target arguments =
      send_internal s queue invocations target (some arguments)

  -- `enumerate` and `enumerate_with_args`
  unfoldable pub enumerate :
      System V R
      → (ℕ → Text → Res (Unit {0}))
      → Serde (Invocation V)
      → Serde (Completion R)
      → Serde (StreamItem R)
      → Text
      → System V R × ℕ
  unfolding enumerate_internal
  enumerate s queue invocations completions items target =
      enumerate_internal s queue invocations completions items target none

  unfoldable pub enumerate_with_args :
      System V R
      → (ℕ → Text → Res (Unit {0}))
      → Serde (Invocation V)
      → Serde (Completion R)
      → Serde (StreamItem R)
      → Text
      → List (Res V)
      → System V R × ℕ
  unfolding enumerate_internal
  enumerate_with_args s queue invocations completions items target arguments =
      enumerate_internal s queue invocations completions items target (some arguments)

  abbrev disconnected_on :
      (ℕ → Res (Unit {0})) → System V R → Res (Option ℕ) → System V R × Res (Unit {0})
  disconnected_on close s (err e) = (drop_client s, err e)
  disconnected_on close s (ok c) = (drop_client (finish_disconnect s), closed_on close c)

  -- `disconnect_gracefully`, where `close` is what `close_gracefully` of a connection comes to; the
  -- handle is dropped behind it.
  unfoldable pub disconnect_gracefully :
      System V R → (ℕ → Res (Unit {0})) → System V R × Res (Unit {0})
  unfolding begin_disconnect finish_disconnect drop_client
  disconnect_gracefully s close = let (t, c) = begin_disconnect s in disconnected_on close t c

  -- A graceful disconnect that nothing comes between, with sound locks, on a storage that owes exactly
  -- the open futures: the client is not connected and shut down, whatever the close of the connection
  -- came to, which is the answer; of the actions the callbacks alone are left; and no invocation
  -- waits any more.
  pub disconnect_gracefully_lem :
      (s : System V R) (close : ℕ → Res (Unit {0}))
      → s.state.poisoned ≡ false
      → IsOwned s.storage
      → s.storage.actions.poisoned ≡ false
      → AreSound s.storage.actions.inner
      → let (t, r) = disconnect_gracefully s close in
        (t.state.inner ≡ not_connected)
        × (t.shutdown ≡ true)
        × (r ≡ close_result close s.state.inner)
        × (t.storage.actions.inner ≡ callbacks_of s.storage.actions.inner)
        × ((j : ℕ) → open_at t.storage.heap j ≡ 0)
  unfolding disconnect_gracefully
  disconnect_gracefully_lem s close q w a b =
      let (left, closed, _) = cancel_pending_lem s.storage (lit "Client disconnected") w a b in
      ground (arith, left, closed)
