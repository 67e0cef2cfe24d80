-- ===== src/Client/Handles/Examples.antt =====
-- The theorems on handles at a client with one.
use ac_signalr_client_lib_rs.Base.{
  ℕ, ◌+◌, ◌≡◌, ◌≢◌, refl, true, none, ok, [], ◌∷◌, ◌++◌, lit, lookup, insert, text_eq, arith,
}
use ac_signalr_client_lib_rs.Fixtures.{codec_add, online_client, connection_with, two_attempts}
use ac_signalr_client_lib_rs.Execution.Storage.Callbacks.{callback_count}
use ac_signalr_client_lib_rs.Client.Handles.{register, unregister_callback, disconnect_handle}
use ac_signalr_client_lib_rs.Client.Handles.Counting.{start, next, registers}
use ac_signalr_client_lib_rs.Client.Handles.LastHandle.{Moves-disconnect_handle}
use ac_signalr_client_lib_rs.Client.Handles.Taken.{register-unregister_callback}
use ac_signalr_client_lib_rs.Communication.Monitor.{System, connect, not_connected, shut_down}

abbrev registered_client : System ℕ ℕ
registered_client = (register codec_add online_client (lit "add") 7).0

one_handle : ◌≢◌ {A = ℕ} 1 0
one_handle e = omega (arith, e)

Moves-disconnect_handle_example :
    (0 + callback_count registered_client.storage.actions.inner ≡ 0
      → ((disconnect_handle registered_client).state.inner ≡ not_connected)
        × ((disconnect_handle registered_client).shutdown ≡ true)
        × ((disconnect_handle registered_client).events
            ≡ registered_client.events ++ shut_down ∷ [] ++ shut_down ∷ [])
        × ((disconnect_handle registered_client).clients ≡ 0))
    × (0 + callback_count registered_client.storage.actions.inner ≢ 0
        → disconnect_handle registered_client ≡ record registered_client {
          clients = 0 + callback_count registered_client.storage.actions.inner;
        })
unfolding connect register lookup
Moves-disconnect_handle_example =
    Moves-disconnect_handle {c = codec_add} {s = online_client} {t = registered_client} {v = 0}
      (connection_with two_attempts) (ok 10) refl (next start (registers (lit "add") 7 one_handle))
      refl refl

register-unregister_callback_example :
    ((register codec_add registered_client (lit "add") 8).0.storage.actions
      ≡ registered_client.storage.actions)
    × ((register codec_add registered_client (lit "add") 8).0.clients ≡ registered_client.clients)
    × (lookup
          (lit "add")
          (unregister_callback
            (register codec_add registered_client (lit "add") 8).0
            (record { key = lit "add" })).storage.actions.inner
        ≡ none)
unfolding register lookup text_eq insert
register-unregister_callback_example =
    register-unregister_callback codec_add (lit "add") 7 8 registered_client
      (record { sound = refl; found = refl })
