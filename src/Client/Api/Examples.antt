-- ===== src/Client/Api/Examples.antt =====
-- The theorem on graceful disconnects at a client whose close frame is not acknowledged in time.
use ac_signalr_client_lib_rs.Base.{ℕ, ◌≡◌, refl, true, [], lit, Res, err}
use ac_signalr_client_lib_rs.Fixtures.{codec_add, empty_storage, online_client}
use ac_signalr_client_lib_rs.Client.Api.{
  disconnect_gracefully, close_result, disconnect_gracefully_lem,
}
use ac_signalr_client_lib_rs.Execution.Heap.Open.{open_at}
use ac_signalr_client_lib_rs.Execution.Storage.{new}
use ac_signalr_client_lib_rs.Execution.Storage.Ownership.{IsOwned}
use ac_signalr_client_lib_rs.Execution.Storage.Cancelled.{callbacks_of}
use ac_signalr_client_lib_rs.Execution.Dispatch.History.{history, history-IsOwned}
use ac_signalr_client_lib_rs.Communication.Monitor.{not_connected}

abbrev late : ℕ → Res (Unit {0})
late c = err (lit "Timed out waiting to send close frame")

empty_storage-IsOwned : IsOwned empty_storage
unfolding history new
empty_storage-IsOwned = history-IsOwned codec_add 2 []

disconnect_gracefully_lem_example :
    ((disconnect_gracefully online_client late).0.state.inner ≡ not_connected)
    × ((disconnect_gracefully online_client late).0.shutdown ≡ true)
    × ((disconnect_gracefully online_client late).1 ≡ close_result late online_client.state.inner)
    × ((disconnect_gracefully online_client late).0.storage.actions.inner
        ≡ callbacks_of online_client.storage.actions.inner)
    × ((j : ℕ) → open_at (disconnect_gracefully online_client late).0.storage.heap j ≡ 0)
disconnect_gracefully_lem_example =
    disconnect_gracefully_lem online_client late refl empty_storage-IsOwned refl tt
