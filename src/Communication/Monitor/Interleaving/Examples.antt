-- ===== src/Communication/Monitor/Interleaving/Examples.antt =====
-- The theorems on interleavings at short runs.
use ac_signalr_client_lib_rs.Base.{
  ℕ, ◌<◌, ◌≡◌, ◌⊎◌, some, err, get_elem?, text_eq, insert, lookup, refl, true, List, [], ◌∷◌, ◌++◌,
  lit, ok, arith,
}
use ac_signalr_client_lib_rs.Fixtures.{
  codec_add, reads, answer_3, connection_with, two_attempts, online_client,
}
use ac_signalr_client_lib_rs.Communication.Monitor.{
  System, connection_lost, event_received, slept, negotiated, socket_opened, connected,
  not_connected, reconnecting, given_up, send_event, connect, monitor_step, clone,
  finish_disconnect,
}
use ac_signalr_client_lib_rs.Communication.Monitor.Interleaving.{
  IsSafe, here, later, monitors, reports, stores, clones, finishes_disconnect, Reach-IsSafe,
}
use ac_signalr_client_lib_rs.Completer.Future.{complete}
use ac_signalr_client_lib_rs.Execution.Heap.Open.{open_at}
use ac_signalr_client_lib_rs.Execution.Storage.Cancelled.{callbacks_of}
use ac_signalr_client_lib_rs.Execution.Dispatch.{add_invocation}
use ac_signalr_client_lib_rs.Execution.Dispatch.History.{Call, adds_invocation, perform}
use ac_signalr_client_lib_rs.Communication.Monitor.Interleaving.Loss.{Reach-lost}
use ac_signalr_client_lib_rs.Communication.Http.{get_reconnect_policy}
use ac_signalr_client_lib_rs.Communication.Monitor.Machine.{Turns}
use ac_signalr_client_lib_rs.Communication.Monitor.Interleaving.Refinement.{Reach-Turns}
use ac_signalr_client_lib_rs.Communication.Monitor.Interleaving.Shut.{IsShut, Reach-IsShut}

abbrev cut_off : System ℕ ℕ
cut_off = send_event online_client (connection_lost 1 (lit "gone"))

Reach-IsSafe_example : IsSafe (monitor_step (monitor_step cut_off event_received) slept)
unfolding connect
Reach-IsSafe_example =
    Reach-IsSafe {c = codec_add} {s = online_client} {n = 3} (connection_with two_attempts) (ok 10)
      refl (omega arith)
      (later (later (later here (reports 1 (lit "gone") (omega arith))) (monitors event_received))
        (monitors slept))

abbrev shut_client : System ℕ ℕ
shut_client = record online_client { shutdown = true }

Reach-IsShut_example :
    IsShut shut_client (monitor_step (finish_disconnect (clone shut_client)) event_received)
Reach-IsShut_example =
    Reach-IsShut {c = codec_add} {n = 3}
      (later (later (later here clones) finishes_disconnect) (monitors event_received)) refl tt

abbrev recovered : System ℕ ℕ
recovered =
    monitor_step
      (monitor_step (monitor_step (monitor_step cut_off event_received) slept)
        (negotiated (ok (connection_with two_attempts))))
      (socket_opened (ok 11))

Reach-Turns_example :
    (last : ℕ) × (cs : List ℕ) × Turns true
      (record { state = connected 1 10; last = 1; dropped = [] })
      cs
      (record { state = recovered.state.inner; last = last; dropped = recovered.dropped })
    × (last < recovered.next_generation)
    × (recovered.dropped ++ given_up recovered.state.inner ≡ (10 ∷ []) ++ cs)
unfolding connect get_reconnect_policy
Reach-Turns_example =
    Reach-Turns {c = codec_add} {s = online_client} {t = recovered} {n = 5}
      (connection_with two_attempts) (ok 10) refl (omega arith)
      (later
        (later
          (later
            (later (later here (reports 1 (lit "gone") (omega arith))) (monitors event_received))
            (monitors slept))
          (monitors (negotiated (ok (connection_with two_attempts)))))
        (monitors (socket_opened (ok 11))))

-- A call waits for its answer when the connection is lost.
abbrev asks : Call ℕ ℕ
asks = adds_invocation (lit "add_1") (reads answer_3)

abbrev asking : System ℕ ℕ
asking =
    send_event (record online_client { storage = perform codec_add online_client.storage asks })
      (connection_lost 1 (lit "gone"))

abbrev told : System ℕ ℕ
told = monitor_step asking event_received

one_waits : open_at asking.storage.heap 0 ≡ 1
unfolding perform add_invocation lookup
one_waits = refl

Reach-lost_example :
    ((told.state.inner ≡ reconnecting) ⊎ (told.state.inner ≡ not_connected))
    × (told.storage.actions.inner ≡ callbacks_of asking.storage.actions.inner)
    × ((j : ℕ) → open_at told.storage.heap j ≡ 0)
    × ((j : ℕ)
        → (get_elem? told.storage.heap.futures j ≡ get_elem? asking.storage.heap.futures j)
          ⊎ ((open_at asking.storage.heap j ≡ 1)
              × (get_elem? told.storage.heap.futures j
                  ≡ some (
                      complete (
                        some (
                          err (
                            lit "Connection lost before the invocation completed: "
                            ++ lit "gone")))))))
unfolding connect perform add_invocation text_eq insert lookup
Reach-lost_example =
    Reach-lost {cd = codec_add} {s = online_client} {t = asking} {n = 2}
      (connection_with two_attempts) (ok 10) 1 10 (lit "gone") refl (omega arith)
      (later (later here (stores asks)) (reports 1 (lit "gone") (omega arith)))
      (record {
        waits = refl;
        reported = ([], refl);
        is_held = λ e. omega (arith, e);
        running = refl;
        is_sound = refl;
        online = refl;
      })
      refl (refl, tt)
