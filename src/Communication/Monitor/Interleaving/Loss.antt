-- ===== src/Communication/Monitor/Interleaving/Loss.antt =====
-- What a lost connection means for the callers that wait.
use ac_signalr_client_lib_rs.Base.{
  ℕ, ◌+◌, ◌<◌, ◌^◌, ◌≡◌, ◌≢◌, ◌⊎◌, false, some, List, ◌∷◌, ◌++◌, Text, lit, Res, ok, err, get_elem?,
  arith,
}
use ac_signalr_client_lib_rs.Completer.Future.{complete}
use ac_signalr_client_lib_rs.Execution.Heap.Open.{open_at}
use ac_signalr_client_lib_rs.Execution.Storage.{cancel_pending}
use ac_signalr_client_lib_rs.Execution.Storage.Cancelled.{AreSound, callbacks_of}
use ac_signalr_client_lib_rs.Execution.Storage.Answers.{cancel_pending_lem}
use ac_signalr_client_lib_rs.Execution.Dispatch.{Codec}
use ac_signalr_client_lib_rs.Communication.Http.{ConnectionData}
use ac_signalr_client_lib_rs.Communication.Monitor.{
  System, idle, connection_lost, ConnectionEvent, not_connected, reconnecting, connected, connect,
  event_received, monitor_step, mark_connection_lost, begin_attempt,
}
use ac_signalr_client_lib_rs.Communication.Monitor.Interleaving.{Reach, Reach-IsSafe}

-- What the callers are told.
abbrev loss_of : Text → Text
loss_of reason = lit "Connection lost before the invocation completed: " ++ reason

module _ {ℓ} {V R : Type ℓ} where
  -- The monitor takes the report that the current connection was lost.
  pub record IsLosing (t : System V R) (g c : ℕ) (reason : Text) : Type ℓ where
    pub waits : t.phase ≡ idle
    pub reported : (rest : List ConnectionEvent) × (t.events ≡ connection_lost g reason ∷ rest)
    pub is_held : t.clients ≢ 0
    pub running : t.shutdown ≡ false
    pub is_sound : t.state.poisoned ≡ false
    pub online : t.state.inner ≡ connected g c

  monitor_step-loses :
      (t : System V R) (g c : ℕ) (reason : Text)
      → IsLosing t g c reason
      → let u = monitor_step t event_received in
        ((u.state.inner ≡ reconnecting) ⊎ (u.state.inner ≡ not_connected))
        × (u.storage ≡ cancel_pending t.storage (loss_of reason))
  unfolding monitor_step mark_connection_lost begin_attempt
  monitor_step-loses t g c reason h = ground (arith, h.reported.1)

  -- A client that connected, and any interleaving of at most 2^64 - 3 steps of its handles, the tasks
  -- of its connections and its monitor, after which the idle monitor, with a client left, no shutdown
  -- and sound locks, takes the report that the current connection was lost: after that step there is
  -- no connection, whatever the reconnect policy and the handlers are; of the actions exactly the
  -- callbacks are left; no future is open any more, every future that was open holds an error with
  -- the reason of the loss, and every other future is as before.
  pub Reach-lost :
      {cd : Codec V} {s t : System V R} {n : ℕ} (configuration : ConnectionData) (socket : Res ℕ)
      (g c : ℕ) (reason : Text)
      → connect configuration socket ≡ ok s
      → n + 2 < 2 ^ 64
      → Reach cd s n t
      → IsLosing t g c reason
      → t.storage.actions.poisoned ≡ false
      → AreSound t.storage.actions.inner
      → let u = monitor_step t event_received in
        ((u.state.inner ≡ reconnecting) ⊎ (u.state.inner ≡ not_connected))
        × (u.storage.actions.inner ≡ callbacks_of t.storage.actions.inner)
        × ((j : ℕ) → open_at u.storage.heap j ≡ 0)
        × ((j : ℕ)
            → (get_elem? u.storage.heap.futures j ≡ get_elem? t.storage.heap.futures j)
              ⊎ ((open_at t.storage.heap j ≡ 1)
                  × (get_elem? u.storage.heap.futures j
                      ≡ some (complete (some (err (loss_of reason)))))))
  Reach-lost {t} configuration socket g c reason e b r h q a =
      let (offline, cancelled) = monitor_step-loses t g c reason h in
      let safe = Reach-IsSafe configuration socket e b r in
      let (left, closed, told) = cancel_pending_lem t.storage (loss_of reason) safe.owned q a in
      rw cancelled (offline, left, closed, told)
