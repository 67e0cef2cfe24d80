-- ===== src/Communication/Monitor/Driving.antt =====
-- `reconnect_until_connected` on a network: the monitor with the negotiations and the sockets that its
-- awaits run, and with which connection, if any, it comes back.
pub mod Rounds
pub mod Reconnection
mod Examples
use ac_signalr_client_lib_rs.Base.{
  ℕ, zero, suc, ◌+◌, ◌%◌, ◌^◌, Bool, true, false, Res, ok, err, if◌then◌else◌,
}
use ac_signalr_client_lib_rs.Client.Configuration.{ConnectionConfiguration}
use ac_signalr_client_lib_rs.Protocol.Negotiate.{NegotiateResponseV0}
use ac_signalr_client_lib_rs.Protocol.Messages.{Serde}
use ac_signalr_client_lib_rs.Communication.Http.{negotiate}
use ac_signalr_client_lib_rs.Communication.Socket.{Sockets, connect_socket}
use ac_signalr_client_lib_rs.Communication.Monitor.{
  System, Phase, idle, announcing, sleeping, negotiating, connecting, announced, stopped,
  ConnectionState, not_connected, connected, Reply, event_received, callback_done, slept,
  negotiated, socket_opened, monitor_step,
}

-- The monitor waits for the next event, or has left its loop.
abbrev pub rests : Phase → Bool
rests idle = true
rests stopped = true
rests _ = false

abbrev pub opened_or : ConnectionState → ℕ → Res ℕ → ConnectionState
opened_or next g (ok c) = connected g c
opened_or next g (err e) = next

module _ (responses : Serde NegotiateResponseV0) (network : ℕ → Sockets) where
  -- What the await of the phase returns, with the network as it is during the given negotiation.
  abbrev pub answer : ConnectionConfiguration → ℕ → Phase → Reply
  answer options i idle = event_received
  answer options i announcing = callback_done
  answer options i (sleeping attempt) = slept
  answer options i (negotiating attempt) = negotiated (negotiate (network i).net responses options)
  answer options i (connecting attempt d g) = socket_opened (connect_socket (network i) d)
  answer options i announced = callback_done
  answer options i stopped = event_received

  -- What the attempts come to, counted down: the connection of the first one that negotiates and opens
  -- its socket, under the generation that the attempts before it have left, else none. Only an attempt
  -- that negotiated takes a generation.
  unfoldable pub reconnection : ConnectionConfiguration → ℕ → ℕ → ℕ → ConnectionState
  reconnection options i g zero = not_connected
  reconnection options i g (suc left) = elim (negotiate (network i).net responses options) [
    | err e ↦ reconnection options (suc i) g left
    | ok d ↦
        opened_or (reconnection options (suc i) ((g + 1) % 2 ^ 64) left) g
          (connect_socket (network i) d)
  ]

module _ {ℓ} {V R : Type ℓ} (responses : Serde NegotiateResponseV0) (network : ℕ → Sockets) where
  -- One round of the driver: the monitor goes on with what its await returned.
  unfoldable pub drive_step : System V R → System V R
  unfolding monitor_step negotiate connect_socket
  drive_step s =
      monitor_step s
        (answer responses network s.configuration.source_configuration s.negotiations s.phase)

  -- The monitor until it waits for the next event again.
  unfoldable pub drive : ℕ → System V R → System V R
  unfolding drive_step
  drive zero s = s
  drive (suc fuel) s = let on = drive fuel (drive_step s) in if rests s.phase then s else on
