-- ===== src/Communication/Monitor/Driving/Examples.antt =====
-- A reconnection whose first attempt is refused.
use ac_signalr_client_lib_rs.Base.{
  ℕ, ◌≡◌, refl, [], ◌∷◌, lit, ok, ◌==◌, if◌then◌else◌, text_eq, arith,
}
use ac_signalr_client_lib_rs.Protocol.Utf8.{from_utf8}
use ac_signalr_client_lib_rs.Protocol.Messages.{serialize}
use ac_signalr_client_lib_rs.Communication.Http.{negotiate, get_reconnect_policy}
use ac_signalr_client_lib_rs.Communication.Socket.{
  Sockets, connect_socket, request_upgrade, shake_hands,
}
use ac_signalr_client_lib_rs.Communication.Monitor.{
  System, idle, connection_lost, connected, event_received, monitor_step,
}
use ac_signalr_client_lib_rs.Communication.Monitor.Driving.{reconnection, drive}
use ac_signalr_client_lib_rs.Communication.Monitor.Driving.Reconnection.{drive-reconnection}
use ac_signalr_client_lib_rs.Fixtures.{online_client, net_with, sockets, responses}

-- A server that upgrades on the method of an upgrade request.
abbrev answering : Sockets
answering = record sockets {
  net = record (net_with 200) {
    send_request = λ c r.
        ok (record { status = if text_eq r.method (lit "GET") then 101 else 200; body = ok [] });
  };
}

-- The server refuses the first negotiation, then answers.
abbrev network : ℕ → Sockets
network i = if i == 1 then record sockets { net = net_with 500 } else answering

abbrev falling : System ℕ ℕ
falling = record online_client { events = connection_lost 1 (lit "gone") ∷ [] }

second_attempt :
    reconnection responses network falling.configuration.source_configuration 1 2 2 ≡ connected 2 4
unfolding reconnection negotiate connect_socket request_upgrade shake_hands serialize text_eq
    from_utf8
second_attempt = refl

drive-reconnection_example :
    ((drive responses network 8 (monitor_step falling event_received)).phase ≡ idle)
    × ((drive responses network 8 (monitor_step falling event_received)).state.inner
        ≡ reconnection responses network falling.configuration.source_configuration 1 2 2)
unfolding get_reconnect_policy
drive-reconnection_example =
    drive-reconnection responses network 8 falling 1 10 2 (lit "gone") [] refl refl
      (λ e. omega (arith, e)) refl refl refl refl refl (omega arith)
