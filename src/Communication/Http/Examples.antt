-- ===== src/Communication/Http/Examples.antt =====
-- The theorems on negotiations and connections at a concrete server.
use ac_signalr_client_lib_rs.Base.{◌≡◌, refl, ◌++◌, Text, lit, ok, text_eq}
use ac_signalr_client_lib_rs.Client.Configuration.{
  ConnectionConfiguration, no_auth, json, new, as_str, get_socket_url,
}
use ac_signalr_client_lib_rs.Protocol.Negotiate.{handshake_request}
use ac_signalr_client_lib_rs.Protocol.Messages.{serialize}
use ac_signalr_client_lib_rs.Communication.Http.{ConnectionData, Response}
use ac_signalr_client_lib_rs.Fixtures.{sockets}
use ac_signalr_client_lib_rs.Communication.Socket.{connect_socket, request_upgrade, shake_hands}
use ac_signalr_client_lib_rs.Communication.Socket.Handshake.{
  connect_socket-needs, handshake_response_ignored,
}

abbrev options : ConnectionConfiguration
options = new (lit "example.com") (lit "hub")

abbrev connection : ConnectionData
connection = record {
  endpoint = get_socket_url options ++ lit "?id=" ++ lit "token";
  connection_id = lit "id";
  protocol = json;
  authentication = no_auth;
  source_configuration = options;
}

connect_socket-needs_example :
    (res : Response) × (bytes : Text) × (response : Text) × (request_upgrade sockets connection
      ≡ ok res)
    × (res.status ≡ 101)
    × (sockets.upgrade res ≡ ok 4)
    × (serialize sockets.handshakes (handshake_request (as_str json)) json ≡ ok bytes)
    × (sockets.write_frame 4 bytes ≡ ok tt)
    × (sockets.read_frame 4 ≡ ok response)
unfolding connect_socket request_upgrade text_eq shake_hands serialize
connect_socket-needs_example = connect_socket-needs sockets connection 4 refl

handshake_response_ignored_example :
    connect_socket (record sockets { read_frame = λ ws. ok (lit "{}") }) connection
    ≡ connect_socket
        (record sockets { read_frame = λ ws. ok (lit "{\"error\":\"no\"}") })
        connection
handshake_response_ignored_example =
    handshake_response_ignored sockets connection (λ ws. lit "{}") (λ ws. lit "{\"error\":\"no\"}")
