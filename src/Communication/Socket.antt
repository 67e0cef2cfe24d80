-- ===== src/Communication/Socket.antt =====
-- src/communication/client_tokio.rs: `connect_socket`, which opens a WebSocket and sends the SignalR
-- handshake. `Sockets` adds what hyper and fastwebsockets answer to `Net`; an upgraded connection
-- and a WebSocket are numbers.
pub mod Handshake
use ac_signalr_client_lib_rs.Base.{
  ℕ, not, ◌∷◌, ◌++◌, Text, lit, show_nat, Res, ok, err, map_err, ok_or, ◌>>=◌, ◌>>◌, ◌==◌,
  if◌then◌else◌,
}
use ac_signalr_client_lib_rs.Client.Configuration.{Authentication, as_str, json}
use ac_signalr_client_lib_rs.Protocol.Negotiate.{HandshakeRequest, handshake_request}
use ac_signalr_client_lib_rs.Protocol.Messages.{Serde, serialize}
use ac_signalr_client_lib_rs.Communication.Http.{
  ConnectionData, Net, Uri, Request, Response, authorization_header, authorized, scheme_is, or_root,
  port_or, send_secure, send_plain,
}

pub record Sockets : Type 0 where
  pub net : Net
  pub generate_key : Text
  pub debug_text : Text → Text
  pub upgrade : Response → Res ℕ
  pub write_frame : ℕ → Text → Res (Unit {0})
  pub read_frame : ℕ → Res Text
  pub handshakes : Serde HandshakeRequest

-- The request that asks for the upgrade.
unfoldable pub upgrade_request : Sockets → Uri → Text → Authentication → Request
unfolding authorization_header
upgrade_request n uri host a = record {
  method = lit "GET";
  uri = or_root uri.path_and_query;
  headers =
      (lit "Host", host)
      ∷ (lit "Upgrade", lit "websocket")
      ∷ (lit "Connection", lit "Upgrade")
      ∷ (lit "Sec-WebSocket-Key", n.generate_key)
      ∷ (lit "Sec-WebSocket-Version", lit "13")
      ∷ authorized (authorization_header n.net a);
}

-- From the TCP connection to the answer to the upgrade request.
unfoldable pub request_upgrade : Sockets → ConnectionData → Res Response
unfolding upgrade_request send_secure send_plain
request_upgrade n d = do
  uri ←
      map_err (lit "The endpoint URI " ++ n.debug_text d.endpoint ++ lit " is invalid: ")
        (n.net.parse_uri d.endpoint)
  host ← ok_or (lit "No host in URI") uri.host
  stream ←
      map_err (lit "Failed to connect: ")
        (n.net.tcp_connect (host ++ lit ":" ++ show_nat (port_or uri (lit "wss"))))
  let req = upgrade_request n uri host d.authentication
  map_err (lit "Failed to build request: ") (n.net.build_request req)
  if scheme_is uri.scheme (lit "wss")
      then send_secure n.net host stream req (lit "Failed to send request: ")
      else send_plain n.net stream req (lit "Failed to send request: ")

-- The handshake on the upgraded connection: the frame that comes back is read and left at that.
unfoldable pub shake_hands : Sockets → ConnectionData → ℕ → Res (Unit {0})
shake_hands n d ws = do
  bytes ←
      map_err (lit "Handshake serialization failed: ")
        (serialize n.handshakes (handshake_request (as_str d.protocol)) json)
  map_err (lit "Handshake send failed: ") (n.write_frame ws bytes)
  response ← map_err (lit "Handshake response read failed: ") (n.read_frame ws)
  ok tt

-- `connect_socket`: the number of the connection.
unfoldable pub connect_socket : Sockets → ConnectionData → Res ℕ
connect_socket n d = do
  res ← request_upgrade n d
  if not (res.status == 101)
      then err (lit "Server did not upgrade to websocket: " ++ n.net.show_status res.status)
      else do ws ← map_err (lit "Failed to upgrade: ") (n.upgrade res); shake_hands n d ws; ok ws
