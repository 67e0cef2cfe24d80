-- ===== src/Communication/Http.antt =====
-- src/communication/common.rs: the negotiation that precedes a connection. What the network and the
-- crates http, hyper, rustls and base64 answer is the parameter `Net`: one value of it is the
-- answers that one attempt gets. A stream, a TLS session or an HTTP connection is a number.
pub mod Fit
mod Examples
use ac_signalr_client_lib_rs.Base.{
  ℕ, Bool, false, not, Option, none, some, List, [], ◌∷◌, ◌++◌, Text, lit, text_eq, show_nat, Res,
  ok, err, map_err, ok_or, ◌>>=◌, ◌>>◌, ◌==◌, if◌then◌else◌, is_some,
}
use ac_signalr_client_lib_rs.Client.Configuration.{
  ConnectionConfiguration, Authentication, no_auth, basic, bearer, Protocol, json, message_pack,
  ReconnectPolicy, get_web_url, get_socket_url, unwrap_or,
}
use ac_signalr_client_lib_rs.Protocol.Negotiate.{NegotiateResponseV0, TransportSpec}
use ac_signalr_client_lib_rs.Protocol.Utf8.{from_utf8}
use ac_signalr_client_lib_rs.Protocol.Messages.{Serde}

abbrev pub web_socket_transport : Text
web_socket_transport = lit "WebSockets"

abbrev pub text_transport_format : Text
text_transport_format = lit "Text"

abbrev pub binary_transport_format : Text
binary_transport_format = lit "Binary"

pub record ConnectionData : Type 0 where
  pub endpoint : Text
  pub connection_id : Text
  pub protocol : Protocol
  pub authentication : Authentication
  pub source_configuration : ConnectionConfiguration

-- `get_reconnect_policy`
unfoldable pub get_reconnect_policy : ConnectionData → ReconnectPolicy
get_reconnect_policy d = d.source_configuration.reconnect

-- `get_deferred_message_capacity`
unfoldable pub get_deferred_message_capacity : ConnectionData → ℕ
get_deferred_message_capacity d = d.source_configuration.deferred_message_capacity

-- The parts of a `http::Uri` that the code asks for.
pub record Uri : Type 0 where
  pub host : Option Text
  pub port : Option ℕ
  pub scheme : Option Text
  pub path_and_query : Option Text

pub record Request : Type 0 where
  pub method : Text
  pub uri : Text
  pub headers : List (Text × Text)

pub record Response : Type 0 where
  pub status : ℕ
  pub body : Res Text

pub record Net : Type 0 where
  pub parse_uri : Text → Res Uri
  pub tcp_connect : Text → Res ℕ
  pub build_request : Request → Res (Unit {0})
  pub add_native_certs : Res (Unit {0})
  pub server_name : Text → Res (Unit {0})
  pub tls_connect : ℕ → Res ℕ
  pub http_handshake : ℕ → Res ℕ
  pub send_request : ℕ → Request → Res Response
  pub show_status : ℕ → Text
  pub base64 : Text → Text

abbrev or_empty : Option Text → Text
or_empty none = []
or_empty (some t) = t

-- `basic_auth`
unfoldable pub basic_auth : Net → Text → Option Text → Text
basic_auth n user password = lit "Basic " ++ n.base64 (user ++ lit ":" ++ or_empty password)

-- `authorization_header`
unfoldable pub authorization_header : Net → Authentication → Option Text
unfolding basic_auth
authorization_header n no_auth = none
authorization_header n (basic user password) = some (basic_auth n user password)
authorization_header n (bearer token) = some (lit "Bearer " ++ token)

abbrev pub scheme_is : Option Text → Text → Bool
scheme_is none s = false
scheme_is (some t) s = text_eq t s

abbrev pub or_root : Option Text → Text
or_root none = lit "/"
or_root (some p) = p

abbrev pub authorized : Option Text → List (Text × Text)
authorized none = []
authorized (some value) = (lit "Authorization", value) ∷ []

-- The request that `post` builds.
unfoldable pub post_request : Net → Uri → Text → Authentication → Request
unfolding authorization_header
post_request n uri host a = record {
  method = lit "POST";
  uri = or_root uri.path_and_query;
  headers =
      (lit "Host", host) ∷ (lit "Content-Length", lit "0") ∷ authorized (authorization_header n a);
}

-- Over TLS: certificates, server name, TLS session, then HTTP on it.
unfoldable pub send_secure : Net → Text → ℕ → Request → Text → Res Response
send_secure n host stream req failure = do
  map_err (lit "Failed to add cert: ") n.add_native_certs
  map_err (lit "Invalid DNS name: ") (n.server_name host)
  session ← map_err (lit "TLS connection failed: ") (n.tls_connect stream)
  sender ← map_err (lit "Handshake failed: ") (n.http_handshake session)
  map_err failure (n.send_request sender req)

unfoldable pub send_plain : Net → ℕ → Request → Text → Res Response
send_plain n stream req failure = do
  sender ← map_err (lit "Handshake failed: ") (n.http_handshake stream)
  map_err failure (n.send_request sender req)

abbrev pub port_or : Uri → Text → ℕ
port_or uri secure = unwrap_or uri.port (if scheme_is uri.scheme secure then 443 else 80)

-- `post`
unfoldable pub post {ℓ} : {T : Type ℓ} → Net → Serde T → Text → Authentication → Res T
unfolding post_request send_secure send_plain
post n serde endpoint a = do
  uri ← map_err (lit "Invalid URI: ") (n.parse_uri endpoint)
  host ← ok_or (lit "No host in URI") uri.host
  stream ←
      map_err (lit "Connection failed: ")
        (n.tcp_connect (host ++ lit ":" ++ show_nat (port_or uri (lit "https"))))
  let req = post_request n uri host a
  map_err (lit "Request build failed: ") (n.build_request req)
  res ←
      if scheme_is uri.scheme (lit "https")
      then send_secure n host stream req (lit "Request failed: ")
      else send_plain n stream req (lit "Request failed: ")
  if not (res.status == 200) then err (lit "HTTP error: " ++ n.show_status res.status) else do
    body ← map_err (lit "Failed to read body: ") res.body
    text ← map_err (lit "Invalid UTF-8: ") (from_utf8 body)
    map_err (lit "Deserialization failed: ") (serde.from_str text)

unfoldable pub find_transport : List TransportSpec → Text → Option TransportSpec
find_transport [] name = none
find_transport (t ∷ ts) name = if text_eq t.transport name then some t else find_transport ts name

unfoldable pub find_format : List Text → Text → Option Text
find_format [] name = none
find_format (f ∷ fs) name = if text_eq f name then some f else find_format fs name

abbrev format_of : Option TransportSpec → Text → Option Text
format_of none name = none
format_of (some t) name = find_format t.transfer_formats name

abbrev pub transfer_format : Protocol → Text
transfer_format json = text_transport_format
transfer_format message_pack = binary_transport_format

unfoldable pub fits : NegotiateResponseV0 → Protocol → Bool
unfolding find_transport find_format
fits r p =
    is_some
      (format_of (find_transport r.available_transports web_socket_transport) (transfer_format p))

-- The token if the server gave one, else the connection's id.
abbrev pub id_param : NegotiateResponseV0 → Text
id_param r = elim r.connection_token [ none ↦ r.connection_id | some token ↦ token ]

-- `create_configuration`
unfoldable pub create_configuration :
    Text
    → NegotiateResponseV0
    → Protocol
    → Authentication
    → ConnectionConfiguration
    → Option ConnectionData
unfolding fits
create_configuration endpoint r p a source =
    if fits r p
    then some (record {
      endpoint = endpoint ++ lit "?id=" ++ id_param r;
      connection_id = r.connection_id;
      protocol = p;
      authentication = a;
      source_configuration = source;
    })
    else none

abbrev pub with_token : Text → Authentication → Text
with_token endpoint (bearer token) = endpoint ++ lit "?access_token=" ++ token
with_token endpoint _ = endpoint

-- `negotiate`
unfoldable pub negotiate :
    Net → Serde NegotiateResponseV0 → ConnectionConfiguration → Res ConnectionData
unfolding post create_configuration
negotiate n serde options =
    if options.skips_negotiation
    then ok (record {
      endpoint = with_token (get_socket_url options) options.authentication;
      connection_id = [];
      protocol = options.protocol;
      authentication = options.authentication;
      source_configuration = options;
    })
    else do
      negotiation ←
          post n serde (get_web_url options ++ lit "/negotiate?negotiateVersion=1")
            options.authentication
      ok_or (lit "The negotiation concluded no matching communication protocols") (
          create_configuration (get_socket_url options) negotiation options.protocol
            options.authentication options)
