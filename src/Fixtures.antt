-- ===== src/Fixtures.antt =====
-- Values that the tests share: serializers that answer the same to everything, a storage, a
-- connected client, and a network.
use ac_signalr_client_lib_rs.Base.{ℕ, true, false, none, some, [], ◌∷◌, lit, ok, err, unlocked}
use ac_signalr_client_lib_rs.Client.Configuration.{ReconnectPolicy, no_auth, json, from_secs}
use ac_signalr_client_lib_rs.Protocol.Negotiate.{NegotiateResponseV0}
use ac_signalr_client_lib_rs.Protocol.Negotiate as Negotiate
use ac_signalr_client_lib_rs.Protocol.Invoke.{
  Invocation, Completion, StreamItem, PossibleInvocation,
}
use ac_signalr_client_lib_rs.Protocol.Messages.{Serde}
use ac_signalr_client_lib_rs.Execution.Storage.{Storage, empty_heap}
use ac_signalr_client_lib_rs.Execution.Dispatch.{Codec}
use ac_signalr_client_lib_rs.Communication.Http.{ConnectionData, Net}
use ac_signalr_client_lib_rs.Communication.Socket.{Sockets}
use ac_signalr_client_lib_rs.Communication.Monitor.{System, connected, idle}

-- A serializer that writes braces and reads one value whatever the bytes are.
abbrev pub reads {ℓ} : {T : Type ℓ} → T → Serde T
reads v = record {
  to_string = λ x. ok (lit "{}");
  from_str = λ s. ok v;
  to_vec = λ x. ok (lit "{}");
  from_slice = λ s. ok v;
}

abbrev pub call_add : Invocation ℕ
call_add = record {
  type = Negotiate.invocation;
  headers = none;
  id = none;
  target = lit "add";
  arguments = some (1 ∷ 2 ∷ []);
  stream_ids = none;
}

abbrev pub named_add : PossibleInvocation
named_add = record {
  type = Negotiate.completion;
  headers = none;
  invocation_id = some (lit "add_1");
  target = none;
}

abbrev pub answer_3 : Completion ℕ
answer_3 = record {
  type = Negotiate.completion;
  headers = none;
  invocation_id = lit "add_1";
  result = some 3;
  error = none;
}

abbrev pub item_5 : StreamItem ℕ
item_5 = record {
  type = Negotiate.stream_item;
  headers = none;
  invocation_id = lit "add_1";
  item = 5;
}

abbrev pub codec_add : Codec ℕ
codec_add = record {
  invocations = reads call_add;
  possible_invocations = reads named_add;
  lossy = λ s. s;
}

abbrev pub empty_storage : Storage ℕ ℕ
empty_storage = record {
  actions = unlocked [];
  deferred_messages = unlocked [];
  deferred_message_capacity = 2;
  index = unlocked 0;
  heap = empty_heap;
}

abbrev pub connection_with : ReconnectPolicy → ConnectionData
connection_with p = record {
  endpoint = lit "wss://example.com/hub";
  connection_id = lit "id";
  protocol = json;
  authentication = no_auth;
  source_configuration = record {
    is_secure = true;
    domain = lit "example.com";
    hub = lit "hub";
    port = none;
    authentication = no_auth;
    skips_negotiation = false;
    protocol = json;
    reconnect = p;
    deferred_message_capacity = 2;
  };
}

abbrev pub two_attempts : ReconnectPolicy
two_attempts = record {
  enabled = true;
  initial_delay = from_secs 1;
  max_delay = from_secs 30;
  max_attempts = some 2;
}

-- A client as `connect` leaves it, on connection 10.
abbrev pub online_client : System ℕ ℕ
online_client = record {
  configuration = connection_with two_attempts;
  state = unlocked (connected 1 10);
  events = [];
  shutdown = false;
  next_generation = 2;
  reconnecting_handler = unlocked none;
  reconnected_handler = unlocked none;
  storage = empty_storage;
  phase = idle;
  clients = 1;
  delays = [];
  callbacks = [];
  negotiations = 0;
  dropped = [];
}

abbrev pub server_response : NegotiateResponseV0
server_response = record {
  connection_id = lit "id";
  connection_token = some (lit "token");
  negotiate_version = 1;
  available_transports =
      record { transport = lit "LongPolling"; transfer_formats = [] }
      ∷ record { transport = lit "WebSockets"; transfer_formats = lit "Binary" ∷ lit "Text" ∷ [] }
      ∷ [];
}

abbrev pub responses : Serde NegotiateResponseV0
responses = record {
  to_string = λ x. err [];
  from_str = λ s. ok server_response;
  to_vec = λ x. err [];
  from_slice = λ s. err [];
}

-- A network on which all goes well, and that answers with the status.
abbrev pub net_with : ℕ → Net
net_with status = record {
  parse_uri = λ t. ok (record {
    host = some (lit "example.com");
    port = none;
    scheme = some (lit "wss");
    path_and_query = some (lit "/hub");
  });
  tcp_connect = λ t. ok 1;
  build_request = λ r. ok tt;
  add_native_certs = ok tt;
  server_name = λ t. ok tt;
  tls_connect = λ c. ok 2;
  http_handshake = λ c. ok 3;
  send_request = λ c r. ok (record { status = status; body = ok [] });
  show_status = λ n. [];
  base64 = λ t. t;
}

abbrev pub sockets : Sockets
sockets = record {
  net = net_with 101;
  generate_key = lit "key";
  debug_text = λ t. t;
  upgrade = λ r. ok 4;
  write_frame = λ c t. ok tt;
  read_frame = λ c. ok (lit "{}");
  handshakes = record {
    to_string = λ x. ok (lit "{}");
    from_str = λ s. err [];
    to_vec = λ x. err [];
    from_slice = λ s. err [];
  };
}
