-- ===== src/Communication/Http/Fit.antt =====
-- When a negotiation gives a connection, and which.
use ac_signalr_client_lib_rs.Base.{◌≡◌, ◌≢◌, Text, List, ◌∷◌}
use ac_signalr_client_lib_rs.Client.Configuration.{Protocol}
use ac_signalr_client_lib_rs.Protocol.Negotiate.{NegotiateResponseV0, TransportSpec}
use ac_signalr_client_lib_rs.Communication.Http.{transfer_format, web_socket_transport}

-- The first transport of the name, in the order of the server's list.
pub data IsFirst : Text → TransportSpec → List TransportSpec → Type 0 where
  head :
      {name : Text} {t : TransportSpec} {ts : List TransportSpec}
      → t.transport ≡ name
      → IsFirst name t (t ∷ ts)
  later :
      {name : Text} {t u : TransportSpec} {ts : List TransportSpec}
      → u.transport ≢ name
      → IsFirst name t ts
      → IsFirst name t (u ∷ ts)

pub data IsIn : Text → List Text → Type 0 where
  here : {x : Text} {xs : List Text} → IsIn x (x ∷ xs)
  there : {x y : Text} {xs : List Text} → IsIn x xs → IsIn x (y ∷ xs)

-- The server offers what the protocol needs: its first WebSocket transport has the format.
pub record Offers (r : NegotiateResponseV0) (p : Protocol) : Type 0 where
  pub transport : TransportSpec
  pub is_first : IsFirst web_socket_transport transport r.available_transports
  pub has_format : IsIn (transfer_format p) transport.transfer_formats
