-- ===== src/Client/Configuration.antt =====
-- src/client/configuration.rs: the protocol and authentication enums, the reconnect policy and the
-- connection options with their setters and the URLs that they give.
-- A `Duration` is its number of nanoseconds, at most `duration_max`; a `&mut self` setter returns
-- the new record.
pub mod Backoff
pub mod Urls
mod Examples
use ac_signalr_client_lib_rs.Base.{
  ℕ, ◌+◌, ◌-◌, ◌*◌, ◌%◌, ◌^◌, min, max, ◌++◌, List, [], ◌∷◌, Bool, true, false, Option, none, some,
  Text, lit, show_int, ℤ, ltb, if◌then◌else◌,
}

pub data Protocol : Type 0 where
  json message_pack : Protocol

-- `Protocol::as_str`
unfoldable pub as_str : Protocol → Text
as_str json = lit "json"
as_str message_pack = lit "messagepack"

pub data Authentication : Type 0 where
  no_auth : Authentication
  basic : Text → Option Text → Authentication
  bearer : Text → Authentication

-- `Duration::MAX`: u64::MAX seconds and 999,999,999 nanoseconds.
abbrev pub duration_max : ℕ
duration_max = (2 ^ 64 - 1) * 1000000000 + 999999999

-- `Duration::from_secs`
abbrev pub from_secs : ℕ → ℕ
from_secs s = s * 1000000000

-- `Duration::saturating_mul`
abbrev pub saturating_mul : ℕ → ℕ → ℕ
saturating_mul d m = min (d * m) duration_max

-- `u32::checked_shl`: none for a shift by 32 bits or more; the bits above 2^32 are lost.
abbrev pub checked_shl : ℕ → ℕ → Option ℕ
checked_shl x k = if ltb k 32 then some (x * 2 ^ k % 2 ^ 32) else none

-- `unwrap_or`
abbrev pub unwrap_or : Option ℕ → ℕ → ℕ
unwrap_or none d = d
unwrap_or (some x) d = x

pub record ReconnectPolicy : Type 0 where
  pub enabled : Bool
  pub initial_delay : ℕ
  pub max_delay : ℕ
  pub max_attempts : Option ℕ

abbrev pub default_initial_delay : ℕ
default_initial_delay = from_secs 1

abbrev pub default_max_delay : ℕ
default_max_delay = from_secs 30

-- `ReconnectPolicy::disabled`
unfoldable pub disabled : ReconnectPolicy
disabled = record {
  enabled = false;
  initial_delay = default_initial_delay;
  max_delay = default_max_delay;
  max_attempts = none;
}

-- `saturating_sub(1) as u32` keeps the low 32 bits of the `usize`.
abbrev pub shift_of : ℕ → ℕ
shift_of attempt = (attempt - 1) % 2 ^ 32

unfoldable pub multiplier : ℕ → ℕ
multiplier shift = unwrap_or (checked_shl 1 shift) (2 ^ 32 - 1)

unfoldable pub delay_for_attempt : ReconnectPolicy → ℕ → ℕ
delay_for_attempt p attempt =
    min (saturating_mul p.initial_delay (multiplier (shift_of attempt))) p.max_delay

pub record ConnectionConfiguration : Type 0 where
  pub is_secure : Bool
  pub domain : Text
  pub hub : Text
  pub port : Option ℤ
  pub authentication : Authentication
  pub skips_negotiation : Bool
  pub protocol : Protocol
  pub reconnect : ReconnectPolicy
  pub deferred_message_capacity : ℕ

-- `ConnectionConfiguration::new`
unfoldable pub new : Text → Text → ConnectionConfiguration
unfolding disabled
new domain hub = record {
  is_secure = true;
  domain = domain;
  hub = hub;
  port = none;
  authentication = no_auth;
  skips_negotiation = false;
  protocol = json;
  reconnect = disabled;
  deferred_message_capacity = 4096;
}

-- The setters that the `options` closure of `connect_with` can call, with their arguments.
pub data Setting : Type 0 where
  with_port : ℤ → Setting
  with_hub : Text → Setting
  secure : Setting
  unsecure : Setting
  authenticate_basic : Text → Option Text → Setting
  authenticate_bearer : Text → Setting
  skip_negotiation : Setting
  with_protocol : Protocol → Setting
  with_deferred_message_capacity : ℕ → Setting
  with_auto_reconnect : Setting
  without_auto_reconnect : Setting
  with_reconnect_delays : ℕ → ℕ → Setting
  with_max_reconnect_attempts : ℕ → Setting
  with_unlimited_reconnect_attempts : Setting

-- One setter: its method's body.
unfoldable pub apply : ConnectionConfiguration → Setting → ConnectionConfiguration
apply c (with_port p) = record c { port = some p }
apply c (with_hub h) = record c { hub = h }
apply c secure = record c { is_secure = true }
apply c unsecure = record c { is_secure = false }
apply c (authenticate_basic user password) = record c { authentication = basic user password }
apply c (authenticate_bearer token) = record c { authentication = bearer token }
apply c skip_negotiation = record c { skips_negotiation = true }
apply c (with_protocol p) = record c { protocol = p }
apply c (with_deferred_message_capacity n) = record c { deferred_message_capacity = n }
apply c with_auto_reconnect = record c { reconnect = record c.reconnect { enabled = true } }
apply c without_auto_reconnect = record c { reconnect = record c.reconnect { enabled = false } }
apply c (with_reconnect_delays initial most) = record c {
  reconnect = record c.reconnect { initial_delay = initial; max_delay = max most initial };
}
apply c (with_max_reconnect_attempts n) = record c {
  reconnect = record c.reconnect { max_attempts = some n };
}
apply c with_unlimited_reconnect_attempts = record c {
  reconnect = record c.reconnect { max_attempts = none };
}

-- The closure: its calls in order.
unfoldable pub configure : ConnectionConfiguration → List Setting → ConnectionConfiguration
configure c [] = c
configure c (s ∷ ss) = configure (apply c s) ss

unfoldable pub get_http_schema : ConnectionConfiguration → Text
get_http_schema c = if c.is_secure then lit "https" else lit "http"

unfoldable pub get_socket_schema : ConnectionConfiguration → Text
get_socket_schema c = if c.is_secure then lit "wss" else lit "ws"

abbrev domain_with : Text → Option ℤ → Text
domain_with d (some p) = d ++ lit ":" ++ show_int p
domain_with d none = d

unfoldable pub get_domain : ConnectionConfiguration → Text
get_domain c = domain_with c.domain c.port

unfoldable pub get_web_url : ConnectionConfiguration → Text
unfolding get_http_schema get_domain
get_web_url c = get_http_schema c ++ lit "://" ++ get_domain c ++ lit "/" ++ c.hub

unfoldable pub get_socket_url : ConnectionConfiguration → Text
unfolding get_socket_schema get_domain
get_socket_url c = get_socket_schema c ++ lit "://" ++ get_domain c ++ lit "/" ++ c.hub
