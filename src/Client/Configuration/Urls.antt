-- ===== src/Client/Configuration/Urls.antt =====
-- The negotiation URL and the socket URL of one configuration belong together.
use ac_signalr_client_lib_rs.Base.{
  ◌≡◌, refl, inl, inr, Bool-cases, [], ◌++◌, Text, lit, if◌then◌else◌,
}
use ac_signalr_client_lib_rs.Client.Configuration.{
  ConnectionConfiguration, get_web_url, get_socket_url, get_domain,
}

-- What follows `http` and `ws` in the two URLs: the `s` of a secure connection and the address.
pub suffix : ConnectionConfiguration → Text
suffix c = (if c.is_secure then lit "s" else []) ++ lit "://" ++ get_domain c ++ lit "/" ++ c.hub

-- The negotiation URL and the socket URL differ in the words `http` and `ws` alone: host, port, hub
-- and the `s` of a secure connection are the same in both.
urls_agree :
    (c : ConnectionConfiguration)
    → (get_web_url c ≡ lit "http" ++ suffix c) × (get_socket_url c ≡ lit "ws" ++ suffix c)
unfolding get_web_url get_socket_url suffix
urls_agree c = elim (Bool-cases c.is_secure) [
  | inl e ↦ rw (e, get_web_url, get_socket_url) (refl, refl)
  | inr e ↦ rw (e, get_web_url, get_socket_url) (refl, refl)
]
