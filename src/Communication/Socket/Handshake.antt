-- ===== src/Communication/Socket/Handshake.antt =====
-- What a connection needs, and what the handshake response does to it.
use ac_signalr_client_lib_rs.Base.{
  ℕ, ◌≡◌, refl, Text, Res, ok, err, map_err, ◌>>=◌, ◌>>◌, ◌==◌, arith, ◌++◌, lit, if◌then◌else◌,
  not, >>=-ok, map_err-ok, ok-injective, subst,
}
use ac_signalr_client_lib_rs.Client.Configuration.{as_str, json}
use ac_signalr_client_lib_rs.Protocol.Negotiate.{handshake_request}
use ac_signalr_client_lib_rs.Protocol.Messages.{serialize}
use ac_signalr_client_lib_rs.Communication.Http.{ConnectionData, Response}
use ac_signalr_client_lib_rs.Communication.Socket.{
  Sockets, request_upgrade, shake_hands, connect_socket,
}

switched :
    (status : ℕ) (message : Text) (k : Res ℕ) {c : ℕ}
    → (if not (status == 101) then err message else k) ≡ ok c
    → (status ≡ 101) × (k ≡ ok c)
switched status message k h = ground arith

shake_hands-needs :
    (n : Sockets) (d : ConnectionData) (c : ℕ)
    → shake_hands n d c ≡ ok tt
    → (bytes : Text) × (response : Text) × (serialize n.handshakes
          (handshake_request (as_str d.protocol))
          json
        ≡ ok bytes)
      × (n.write_frame c bytes ≡ ok tt)
      × (n.read_frame c ≡ ok response)
unfolding shake_hands
shake_hands-needs n d c h =
    let read : ℕ → Text → Res (Unit {0}) = λ ws bytes.
      map_err (lit "Handshake response read failed: ") (n.read_frame ws) >>= λ response. ok tt in
    let (bytes, e, h₁) =
      >>=-ok
        (map_err (lit "Handshake serialization failed: ")
          (serialize n.handshakes (handshake_request (as_str d.protocol)) json))
        (λ bytes. map_err (lit "Handshake send failed: ") (n.write_frame c bytes) >> read c bytes)
        h in
    let (u, w, h₂) =
      >>=-ok (map_err (lit "Handshake send failed: ") (n.write_frame c bytes)) (λ u. read c bytes)
        h₁ in
    let (response, r, _) =
      >>=-ok (map_err (lit "Handshake response read failed: ") (n.read_frame c)) (λ response. ok tt)
        h₂ in
    (
      bytes,
      response,
      map_err-ok (lit "Handshake serialization failed: ")
          (serialize n.handshakes (handshake_request (as_str d.protocol)) json) e,
      map_err-ok (lit "Handshake send failed: ") (n.write_frame c bytes) w,
      map_err-ok (lit "Handshake response read failed: ") (n.read_frame c) r,
    )

-- A connection is made only after the server answered the upgrade request with status 101, the
-- upgrade succeeded, the handshake for the configured protocol was written in JSON, and a frame was
-- read in answer.
pub connect_socket-needs :
    (n : Sockets) (d : ConnectionData) (c : ℕ)
    → connect_socket n d ≡ ok c
    → (res : Response) × (bytes : Text) × (response : Text) × (request_upgrade n d ≡ ok res)
      × (res.status ≡ 101)
      × (n.upgrade res ≡ ok c)
      × (serialize n.handshakes (handshake_request (as_str d.protocol)) json ≡ ok bytes)
      × (n.write_frame c bytes ≡ ok tt)
      × (n.read_frame c ≡ ok response)
unfolding connect_socket
connect_socket-needs n d c h =
    let opened : Response → Res ℕ = λ res.
      map_err (lit "Failed to upgrade: ") (n.upgrade res) >>= λ ws. shake_hands n d ws >> ok ws in
    let (res, e, h₁) =
      >>=-ok (request_upgrade n d)
        (λ res.
          if not (res.status == 101)
          then err (lit "Server did not upgrade to websocket: " ++ n.net.show_status res.status)
          else opened res)
        h in
    let (status, h₂) =
      switched res.status
        (lit "Server did not upgrade to websocket: " ++ n.net.show_status res.status) (opened res)
        h₁ in
    let (ws, up, h₃) =
      >>=-ok (map_err (lit "Failed to upgrade: ") (n.upgrade res))
        (λ ws. shake_hands n d ws >> ok ws) h₂ in
    let (u, shaken, last) = >>=-ok (shake_hands n d ws) (λ u. ok ws) h₃ in
    let same : ws ≡ c = ok-injective last in
    let (bytes, response, s, w, r) =
      shake_hands-needs n d c (subst (λ x. shake_hands n d x ≡ ok tt) same shaken) in
    (
      res,
      bytes,
      response,
      e,
      status,
      subst (λ x. n.upgrade res ≡ ok x) same
          (map_err-ok (lit "Failed to upgrade: ") (n.upgrade res) up),
      s,
      w,
      r,
    )

-- The handshake response is not looked at: where every read gives some frame, the connection is the
-- same whatever frames the server sends instead, also where they report an error.
pub handshake_response_ignored :
    (n : Sockets) (d : ConnectionData) (first other : ℕ → Text)
    → connect_socket (record n { read_frame = λ ws. ok (first ws) }) d
      ≡ connect_socket (record n { read_frame = λ ws. ok (other ws) }) d
unfolding connect_socket request_upgrade shake_hands
handshake_response_ignored n d first other = refl
