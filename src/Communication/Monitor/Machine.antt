-- ===== src/Communication/Monitor/Machine.antt =====
-- The connection state of a client as an abstract machine: what its steps may be, and which
-- connections they give up.
use ac_signalr_client_lib_rs.Base.{
  ℕ, ◌<◌, ◌≡◌, refl, sym, ap, ◌∙◌, Bool, if◌then◌else◌, List, [], ◌∷◌, ◌++◌, append-nil,
  append_assoc, arith,
}
use ac_signalr_client_lib_rs.Communication.Monitor.{
  ConnectionState, not_connected, connected, reconnecting, given_up,
}

-- The connection state, the largest generation that a connection has had, and the connections that
-- were given up.
pub record Machine : Type 0 where
  pub state : ConnectionState
  pub last : ℕ
  pub dropped : List ℕ

-- The state after a loss, by whether reconnecting is enabled.
abbrev pub after_loss : Bool → ConnectionState
after_loss enabled = if enabled then reconnecting else not_connected

-- Nothing changes; a connection is lost; the state is closed; or, without a connection, one is
-- installed under a new generation. The connection of a state that is left is given up. The list has
-- the connections that the turn installs.
pub data Turn (enabled : Bool) (m : Machine) : List ℕ → Machine → Type 0 where
  stays : Turn enabled m [] m
  loses :
      (g c : ℕ)
      → m.state ≡ connected g c
      → Turn enabled m [] (record m { state = after_loss enabled; dropped = m.dropped ++ c ∷ [] })
  closes :
      Turn enabled m []
        (record m { state = not_connected; dropped = m.dropped ++ given_up m.state })
  installs :
      (g c : ℕ)
      → given_up m.state ≡ []
      → m.last < g
      → Turn enabled m (c ∷ []) (record m { state = connected g c; last = g })

pub data Turns (enabled : Bool) (m : Machine) : List ℕ → Machine → Type 0 where
  none_yet : Turns enabled m [] m
  then_turn :
      {cs ds : List ℕ} {m' m'' : Machine}
      → Turns enabled m cs m'
      → Turn enabled m' ds m''
      → Turns enabled m (cs ++ ds) m''

-- Every connection that was installed is given up, once and in order, or is the current one.
Turn-dropped :
    {enabled : Bool} {m m' : Machine} {cs : List ℕ}
    → Turn enabled m cs m'
    → m'.dropped ++ given_up m'.state ≡ (m.dropped ++ given_up m.state) ++ cs
Turn-dropped {enabled} {m} stays = sym (append-nil (m.dropped ++ given_up m.state))
Turn-dropped {enabled} {m} (loses g c e) = ground arith
Turn-dropped {enabled} {m} closes = refl
Turn-dropped {enabled} {m} (installs g c d l) = ground (arith, append-nil m.dropped)

pub Turns-dropped :
    {enabled : Bool} {m m' : Machine} {cs : List ℕ}
    → Turns enabled m cs m'
    → m'.dropped ++ given_up m'.state ≡ (m.dropped ++ given_up m.state) ++ cs
Turns-dropped {enabled} {m} none_yet = sym (append-nil (m.dropped ++ given_up m.state))
Turns-dropped {enabled} {m} (then_turn {cs} {ds} r t) =
    Turn-dropped t
    ∙ ap (λ x. x ++ ds) (Turns-dropped r)
    ∙ append_assoc (m.dropped ++ given_up m.state) cs ds
