-- ===== src/Protocol/Framing.antt =====
-- The cutting of a frame into messages: `get_messages_text` and `get_messages_binary` of
-- src/communication/client_tokio.rs. A `String` is its bytes, and the separator is one byte.
pub mod Cut
pub mod Roundtrip
mod Examples
use ac_signalr_client_lib_rs.Base.{
  ℕ, zero, suc, ◌+◌, List, [], ◌∷◌, ◌++◌, map, Option, none, some, Text, length, drop, ◌==◌,
  if◌then◌else◌,
}
use ac_signalr_client_lib_rs.Protocol.Messages.{separator, strip_record_separator, is_empty}

abbrev onto_first : ℕ → List Text → List Text
onto_first c [] = (c ∷ []) ∷ []
onto_first c (p ∷ ps) = (c ∷ p) ∷ ps

-- `str::split`: one piece more than there are separators.
unfoldable pub split : Text → List Text
split [] = [] ∷ []
split (c ∷ s) = let rest = split s in if c == separator then [] ∷ rest else onto_first c rest

-- `filter(|s| !s.is_empty())`
unfoldable pub nonempty : List Text → List Text
nonempty [] = []
nonempty (p ∷ ps) = let rest = nonempty ps in if is_empty p then rest else p ∷ rest

unfoldable pub get_messages_text : Text → List Text
get_messages_text message = nonempty (map strip_record_separator (split message))

-- `windows(1).position(..)`: the index of the first separator.
unfoldable pub position : Text → Option ℕ
position [] = none
position (c ∷ s) =
    if c == separator then some 0 else elim (position s) [ none ↦ none | some i ↦ some (suc i) ]

unfoldable pub take : ℕ → Text → Text
take zero s = []
take (suc n) [] = []
take (suc n) (c ∷ s) = c ∷ take n s

-- `if !data.is_empty() { messages.push(data) }`
abbrev push_nonempty : List Text → Text → List Text
push_nonempty messages s = if is_empty s then messages else messages ++ s ∷ []

-- The `while let` loop, with fuel, and the push after it. `split_off(pos)` leaves the bytes before
-- the separator in `data`, and `drain(..1)` takes the separator off the rest.
binary_loop : ℕ → Text → List Text → List Text
unfolding take
binary_loop zero s messages = messages
binary_loop (suc fuel) s messages = elim (position s) [
  | none ↦ push_nonempty messages s
  | some pos ↦ binary_loop fuel (drop (suc pos) s) (push_nonempty messages (take pos s))
]

-- Each round takes a byte at least off the data, so its length is fuel enough.
unfoldable pub get_messages_binary : Text → List Text
unfolding binary_loop position
get_messages_binary s = binary_loop (suc (length s)) s []
