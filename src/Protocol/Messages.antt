-- ===== src/Protocol/Messages.antt =====
-- src/protocol/messages.rs. What serde_json and rmp_serde do at a type is a parameter, a record of
-- its four functions; the byte strings that they return may be any.
use ac_signalr_client_lib_rs.Base.{
  ℕ, Bool, true, false, ◌&&◌, [], ◌∷◌, ◌++◌, Text, lit, Res, ok, map_ok, map_err, ◌>>=◌, ◌==◌,
  if◌then◌else◌,
}
use ac_signalr_client_lib_rs.Client.Configuration.{Protocol, json, message_pack}
use ac_signalr_client_lib_rs.Protocol.Utf8.{from_utf8}

-- `RECORD_SEPARATOR`, one byte of UTF-8.
abbrev pub separator : ℕ
separator = 0x1E

-- `serde_json::to_string`, `serde_json::from_str`, `rmp_serde::to_vec`, `rmp_serde::from_slice`.
pub record Serde {ℓ} (T : Type ℓ) : Type ℓ where
  pub to_string : T → Res Text
  pub from_str : Text → Res T
  pub to_vec : T → Res Text
  pub from_slice : Text → Res T

module _ {ℓ} {T : Type ℓ} where
  unfoldable pub serialize : Serde T → T → Protocol → Res Text
  serialize c value json = do
    serialized ← map_err (lit "JSON error: ") (c.to_string value)
    ok (serialized ++ separator ∷ [])
  serialize c value message_pack = do
    bytes ← map_err (lit "MessagePack error: ") (c.to_vec value)
    ok (bytes ++ separator ∷ [])

  unfoldable pub deserialize : Serde T → Text → Protocol → Res T
  deserialize c message json = do
    text ← map_err (lit "UTF-8 error: ") (from_utf8 message)
    c.from_str text
  deserialize c message message_pack = c.from_slice message

  -- `to_json`
  unfoldable pub to_json : Serde T → T → Res Text
  to_json c value = map_ok (λ s. s ++ separator ∷ []) (c.to_string value)

  -- `parse_message`
  unfoldable pub parse_message : Serde T → Text → Res T
  parse_message c message = c.from_str message

-- `to_json_value`, with what `serde_json::to_value` gives for a value.
unfoldable pub to_json_value {ℓ κ} : {T : Type ℓ} {V : Type κ} → (T → Res V) → T → Res V
to_json_value to_value value = to_value value

abbrev pub is_empty : Text → Bool
is_empty [] = true
is_empty (x ∷ xs) = false

-- `trim_end_matches`: the separators at the end go.
unfoldable pub strip_record_separator : Text → Text
strip_record_separator [] = []
strip_record_separator (c ∷ s) =
    let rest = strip_record_separator s in if is_empty rest && c == separator then [] else c ∷ rest
