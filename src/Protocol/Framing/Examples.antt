-- ===== src/Protocol/Framing/Examples.antt =====
-- The framing theorems at concrete frames, and a serializer of truth values that meets `IsJson`.
use ac_signalr_client_lib_rs.Base.{
  ◌≡◌, ◌↔◌, refl, [], ◌∷◌, ◌++◌, Text, lit, Bool, true, false, if◌then◌else◌, Res, ok, err, arith,
  text_eq, subst, ok-injective,
}
use ac_signalr_client_lib_rs.Protocol.Utf8.{from_utf8}
use ac_signalr_client_lib_rs.Protocol.Utf8.Pieces.{IsUtf8}
use ac_signalr_client_lib_rs.Protocol.Messages.{separator, Serde, serialize, strip_record_separator}
use ac_signalr_client_lib_rs.Protocol.Framing.{get_messages_text, get_messages_binary}
use ac_signalr_client_lib_rs.Protocol.Framing.Cut.{IsMessage}
use ac_signalr_client_lib_rs.Protocol.Framing.Roundtrip.{
  join, get_messages_binary-join, get_messages_binary_iff, IsJson, serialize_all, deserialize_all,
  deserialize_all-serialize_all,
}

-- Two messages, an empty one between them.
abbrev frame : Text
frame = 65 ∷ 66 ∷ separator ∷ separator ∷ 67 ∷ separator ∷ []

frame_messages : get_messages_binary frame ≡ (65 ∷ 66 ∷ []) ∷ (67 ∷ []) ∷ []
unfolding get_messages_binary
frame_messages = refl

-- The array of the number 30 in MessagePack is cut in two.
pack_30 : get_messages_binary (0x92 ∷ 0x1E ∷ 0x07 ∷ separator ∷ []) ≡ (0x92 ∷ []) ∷ (0x07 ∷ []) ∷ []
unfolding get_messages_binary
pack_30 = refl

test_strip_record_separator :
    strip_record_separator (lit "test" ++ separator ∷ separator ∷ []) ≡ lit "test"
unfolding strip_record_separator
test_strip_record_separator = refl

get_messages_binary-join_example :
    get_messages_binary (join ((65 ∷ []) ∷ (66 ∷ []) ∷ [])) ≡ (65 ∷ []) ∷ (66 ∷ []) ∷ []
get_messages_binary-join_example =
    get_messages_binary-join ((65 ∷ []) ∷ (66 ∷ []) ∷ [])
      (((λ e. cc), omega arith), (((λ e. cc), omega arith), tt))

get_messages_binary_iff_example :
    (get_messages_binary (0x92 ∷ 0x1E ∷ 0x07 ∷ separator ∷ []) ≡ (0x92 ∷ 0x1E ∷ 0x07 ∷ []) ∷ [])
    ↔ IsMessage (0x92 ∷ 0x1E ∷ 0x07 ∷ [])
get_messages_binary_iff_example = get_messages_binary_iff (0x92 ∷ 0x1E ∷ 0x07 ∷ [])

abbrev bool_text : Bool → Text
bool_text true = lit "true"
bool_text false = lit "false"

abbrev read_bool : Text → Res Bool
read_bool s =
    if text_eq s (lit "true")
    then ok true
    else if text_eq s (lit "false")
    then ok false
    else err (lit "expected a boolean")

abbrev bool_serde : Serde Bool
bool_serde = record {
  to_string = λ b. ok (bool_text b);
  from_str = read_bool;
  to_vec = λ b. ok ((if b then 0xC3 else 0xC2) ∷ []);
  from_slice = λ s. err (lit "not used");
}

bool_reads_back : (b : Bool) → read_bool (bool_text b) ≡ ok b
unfolding text_eq
bool_reads_back true = refl
bool_reads_back false = refl

bool-IsMessage : (b : Bool) → IsMessage (bool_text b)
bool-IsMessage true = ((λ e. cc), omega arith)
bool-IsMessage false = ((λ e. cc), omega arith)

bool-IsUtf8 : (b : Bool) → IsUtf8 (bool_text b)
unfolding from_utf8
bool-IsUtf8 true = refl
bool-IsUtf8 false = refl

bool-IsJson : IsJson bool_serde
bool-IsJson = record {
  reads_back = λ v s e. subst (λ t. read_bool t ≡ ok v) (ok-injective e) (bool_reads_back v);
  is_message = λ v s e. subst IsMessage (ok-injective e) (bool-IsMessage v);
  is_utf8 = λ v s e. subst IsUtf8 (ok-injective e) (bool-IsUtf8 v);
}

abbrev sent : Text
sent = join (lit "true" ∷ lit "false" ∷ [])

sent_bytes : serialize_all bool_serde (true ∷ false ∷ []) ≡ ok sent
unfolding serialize_all serialize join
sent_bytes = refl

deserialize_all-serialize_all_example :
    deserialize_all bool_serde (get_messages_text sent) ≡ ok true ∷ ok false ∷ []
deserialize_all-serialize_all_example =
    deserialize_all-serialize_all bool_serde bool-IsJson (true ∷ false ∷ []) sent sent_bytes
