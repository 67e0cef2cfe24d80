-- ===== src/Client/Context/Examples.antt =====
-- The theorem on arguments at truth values.
use ac_signalr_client_lib_rs.Base.{
  ◌≡◌, refl, ap, subst, Bool, true, false, Option, none, some, List, [], ◌∷◌, ◌++◌, Text, Dict, lit,
  Res, ok, err, text_eq, text_eq_iff, lookup, unlocked, if◌then◌else◌, arith,
}
use ac_signalr_client_lib_rs.Fixtures.{reads}
use ac_signalr_client_lib_rs.Client.Configuration.{json}
use ac_signalr_client_lib_rs.Protocol.Negotiate as Negotiate
use ac_signalr_client_lib_rs.Protocol.Negotiate.{Ping}
use ac_signalr_client_lib_rs.Protocol.Invoke.{Invocation}
use ac_signalr_client_lib_rs.Protocol.Messages.{Serde, separator, deserialize}
use ac_signalr_client_lib_rs.Protocol.Utf8.{from_utf8}
use ac_signalr_client_lib_rs.Protocol.Utf8.Pieces.{IsUtf8}
use ac_signalr_client_lib_rs.Protocol.Framing.Cut.{IsMessage}
use ac_signalr_client_lib_rs.Protocol.Framing.Roundtrip.{IsJson}
use ac_signalr_client_lib_rs.Execution.Actions.{callback_action}
use ac_signalr_client_lib_rs.Execution.Storage.{Storage, empty_heap}
use ac_signalr_client_lib_rs.Execution.Dispatch.{Codec}
use ac_signalr_client_lib_rs.Execution.Dispatch.Registration.{registered}
use ac_signalr_client_lib_rs.Communication.Tasks.{
  text_frame, read_signalr_message_type, reader_step,
}
use ac_signalr_client_lib_rs.Communication.Tasks.Delivery.{IsFramed, says}
use ac_signalr_client_lib_rs.Client.Context.{Values, create_context, context_argument}
use ac_signalr_client_lib_rs.Client.Context.Arguments.{IsPrinted, context_argument-reader_step}

abbrev bool_text : Bool → Text
bool_text true = lit "true"
bool_text false = lit "false"

abbrev bools : Values Bool
bools = record { print = bool_text; debug_str = λ b. lit "None" }

abbrev bool_serde : Serde Bool
bool_serde = record {
  to_string = λ b. ok (bool_text b);
  from_str = λ s. if text_eq s (lit "true") then ok true else ok false;
  to_vec = λ b. ok (bool_text b);
  from_slice = λ s. err (lit "unused");
}

bool_parses : (b : Bool) → bool_serde.from_str (bools.print b) ≡ ok b
unfolding text_eq
bool_parses true = refl
bool_parses false = refl

bools-IsPrinted : IsPrinted bools bool_serde (λ b. b)
bools-IsPrinted = record { parses = bool_parses }

abbrev flags : List Bool
flags = true ∷ false ∷ []

-- The invocation that arrives, and a serializer that writes it alone.
abbrev set_flags : Invocation Bool
set_flags = record {
  type = Negotiate.invocation;
  headers = none;
  id = none;
  target = lit "set";
  arguments = some flags;
  stream_ids = none;
}

abbrev flags_text : Text
flags_text = lit "{\"type\":1,\"target\":\"set\",\"arguments\":[true,false]}"

abbrev write_fields :
    Negotiate.MessageType
    → Option (Dict Text)
    → Option Text
    → Bool
    → Option (List Bool)
    → Option (List Text)
    → Res Text
write_fields Negotiate.invocation none none true (some (true ∷ false ∷ [])) none = ok flags_text
write_fields _ _ _ _ _ _ = err (lit "unused")

abbrev write_invocation : Invocation Bool → Res Text
write_invocation v =
    write_fields v.type v.headers v.id (text_eq v.target (lit "set")) v.arguments v.stream_ids

abbrev flag_codec : Codec Bool
flag_codec = record {
  invocations = record (reads set_flags) { to_string = write_invocation };
  possible_invocations = reads (record {
    type = Negotiate.invocation;
    headers = none;
    invocation_id = none;
    target = some (lit "set");
  });
  lossy = λ s. s;
}

write_invocation-ok :
    (v : Invocation Bool) (s : Text)
    → write_invocation v ≡ ok s
    → (flags_text ≡ s) × (set_flags ≡ v)
write_invocation-ok v s e = ground (arith, text_eq_iff v.target (lit "set"))

flags_text-IsFramed : IsFramed json (says flags_text)
unfolding from_utf8
flags_text-IsFramed = ground arith

flag_codec-IsJson : IsJson flag_codec.invocations
flag_codec-IsJson = record {
  reads_back = λ v s e. ap ok (write_invocation-ok v s e).1;
  is_message = λ v s e. subst IsMessage (write_invocation-ok v s e).0 flags_text-IsFramed.0;
  is_utf8 = λ v s e. subst IsUtf8 (write_invocation-ok v s e).0 flags_text-IsFramed.1;
}

abbrev ping_reads : Serde Ping
ping_reads = reads (record { type = Negotiate.invocation })

abbrev listening : Storage Bool Bool
listening = record {
  actions =
      unlocked ((lit "set", unlocked (callback_action (registered flag_codec (lit "set") 5))) ∷ []);
  deferred_messages = unlocked [];
  deferred_message_capacity = 2;
  index = unlocked 0;
  heap = empty_heap;
}

context_argument-reader_step_example :
    ((reader_step ping_reads flag_codec json listening
        (ok (text_frame (flags_text ++ separator ∷ [])))).0
      ≡ record listening { heap = record listening.heap { calls = [] ++ (5, set_flags) ∷ [] } })
    × (context_argument bools bool_serde (create_context set_flags) 1 ≡ ok false)
unfolding lookup text_eq read_signalr_message_type deserialize Negotiate.message_type from_utf8
context_argument-reader_step_example =
    context_argument-reader_step bools bool_serde (λ b. b) flag_codec listening 5 set_flags flags 1
      ping_reads flags_text bools-IsPrinted flag_codec-IsJson
      (record { sound = refl; found = refl }) refl refl refl
