-- ===== src/Execution/Dispatch/Examples.antt =====
-- The theorems on storages at concrete ones.
use ac_signalr_client_lib_rs.Base.{
  ℕ, ◌≤◌, ◌≡◌, refl, some, none, List, [], ◌∷◌, ◌++◌, Text, lit, ok, err, length, last_of, unlocked,
  lookup, arith, text_eq,
}
use ac_signalr_client_lib_rs.Client.Configuration.{message_pack}
use ac_signalr_client_lib_rs.Protocol.Negotiate as Negotiate
use ac_signalr_client_lib_rs.Protocol.Invoke.{Invocation, Completion, PossibleInvocation}
use ac_signalr_client_lib_rs.Protocol.Messages.{Serde, deserialize}
use ac_signalr_client_lib_rs.Execution.Actions.{InvocationAction, invocation_action}
use ac_signalr_client_lib_rs.Execution.Storage.{Storage, Deferred, empty_heap}
use ac_signalr_client_lib_rs.Execution.Storage.Deferral.{queue, IsUnregistered, defer_all}
use ac_signalr_client_lib_rs.Execution.Dispatch.{Codec, add_callback, process_message}
use ac_signalr_client_lib_rs.Execution.Dispatch.Keys.{
  create_keys, AreDistinct, create_keys-AreDistinct,
}
use ac_signalr_client_lib_rs.Execution.Dispatch.Completions.{Awaits, undecodable_stays}
use ac_signalr_client_lib_rs.Execution.Dispatch.Registration.{calls_for, add_callback-defer_all}

-- A serializer that reads one value whatever the bytes are, and one that reads nothing.
abbrev reads {ℓ} : {T : Type ℓ} → T → Serde T
reads v = record {
  to_string = λ x. err (lit "unused");
  from_str = λ s. ok v;
  to_vec = λ x. err (lit "unused");
  from_slice = λ s. ok v;
}

abbrev refuses {ℓ} : {T : Type ℓ} → Serde T
refuses = record {
  to_string = λ x. err (lit "unused");
  from_str = λ s. err (lit "wrong type");
  to_vec = λ x. err (lit "unused");
  from_slice = λ s. err (lit "wrong type");
}

abbrev call_add : Invocation ℕ
call_add = record {
  type = Negotiate.invocation;
  headers = none;
  id = none;
  target = lit "add";
  arguments = some (1 ∷ 2 ∷ []);
  stream_ids = none;
}

abbrev named_add : PossibleInvocation
named_add = record {
  type = Negotiate.completion;
  headers = none;
  invocation_id = some (lit "add_1");
  target = none;
}

abbrev codec : Codec ℕ
codec = record {
  invocations = reads call_add;
  possible_invocations = reads named_add;
  lossy = λ s. s;
}

abbrev result : Completion ℕ
result = record {
  type = Negotiate.completion;
  headers = none;
  invocation_id = lit "add_1";
  result = some 3;
  error = none;
}

abbrev empty : Storage ℕ ℕ
empty = record {
  actions = unlocked [];
  deferred_messages = unlocked [];
  deferred_message_capacity = 2;
  index = unlocked 0;
  heap = empty_heap;
}

abbrev pending : Serde (Completion ℕ) → InvocationAction ℕ
pending completions = record {
  invocation_id = lit "add_1";
  completer = some 0;
  completions = completions;
}

abbrev waiting_storage : Serde (Completion ℕ) → Storage ℕ ℕ
waiting_storage completions = record empty {
  actions = unlocked ((lit "add_1", unlocked (invocation_action (pending completions))) ∷ []);
}

abbrev payload : Text
payload = 0x93 ∷ []

awaits :
    (completions : Serde (Completion ℕ))
    → Awaits codec
        (waiting_storage completions)
        (lit "add_1")
        (pending completions)
        0
        payload
        message_pack
unfolding deserialize text_eq lookup
awaits completions = record {
  named = named_add;
  reads = refl;
  names = refl;
  sound = refl;
  found = refl;
  is_open = refl;
}

undecodable_stays_example :
    process_message codec (waiting_storage refuses) payload Negotiate.completion message_pack
    ≡ (waiting_storage refuses, err (lit "wrong type"))
unfolding deserialize
undecodable_stays_example =
    undecodable_stays codec (waiting_storage refuses) (lit "add_1") (pending refuses) 0 payload
      message_pack (awaits refuses) (lit "wrong type") refl

abbrev early : Text → Deferred
early bytes = record {
  message = bytes;
  message_type = Negotiate.invocation;
  protocol = message_pack;
}

abbrev three : List Deferred
three = early (1 ∷ []) ∷ early (2 ∷ []) ∷ early (3 ∷ []) ∷ []

empty-IsUnregistered : IsUnregistered empty (lit "add")
unfolding lookup
empty-IsUnregistered = record { vacant = refl; actions_sound = refl; deferred_sound = refl }

empty_queue : length (queue empty (lit "add")) ≤ 2
unfolding queue lookup
empty_queue = omega arith

create_keys-AreDistinct_example :
    AreDistinct (create_keys empty (lit "a" ∷ lit "a_1" ∷ lit "a" ∷ []))
create_keys-AreDistinct_example =
    create_keys-AreDistinct empty (lit "a" ∷ lit "a_1" ∷ lit "a" ∷ []) (omega arith)

add_callback-defer_all_example :
    ((add_callback codec (defer_all codec.lossy empty (lit "add") three) (lit "add") 7).heap.calls
      ≡ empty.heap.calls ++ calls_for codec 7 (last_of 2 (queue empty (lit "add") ++ three)))
    × (queue
          (add_callback codec (defer_all codec.lossy empty (lit "add") three) (lit "add") 7)
          (lit "add")
        ≡ [])
add_callback-defer_all_example =
    add_callback-defer_all codec (lit "add") 7 empty three empty-IsUnregistered empty_queue
