-- ===== src/Client/Calls/Enumerated/Examples.antt =====
-- The theorems on enumerations and on taken keys at concrete calls.
use ac_signalr_client_lib_rs.Base.{
  ℕ, ◌≡◌, refl, none, some, List, [], ◌∷◌, ◌++◌, map, Text, lit, Res, ok, err, get_elem?, lookup,
  insert, text_eq, show_nat,
}
use ac_signalr_client_lib_rs.Fixtures.{
  reads, codec_add, call_add, named_add, answer_3, item_5, online_client,
}
use ac_signalr_client_lib_rs.Client.Configuration.{json}
use ac_signalr_client_lib_rs.Completer.Stream.{StreamState}
use ac_signalr_client_lib_rs.Completer.Future.{complete}
use ac_signalr_client_lib_rs.Protocol.Utf8.{from_utf8}
use ac_signalr_client_lib_rs.Protocol.Negotiate as Negotiate
use ac_signalr_client_lib_rs.Protocol.Messages.{serialize, deserialize}
use ac_signalr_client_lib_rs.Execution.Storage.{Storage}
use ac_signalr_client_lib_rs.Execution.Dispatch.{create_key, process_message}
use ac_signalr_client_lib_rs.Execution.Dispatch.Streaming.{IsFor, IsItem, process_items}
use ac_signalr_client_lib_rs.Communication.Monitor.{System, send}
use ac_signalr_client_lib_rs.Client.Calls.{invoke_internal, enumerate_internal, clean_up}
use ac_signalr_client_lib_rs.Client.Calls.Enumerated.{
  feeds, enumeration_sent, enumerate_internal-process_items,
}
use ac_signalr_client_lib_rs.Client.Calls.Taken.{invoke_internal-clean_up_taken}
use ac_signalr_client_lib_rs.Client.Handles.{register}

abbrev open_queue : ℕ → Text → Res (Unit {0})
open_queue c bytes = ok tt

abbrev called : System ℕ ℕ × ℕ
called =
    enumerate_internal online_client open_queue (reads call_add) (reads answer_3) (reads item_5)
      (lit "add") none

abbrev two_items : List (Text × ℕ)
two_items = (lit "{}", 5) ∷ (lit "{}", 5) ∷ []

braces-IsFor :
    IsFor codec_add
      (lit "add_1")
      (feeds (reads answer_3) (reads item_5) (lit "add_1") 0)
      json
      (lit "{}")
unfolding deserialize from_utf8
braces-IsFor = (named_add, refl, refl)

braces-IsItem :
    IsItem codec_add
      (lit "add_1")
      (feeds (reads answer_3) (reads item_5) (lit "add_1") 0)
      json
      (lit "{}", 5)
unfolding deserialize from_utf8
braces-IsItem = (braces-IsFor, item_5, refl, refl)

abbrev finished : Storage ℕ ℕ
finished =
    (process_message codec_add
      (process_items codec_add (lit "add_1")
        (feeds (reads answer_3) (reads item_5) (lit "add_1") called.1) json called.0.storage
        two_items)
      (lit "{}") Negotiate.completion json).0

enumerate_internal-process_items_example :
    (enumeration_sent
          (reads answer_3)
          (reads item_5)
          online_client
          open_queue
          (reads call_add)
          (lit "add")
          none
        ≡ ok tt
      → (st : StreamState ℕ) × (get_elem? finished.heap.streams called.1 ≡ some st)
        × (st.queue ≡ map (λ x. some x.1) two_items ++ none ∷ none ∷ [])
        × (finished.actions.inner ≡ []))
    × ((e : Text)
        → enumeration_sent
            (reads answer_3)
            (reads item_5)
            online_client
            open_queue
            (reads call_add)
            (lit "add")
            none
          ≡ err e
        → (get_elem? called.0.storage.heap.streams called.1
            ≡ some (record { queue = none ∷ []; waker = none }))
          × (called.0.storage.actions.inner ≡ []))
unfolding lookup create_key deserialize from_utf8 show_nat
enumerate_internal-process_items_example =
    enumerate_internal-process_items (reads answer_3) (reads item_5) online_client open_queue
      (reads call_add) (lit "add") none codec_add json two_items (lit "{}") answer_3 refl refl
      (braces-IsItem, (braces-IsItem, tt)) braces-IsFor refl

-- A callback for the target that spells the key of the next invocation.
abbrev collision : System ℕ ℕ
collision = (register codec_add online_client (lit "add_1") 7).0

abbrev refused : System ℕ ℕ
refused =
    (invoke_internal collision open_queue (reads call_add) (reads answer_3) (lit "add") none).0

invoke_internal-clean_up_taken_example :
    (refused.storage.actions ≡ collision.storage.actions)
    × (get_elem? refused.storage.heap.futures 0
        ≡ some (complete (some (err (lit "Invocation was cancelled")))))
    × (lookup (lit "add_1") (clean_up refused (lit "add_1")).storage.actions.inner ≡ none)
unfolding lookup text_eq insert register create_key show_nat invoke_internal send serialize
invoke_internal-clean_up_taken_example =
    invoke_internal-clean_up_taken collision open_queue (reads call_add) (reads answer_3)
      (lit "add") none 0 refl refl refl
