-- ===== src/Client/Calls/Examples.antt =====
-- The theorems on invocations at a concrete client.
use ac_signalr_client_lib_rs.Base.{
  ℕ, ◌≡◌, refl, some, [], ◌∷◌, Text, lit, Res, ok, err, lookup, get_elem?, text_eq, ◌++◌, show_nat,
  arith,
}
use ac_signalr_client_lib_rs.Client.Configuration.{json}
use ac_signalr_client_lib_rs.Client.Calls.{invoke_internal, clean_up}
use ac_signalr_client_lib_rs.Client.Calls.Endings.{
  meanwhile, message_comes, invoke_internal-clean_up,
}
use ac_signalr_client_lib_rs.Protocol.Messages.{Serde}
use ac_signalr_client_lib_rs.Communication.Monitor.{System}
use ac_signalr_client_lib_rs.Client.Calls.Answered.{invoke_internal-reader_step}
use ac_signalr_client_lib_rs.Protocol.Negotiate as Negotiate
use ac_signalr_client_lib_rs.Protocol.Negotiate.{Ping}
use ac_signalr_client_lib_rs.Protocol.Invoke.{into_result, with_arguments, argument, new_arguments}
use ac_signalr_client_lib_rs.Protocol.Utf8.{from_utf8}
use ac_signalr_client_lib_rs.Protocol.Messages.{separator, serialize, deserialize}
use ac_signalr_client_lib_rs.Completer.Future.{complete}
use ac_signalr_client_lib_rs.Execution.Storage.{Storage}
use ac_signalr_client_lib_rs.Execution.Dispatch.{create_key}
use ac_signalr_client_lib_rs.Communication.Monitor.{send}
use ac_signalr_client_lib_rs.Communication.Tasks.{
  text_frame, read_signalr_message_type, reader_step,
}
use ac_signalr_client_lib_rs.Fixtures.{
  reads, call_add, named_add, answer_3, codec_add, online_client,
}

abbrev constant {ℓ} : {T : Type ℓ} → Serde T
constant = record {
  to_string = λ x. ok (lit "{}");
  from_str = λ s. err (lit "unused");
  to_vec = λ x. err (lit "unused");
  from_slice = λ s. err (lit "unused");
}

abbrev open_queue : ℕ → Text → Res (Unit {0})
open_queue c bytes = ok tt

abbrev ping_reads : Serde Ping
ping_reads = reads (record { type = Negotiate.completion })

abbrev asked : System ℕ ℕ × Text × Res ℕ
asked =
    invoke_internal online_client open_queue (reads call_add) (reads answer_3) (lit "add")
      (some (ok 1 ∷ ok 2 ∷ []))

abbrev answered : Storage ℕ ℕ
answered =
    (reader_step ping_reads codec_add json asked.0.storage
      (ok (text_frame (lit "{}" ++ separator ∷ [])))).0

-- The answer names the key, but cannot be read at the type that the caller asked for.
abbrev unread : System ℕ ℕ × Text × Res ℕ
unread =
    invoke_internal online_client open_queue (reads call_add) constant (lit "add")
      (some (ok 1 ∷ ok 2 ∷ []))

invoke_internal-clean_up_example :
    (clean_up
      (meanwhile ping_reads codec_add unread.0 (message_comes (lit "{}")))
      unread.1).storage.actions.inner
    ≡ []
unfolding lookup text_eq deserialize read_signalr_message_type create_key from_utf8
    Negotiate.message_type show_nat
invoke_internal-clean_up_example =
    invoke_internal-clean_up online_client open_queue (reads call_add) constant (lit "add")
      (some (ok 1 ∷ ok 2 ∷ [])) ping_reads codec_add (message_comes (lit "{}")) refl refl
      (((λ e. cc), omega arith), refl, refl, (named_add, refl, refl))

invoke_internal-reader_step_example :
    (get_elem? answered.heap.futures 0 ≡ some (complete (some (into_result answer_3))))
    × (answered.actions.inner ≡ [])
unfolding lookup text_eq deserialize read_signalr_message_type invoke_internal create_key send
    from_utf8 with_arguments argument new_arguments serialize Negotiate.message_type show_nat
invoke_internal-reader_step_example =
    invoke_internal-reader_step online_client open_queue (reads call_add) (reads answer_3)
      (lit "add") (some (ok 1 ∷ ok 2 ∷ [])) 0 ping_reads codec_add (lit "{}") named_add answer_3
      refl refl refl ((λ e. cc), omega arith) refl refl refl refl refl
