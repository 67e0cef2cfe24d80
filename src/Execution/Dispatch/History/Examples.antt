-- ===== src/Execution/Dispatch/History/Examples.antt =====
-- The theorems on histories at a concrete one.
use ac_signalr_client_lib_rs.Base.{
  ℕ, ◌≡◌, ◌⊎◌, refl, Option, none, some, ◌++◌, List, [], ◌∷◌, lit, err, get_elem?, lookup, text_eq,
  insert,
}
use ac_signalr_client_lib_rs.Fixtures.{reads, codec_add, answer_3, item_5}
use ac_signalr_client_lib_rs.Client.Configuration.{json}
use ac_signalr_client_lib_rs.Protocol.Negotiate as Negotiate
use ac_signalr_client_lib_rs.Completer.Future.{complete}
use ac_signalr_client_lib_rs.Completer.Stream.{StreamState, create}
use ac_signalr_client_lib_rs.Client.Calls.Enumerated.{feeds}
use ac_signalr_client_lib_rs.Execution.Storage.Ended.{AreEnds, cancel_pending_ends}
use ac_signalr_client_lib_rs.Execution.Heap.Open.{open_at}
use ac_signalr_client_lib_rs.Execution.Storage.{Storage, new, cancel_pending}
use ac_signalr_client_lib_rs.Execution.Storage.Ownership.{IsOwned}
use ac_signalr_client_lib_rs.Execution.Storage.Cancelled.{callbacks_of}
use ac_signalr_client_lib_rs.Execution.Storage.Answers.{cancel_pending_lem}
use ac_signalr_client_lib_rs.Execution.Dispatch.{add_callback, add_invocation, add_stream}
use ac_signalr_client_lib_rs.Execution.Dispatch.History.{
  Call, creates_key, adds_callback, adds_invocation, adds_stream, processes, cancels, polls,
  history, perform, history-IsOwned,
}

abbrev calls : List (Call ℕ ℕ)
calls =
    creates_key (lit "add")
    ∷ adds_invocation (lit "add_1") (reads answer_3)
    ∷ polls 0 7
    ∷ processes (lit "{}") Negotiate.completion json
    ∷ cancels (lit "lost")
    ∷ []

history-IsOwned_example : IsOwned (history codec_add (new 2) calls)
history-IsOwned_example = history-IsOwned codec_add 2 calls

abbrev two_adds : List (Call ℕ ℕ)
two_adds = adds_invocation (lit "add_1") (reads answer_3) ∷ adds_callback (lit "add") 7 ∷ []

abbrev waiting_call : Storage ℕ ℕ
waiting_call = history codec_add (new 2) two_adds

cancel_pending_lem_example :
    ((cancel_pending waiting_call (lit "lost")).actions.inner
      ≡ callbacks_of waiting_call.actions.inner)
    × ((j : ℕ) → open_at (cancel_pending waiting_call (lit "lost")).heap j ≡ 0)
    × ((j : ℕ)
        → (get_elem? (cancel_pending waiting_call (lit "lost")).heap.futures j
            ≡ get_elem? waiting_call.heap.futures j)
          ⊎ ((open_at waiting_call.heap j ≡ 1)
              × (get_elem? (cancel_pending waiting_call (lit "lost")).heap.futures j
                  ≡ some (complete (some (err (lit "lost")))))))
unfolding history perform new text_eq lookup insert add_callback add_invocation
cancel_pending_lem_example =
    cancel_pending_lem waiting_call (lit "lost") (history-IsOwned codec_add 2 two_adds) refl
      (refl, (refl, tt))

abbrev one_stream : List (Call ℕ ℕ)
one_stream = adds_stream (lit "add_1") (reads answer_3) (reads item_5) ∷ []

abbrev streaming : Storage ℕ ℕ
streaming = history codec_add (new 2) one_stream

cancel_pending_ends_example :
    (st : StreamState ℕ) × (rest : List (Option ℕ)) × (get_elem?
        (cancel_pending streaming (lit "lost")).heap.streams
        0
      ≡ some st)
    × (st.queue ≡ [] ++ none ∷ rest)
    × AreEnds rest
unfolding history perform new text_eq lookup insert add_stream create
cancel_pending_ends_example =
    cancel_pending_ends streaming (lit "lost") (lit "add_1")
      (feeds (reads answer_3) (reads item_5) (lit "add_1") 0) create refl refl refl
