-- ===== src/Communication/Tasks/Connection/Closing.antt =====
-- Sending and closing through the channel and the writer task.
use ac_signalr_client_lib_rs.Base.{
  ℕ, ◌≡◌, refl, ◌∙◌, ap, Bool, true, false, Option, none, some, lit, err, List, [], ◌∷◌, ◌++◌,
  append_assoc, append-nil, map, Text, Res, ok, arith,
}
use ac_signalr_client_lib_rs.Client.Configuration.{Protocol}
use ac_signalr_client_lib_rs.Protocol.Negotiate.{Ping}
use ac_signalr_client_lib_rs.Protocol.Messages.{Serde}
use ac_signalr_client_lib_rs.Communication.Monitor.{ConnectionEvent, connection_lost}
use ac_signalr_client_lib_rs.Communication.Tasks.{
  send_command, close_command, Writer, writer_run, ends,
}
use ac_signalr_client_lib_rs.Communication.Tasks.Writing.{
  Sending, texts, writes, picks, failure, attempted, closing_frames, closing_answers, reason_of,
  writer_run-picks,
}
use ac_signalr_client_lib_rs.Communication.Tasks.Connection.{
  Connection, send_data, CloseWait, timed_out, unanswered, answered, close_gracefully, waited,
  writer_report,
}

unfoldable pub send_all : Text → Connection → List Text → Connection
send_all closed_channel c [] = c
send_all closed_channel c (b ∷ bs) = send_all closed_channel (send_data closed_channel c b).0 bs

-- How the wait for the answer ends: if it comes in time, by what the writer has answered when it
-- ends.
abbrev pub wait_of : Bool → List (Res (Unit {0})) → CloseWait
wait_of false answers = timed_out
wait_of true [] = unanswered
wait_of true (r ∷ rs) = answered r

-- What `close_gracefully` then returns, by the first write that failed and that of the close frame.
abbrev pub closing_result : Bool → Option Text → Res (Unit {0}) → Res (Unit {0})
closing_result false e r = err (lit "Timed out waiting to send close frame")
closing_result true (some e) r = err (lit "Writer closed before acknowledging close frame")
closing_result true none (ok u) = ok tt
closing_result true none (err e) = err (lit "Error writing close frame: " ++ e)

-- What the writer reports of the connection.
abbrev pub reported : ℕ → Option Text → List ConnectionEvent
reported generation none = []
reported generation (some e) = connection_lost generation (lit "Error writing frame: " ++ e) ∷ []

send_data_listening :
    (closed_channel : Text) (c : Connection) (b : Text)
    → c.writer_listens ≡ true
    → send_data closed_channel c b
      ≡ (record c { commands = c.commands ++ send_command b ∷ [] }, ok tt)
unfolding send_data
send_data_listening closed_channel c b h = ground arith

close_gracefully_listening :
    (closed_channel : Text) (c : Connection) (wait : CloseWait)
    → c.writer_listens ≡ true
    → close_gracefully closed_channel c wait
      ≡ (record c { commands = c.commands ++ close_command ∷ [] }, waited wait)
unfolding close_gracefully
close_gracefully_listening closed_channel c wait h = ground arith

send_all-commands :
    (closed_channel : Text) (c : Connection) (bs : List Text)
    → c.writer_listens ≡ true
    → send_all closed_channel c bs ≡ record c { commands = c.commands ++ map send_command bs }
unfolding send_all send_data
send_all-commands closed_channel c [] h = rw (append-nil c.commands) refl
send_all-commands closed_channel c (b ∷ bs) h =
    ap (λ x. send_all closed_channel x.0 bs) (send_data_listening closed_channel c b h)
    ∙ send_all-commands closed_channel (record c { commands = c.commands ++ send_command b ∷ [] })
        bs h
    ∙ ap (λ l. record c { commands = l })
        (append_assoc c.commands (send_command b ∷ []) (map send_command bs))

close_gracefully-send_all :
    (closed_channel : Text) (c : Connection) (bs : List Text) (wait : CloseWait)
    → c.writer_listens ≡ true
    → c.commands ≡ []
    → close_gracefully closed_channel (send_all closed_channel c bs) wait
      ≡ (record c { commands = map send_command bs ++ close_command ∷ [] }, waited wait)
close_gracefully-send_all closed_channel c bs wait h e =
    ap (λ x. close_gracefully closed_channel x wait) (send_all-commands closed_channel c bs h)
    ∙ close_gracefully_listening closed_channel
        (record c { commands = c.commands ++ map send_command bs }) wait h
    ∙ ap
        (λ l.
          (record c { commands = (l ++ map send_command bs) ++ close_command ∷ [] }, waited wait))
        e

waited-wait_of :
    (in_time : Bool) (e : Option Text) (r : Res (Unit {0}))
    → waited (wait_of in_time (closing_answers e r)) ≡ closing_result in_time e r
waited-wait_of false e r = refl
waited-wait_of true none (ok u) = refl
waited-wait_of true none (err e) = refl
waited-wait_of true (some e) r = refl

writer_report_lem :
    (generation : ℕ) (e : Option Text)
    → writer_report generation (ends (reason_of e)) ≡ reported generation e
unfolding writer_report
writer_report_lem generation none = refl
writer_report_lem generation (some e) = refl

-- Messages sent on a connection whose channel was empty, then a graceful close, all while the writer
-- listens; the writer takes the commands in the order of the channel, and each of its writes returns
-- anything. It writes the messages in frames up to the first that fails. If none fails, it writes the
-- close frame behind them, answers with what that write came to, and reports no loss; else it writes
-- no close frame, answers nothing, and reports the loss of this connection with the error. Where the
-- wait of `close_gracefully` ends in time, that returns the answer, or that the writer closed before
-- it; else it returns that it timed out.
pub close_gracefully-writer_run :
    (closed_channel : Text) (pings : Serde Ping) (p : Protocol) (w : Writer) (c : Connection)
    (ms : List Sending) (r : Res (Unit {0})) (in_time : Bool) (wait : CloseWait)
    → c.writer_listens ≡ true
    → c.commands ≡ []
    → w.answers ≡ []
    → wait
      ≡ wait_of in_time
          (writer_run pings p w (
            picks
              (close_gracefully closed_channel
                (send_all closed_channel c (texts ms))
                wait).0.commands
              (writes ms ++ r ∷ []))).0.answers
    → let (asked, result) =
        close_gracefully closed_channel (send_all closed_channel c (texts ms)) wait in
      let (w', o) = writer_run pings p w (picks asked.commands (writes ms ++ r ∷ [])) in
      (w'.written ≡ w.written ++ (attempted p ms ++ closing_frames (failure ms)))
      × (w'.answers ≡ closing_answers (failure ms) r)
      × (writer_report c.generation o ≡ reported c.generation (failure ms))
      × (result ≡ closing_result in_time (failure ms) r)
close_gracefully-writer_run closed_channel pings p w c ms r in_time wait h e a t =
    let asked = close_gracefully-send_all closed_channel c (texts ms) wait h e in
    let run : writer_run pings p w (
          picks
            (close_gracefully closed_channel (send_all closed_channel c (texts ms)) wait).0.commands
            (writes ms ++ r ∷ []))
        ≡ _ =
      ap (λ x. writer_run pings p w (picks x.0.commands (writes ms ++ r ∷ []))) asked
      ∙ writer_run-picks pings p w ms r in
    let answers = ap (λ x. x.0.answers) run ∙ ap (λ l. l ++ closing_answers (failure ms) r) a in
    (
      ap (λ x. x.0.written) run,
      answers,
      ap (λ x. writer_report c.generation x.1) run ∙ writer_report_lem c.generation (failure ms),
      ap (λ x. x.1) asked
          ∙ ap waited t
          ∙ ap (λ l. waited (wait_of in_time l)) answers
          ∙ waited-wait_of in_time (failure ms) r,
    )
