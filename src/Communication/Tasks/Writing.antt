-- ===== src/Communication/Tasks/Writing.antt =====
-- What the writer task writes, in which order, and how it ends.
use ac_signalr_client_lib_rs.Base.{
  ◌≡◌, refl, ◌∙◌, sym, ap, Option, none, some, List, [], ◌∷◌, ◌++◌, append_assoc, append-nil, Text,
  lit, Res, ok, err, map,
}
use ac_signalr_client_lib_rs.Client.Configuration.{Protocol}
use ac_signalr_client_lib_rs.Protocol.Negotiate.{Ping}
use ac_signalr_client_lib_rs.Protocol.Messages.{Serde}
use ac_signalr_client_lib_rs.Communication.Tasks.{
  Frame, close_frame, WriterCommand, send_command, close_command, Pick, command, Writer, ends,
  frame_of, close_answer, writer_run,
}

-- A message, and what the write of its frame returns.
abbrev pub Sending : Type 0
Sending = Text × Res (Unit {0})

abbrev pub texts : List Sending → List Text
texts ms = map (λ m. m.0) ms

abbrev pub writes : List Sending → List (Res (Unit {0}))
writes ms = map (λ m. m.1) ms

-- The commands are picked in the order of the channel, each with what its write returns.
unfoldable pub picks : List WriterCommand → List (Res (Unit {0})) → List Pick
picks [] rs = []
picks (x ∷ xs) [] = []
picks (x ∷ xs) (r ∷ rs) = command x r ∷ picks xs rs

-- The error of the first write that fails.
unfoldable pub failure : List Sending → Option Text
failure [] = none
failure ((b, ok u) ∷ ms) = failure ms
failure ((b, err e) ∷ ms) = some e

-- The frames up to and with the first whose write fails.
unfoldable pub attempted : Protocol → List Sending → List Frame
attempted p [] = []
attempted p ((b, ok u) ∷ ms) = frame_of p b ∷ attempted p ms
attempted p ((b, err e) ∷ ms) = frame_of p b ∷ []

-- A close command behind the messages is reached unless a write fails.
abbrev pub closing_frames : Option Text → List Frame
closing_frames none = close_frame 1000 ∷ []
closing_frames (some e) = []

abbrev pub closing_answers : Option Text → Res (Unit {0}) → List (Res (Unit {0}))
closing_answers none r = close_answer r ∷ []
closing_answers (some e) r = []

abbrev pub reason_of : Option Text → Option Text
reason_of none = none
reason_of (some e) = some (lit "Error writing frame: " ++ e)

-- Commands that queue messages, then the close command, with any results of their writes: the writer
-- ends by the close command without a reason to report, or by the first write that fails with its
-- error; then it has answered no close command.
pub writer_run-picks :
    (pings : Serde Ping) (p : Protocol) (w : Writer) (ms : List Sending) (r : Res (Unit {0}))
    → writer_run pings p w
        (picks (map send_command (texts ms) ++ close_command ∷ []) (writes ms ++ r ∷ []))
      ≡ (
        record {
          written = w.written ++ (attempted p ms ++ closing_frames (failure ms));
          answers = w.answers ++ closing_answers (failure ms) r;
        },
        ends (reason_of (failure ms)),
      )
unfolding writer_run picks attempted failure
writer_run-picks pings p w [] r = refl
writer_run-picks pings p w ((b, ok u) ∷ ms) r =
    writer_run-picks pings p (record w { written = w.written ++ frame_of p b ∷ [] }) ms r
    ∙ ap
        (λ x. (
          record { written = x; answers = w.answers ++ closing_answers (failure ms) r },
          ends (reason_of (failure ms)),
        ))
        (append_assoc w.written (frame_of p b ∷ []) (attempted p ms ++ closing_frames (failure ms)))
writer_run-picks pings p w ((b, err e) ∷ ms) r =
    ap
      (λ x. (
        record { written = w.written ++ frame_of p b ∷ []; answers = x },
        ends (some (lit "Error writing frame: " ++ e)),
      ))
      (sym (append-nil w.answers))
