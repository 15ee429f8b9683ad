-- ===== src/Stream/Run.antt =====
-- src/loreline/stt/streaming.py, `TranscriptStream.run`: connections to one provider until the input
-- ends or the reconnect budget is spent. What the capture loop calls and how each connection goes is
-- a script of attempts.
use loreline.Prelude.{ℕ, suc, Bool, Option, none, some, List, [], ◌∷◌, ltb, if◌then◌else◌}
use loreline.Prelude.Int.{ℤ, ◌-ℤ◌, leb_ℤ}
use loreline.Stream.Model.{Frame, Stream}
use loreline.Stream.Queue.{feed, stop}
use loreline.Stream.Connection.{Moment, serve}

pub data Outcome : Type 0 where
  ended dead unsupported : Outcome

-- A call of the capture loop.
pub data Call : Type 0 where
  fed : Frame → Call
  stop_called : Call

pub data Connect : Type 0 where
  -- `StreamUnsupportedError`
  not_for_model : Connect
  -- any other exception of `open_stream`
  refused : Connect
  opened : (now : ℤ) (moments : List Moment) (closed_at : ℤ) → Connect

pub record Attempt : Type 0 where
  -- the calls before the loop looks at `_stopped`, and those while the socket opens
  pub before : List Call
  pub during : List Call
  pub connect : Connect

unfoldable pub capture : Stream → List Call → Stream
unfolding feed stop
capture s [] = s
capture s (fed f ∷ rest) = capture (feed s f) rest
capture s (stop_called ∷ rest) = capture (stop s) rest

unfoldable pub was_healthy : Stream → ℤ → Bool
was_healthy s now = leb_ℤ s.config.healthy_after (now -ℤ s.opened_at)

-- Where the loop stands after an attempt: it has returned, or goes on with a count of failures.
pub data Turn : Type 0 where
  returned : Outcome → Turn
  -- an exception of the books
  raised : Turn
  failures : ℕ → Turn

abbrev pub count_failure : Stream → ℕ → Stream × Turn
count_failure s attempts =
    (s, if ltb s.config.max_reconnects attempts then returned dead else failures attempts)

abbrev pub served : Stream → ℕ → ℤ → Option Stream → Stream × Turn
served s attempts closed_at none = (s, raised)
served s attempts closed_at (some s') =
    if s'.stopped
    then (s', returned ended)
    else count_failure s' (if was_healthy s' closed_at then 0 else suc attempts)

abbrev pub connect_with : Stream → ℕ → Connect → Stream × Turn
connect_with s attempts not_for_model = (s, returned unsupported)
connect_with s attempts refused = count_failure s (suc attempts)
connect_with s attempts (opened now moments closed_at) =
    served s attempts closed_at (serve s now moments)

-- One round of the loop.
unfoldable pub attempt : Stream → ℕ → Attempt → Stream × Turn
unfolding capture was_healthy
attempt s attempts a =
    let waiting = capture s a.before in
    if waiting.stopped
    then (waiting, returned ended)
    else connect_with (capture waiting a.during) attempts a.connect

abbrev pub go_on : (Stream → ℕ → Stream × Turn) → Stream × Turn → Stream × Turn
go_on loop (s, failures attempts) = loop s attempts
go_on loop (s, raised) = (s, raised)
go_on loop (s, returned outcome) = (s, returned outcome)

-- `run`, as far as the script goes.
unfoldable pub run : List Attempt → Stream → ℕ → Stream × Turn
run [] s attempts = (s, failures attempts)
run (a ∷ rest) s attempts = go_on (run rest) (attempt s attempts a)
