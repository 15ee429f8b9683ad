-- ===== src/Stream/Connection.antt =====
-- src/loreline/stt/streaming.py: one connection of a `TranscriptStream`, as the interleaving of the
-- capture loop's calls, the send loop, the reader and the clock. What the resampler and the socket
-- do with a block is left out but for a write that times out (`blocked`); a `none` is an exception
-- of the books.
use loreline.Prelude.{
  suc, Bool, true, false, ◌||◌, Option, none, some, List, [], ◌∷◌, if◌then◌else◌,
}
use loreline.Prelude.Int.{ℤ, ◌-ℤ◌, ltb_ℤ}
use loreline.Stream.Model.{StreamSignal, Frame, Item, frame, stop_mark, Stream}
use loreline.Stream.Turns.{◌>>=◌, apply, settle_open}
use loreline.Stream.Queue.{feed, stop, drain}
use loreline.Stream.Gaps.{publish_gap, open_gap}

-- `_reset_connection`
unfoldable pub reset_connection : Stream → ℤ → Stream
unfolding drain
reset_connection s now = drain (record s {
  generation = suc s.generation;
  t0 = none;
  opened_at = now;
  last_rx = now;
  voiced_at = none;
  turns = [];
  order = [];
  pending_end = [];
  closed = [];
  stalled = false;
  settled = true;
})

-- The head of `_write`: the first frame of a connection anchors the clock and ends a gap.
abbrev pub anchor : Stream → Frame → Option ℤ → Stream
anchor s f none = publish_gap (record s { t0 = some f.ts }) f.ts
anchor s f (some t0) = s

abbrev pub note_frame : Stream → ℤ → Frame → Stream
note_frame s now f =
    if f.is_speech
    then record s { last_ts = f.ts; voiced_at = some now }
    else record s { last_ts = f.ts }

-- `_write`, up to the block's way to the socket.
unfoldable pub write : Stream → ℤ → Frame → Stream
unfolding publish_gap
write s now f = note_frame (anchor s f s.t0) now f

-- `_check_liveness`, on the instant of the last voiced frame: false where it raises.
abbrev pub answers : Stream → ℤ → Option ℤ → Bool
answers s now none = true
answers s now (some voiced_at) =
    ltb_ℤ voiced_at s.last_rx || ltb_ℤ (now -ℤ voiced_at) s.config.quiet_grace

unfoldable pub is_alive : Stream → ℤ → Bool
is_alive s now =
    if s.stalled
    then false
    else if ltb_ℤ (now -ℤ s.last_rx) s.config.watchdog
    then true
    else answers s now s.voiced_at

pub data Phase : Type 0 where
  -- the send loop drains the queue
  streaming : Phase
  -- the input is over and the last finals are awaited
  finishing : Phase
  lost : Phase
  finished : Phase

pub data Moment : Type 0 where
  fed : Frame → Moment
  stop_called : Moment
  heard : (now : ℤ) (signal : StreamSignal) → Moment
  -- one turn of the send loop
  sent : (now : ℤ) (reader_done blocked : Bool) → Moment
  final_wait_over : Moment

-- A turn of `_send_loop` with a frame, after the frame was taken.
abbrev pub send_frame : Stream → ℤ → Frame → Bool → Bool → Stream × Phase
send_frame s now f reader_done blocked =
    let written = write s now f in
    if reader_done
    then (s, lost)
    else if blocked
    then (written, lost)
    else if is_alive written now
    then (written, streaming)
    else (written, lost)

-- `_finish_turns` waits while a turn is open.
abbrev pub await_finals : Stream → Phase
await_finals s = elim s.turns [ [] ↦ finished | _ ∷ _ ↦ finishing ]

abbrev pub send_item : Stream → ℤ → Bool → Bool → List Item → Stream × Phase
send_item s now reader_done blocked [] = (s, streaming)
send_item s now reader_done blocked (frame f ∷ queue) =
    send_frame (record s { queue = queue }) now f reader_done blocked
send_item s now reader_done blocked (stop_mark ∷ queue) =
    let taken = record s { queue = queue } in
    if reader_done then (taken, finished) else (taken, await_finals taken)

-- `_read` of one signal.
abbrev pub hear : Stream → ℤ → StreamSignal → Option Stream
hear s now signal = apply (record s { last_rx = now }) now signal

unfoldable pub step : Stream → Phase → Moment → Option (Stream × Phase)
unfolding write is_alive
step s lost m = some (s, lost)
step s finished m = some (s, finished)
step s p (fed f) = some (feed s f, p)
step s p stop_called = some (stop s, p)
step s streaming (heard now signal) = do s' ← hear s now signal; some (s', streaming)
step s finishing (heard now signal) = do s' ← hear s now signal; some (s', await_finals s')
step s streaming (sent now reader_done blocked) = some (send_item s now reader_done blocked s.queue)
step s finishing (sent now reader_done blocked) = some (s, finishing)
step s streaming final_wait_over = some (s, streaming)
step s finishing final_wait_over = some (s, finished)

unfoldable pub run_connection : Stream → Phase → List Moment → Option (Stream × Phase)
unfolding step
run_connection s p [] = some (s, p)
run_connection s p (m ∷ rest) = do (s', p') ← step s p m; run_connection s' p' rest

-- What `_serve` does when its send loop has returned or raised.
abbrev pub wind_up : Stream → Phase → Stream
wind_up s lost = settle_open (open_gap s)
wind_up s _ = settle_open s

-- `_serve`: one connection's whole life.
unfoldable pub serve : Stream → ℤ → List Moment → Option Stream
unfolding reset_connection run_connection
serve s now moments = do
  (s', p) ← run_connection (reset_connection s now) streaming moments
  some (wind_up s' p)
