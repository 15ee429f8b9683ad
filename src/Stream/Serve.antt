-- ===== src/Stream/Serve.antt =====
-- src/loreline/stt/streaming.py, `_serve`: the feed through one connection and its teardown.
use loreline.Prelude.{
  String, ◌≡◌, refl, Bool, true, false, some, List, [], ◌∷◌, arith, Bool-cases, inl, inr,
}
use loreline.Prelude.Int.{ℤ}
use loreline.Stream.Model.{StreamSignal, Frame, Item, frame, stop_mark, Stream}
use loreline.Stream.Queue.{feed, stop}
use loreline.Stream.Gaps.{open_gap}
use loreline.Stream.Connection.{
  reset_connection, write, is_alive, Phase, streaming, finishing, lost, finished, Moment, fed,
  stop_called, heard, sent, final_wait_over, hear, send_frame, send_item, await_finals, step,
  run_connection, wind_up, serve,
}
use loreline.Stream.Books.{IsValid}
use loreline.Stream.Invariant.{apply-IsValid}
use loreline.Stream.Rows.{awaits, RowsOwed}
use loreline.Stream.Settle.{Restates, apply-RowsOwed}
use loreline.Stream.Endings.{settle_open-awaits}

-- The books are valid, and every dimmed row belongs to an open turn.
pub record IsSound (s : Stream) : Type 0 where
  pub books : IsValid s
  pub rows : RowsOwed s

-- What leaves the books alone and hands out at most events that name no turn.
pub record SameRows (s s' : Stream) : Type 0 where
  turns_lem : s'.turns ≡ s.turns
  order_lem : s'.order ≡ s.order
  ends_lem : s'.pending_end ≡ s.pending_end
  closed_lem : s'.closed ≡ s.closed
  settled_lem : s'.settled ≡ s.settled
  provider_lem : s'.provider_id ≡ s.provider_id
  generation_lem : s'.generation ≡ s.generation
  awaits_lem : (t : String) → awaits t s'.published ≡ awaits t s.published

SameRows-IsSound : {s s' : Stream} → SameRows s s' → IsSound s → IsSound s'
SameRows-IsSound same v = record {
  books = record {
    listed = ground arith;
    distinct = ground arith;
    keyed = ground arith;
    few_turns = ground arith;
    few_ends = ground arith;
    few_closed = ground arith;
    settled_lem = ground arith;
  };
  rows = record {
    owed_lem = λ t h. ground (arith, same.awaits_lem t, v.rows.owed_lem t);
    text_lem = ground arith;
  };
}

feed-SameRows : (s : Stream) (f : Frame) → SameRows s (feed s f)
unfolding feed
feed-SameRows s f = ground arith

stop-SameRows : (s : Stream) → SameRows s (stop s)
unfolding stop
stop-SameRows s = ground arith

write-SameRows : (s : Stream) (now : ℤ) (f : Frame) → SameRows s (write s now f)
unfolding write awaits
write-SameRows s now f = ground arith

queue-SameRows : (s : Stream) (q : List Item) → SameRows s (record s { queue = q })
queue-SameRows s q = ground arith

refresh-SameRows : (s : Stream) (now : ℤ) → SameRows s (record s { last_rx = now })
refresh-SameRows s now = ground arith

open_gap-SameRows : (s : Stream) → SameRows s (open_gap s)
unfolding open_gap
open_gap-SameRows s = ground arith

-- A moment in which no partial blanks a turn.
abbrev pub MomentRestates : Moment → Type 0
MomentRestates (heard now signal) = Restates signal
MomentRestates _ = Unit

abbrev pub MomentsRestate : List Moment → Type 0
MomentsRestate [] = Unit
MomentsRestate (m ∷ rest) = MomentRestates m × MomentsRestate rest

hear-IsSound :
    (s : Stream) (now : ℤ) (signal : StreamSignal)
    → IsSound s
    → (s' : Stream) × (hear s now signal ≡ some s') × IsValid s' × (Restates signal → IsSound s')
hear-IsSound s now signal v =
    let fresh = record s { last_rx = now } in
    let w = SameRows-IsSound (refresh-SameRows s now) v in
    let (s', done, b) = apply-IsValid fresh now signal w.books in
    (
      s',
      done,
      b,
      λ q. record { books = b; rows = apply-RowsOwed fresh now signal s' w.books w.rows q done },
    )

send_frame-IsSound :
    (s : Stream) (now : ℤ) (f : Frame) (reader_done blocked : Bool)
    → IsSound s
    → IsSound (send_frame s now f reader_done blocked).0
send_frame-IsSound s now f true blocked v = v
send_frame-IsSound s now f false true v = SameRows-IsSound (write-SameRows s now f) v
send_frame-IsSound s now f false false v = elim (Bool-cases (is_alive (write s now f) now)) [
  | inl alive ↦ rw alive (SameRows-IsSound (write-SameRows s now f) v)
  | inr dead ↦ rw dead (SameRows-IsSound (write-SameRows s now f) v)
]

send_item-IsSound :
    (s : Stream) (now : ℤ) (reader_done blocked : Bool) (q : List Item)
    → IsSound s
    → IsSound (send_item s now reader_done blocked q).0
send_item-IsSound s now reader_done blocked [] v = v
send_item-IsSound s now reader_done blocked (frame f ∷ q) v =
    send_frame-IsSound (record s { queue = q }) now f reader_done blocked
      (SameRows-IsSound (queue-SameRows s q) v)
send_item-IsSound s now true blocked (stop_mark ∷ q) v = SameRows-IsSound (queue-SameRows s q) v
send_item-IsSound s now false blocked (stop_mark ∷ q) v = SameRows-IsSound (queue-SameRows s q) v

-- No moment raises, and each keeps the stream sound.
step-IsSound :
    (s : Stream) (p : Phase) (m : Moment)
    → MomentRestates m
    → IsSound s
    → (s' : Stream) × (p' : Phase) × (step s p m ≡ some (s', p')) × IsSound s'
unfolding step
step-IsSound s lost m q v = (s, lost, refl, v)
step-IsSound s finished m q v = (s, finished, refl, v)
step-IsSound s streaming (fed f) q v =
    (feed s f, streaming, refl, SameRows-IsSound (feed-SameRows s f) v)
step-IsSound s finishing (fed f) q v =
    (feed s f, finishing, refl, SameRows-IsSound (feed-SameRows s f) v)
step-IsSound s streaming stop_called q v =
    (stop s, streaming, refl, SameRows-IsSound (stop-SameRows s) v)
step-IsSound s finishing stop_called q v =
    (stop s, finishing, refl, SameRows-IsSound (stop-SameRows s) v)
step-IsSound s streaming (heard now signal) q v =
    let (s', done, b, sound) = hear-IsSound s now signal v in rw done (s', streaming, refl, sound q)
step-IsSound s finishing (heard now signal) q v =
    let (s', done, b, sound) = hear-IsSound s now signal v in
    rw done (s', await_finals s', refl, sound q)
step-IsSound s streaming (sent now reader_done blocked) q v =
    let r = send_item s now reader_done blocked s.queue in
    (r.0, r.1, refl, send_item-IsSound s now reader_done blocked s.queue v)
step-IsSound s finishing (sent now reader_done blocked) q v = (s, finishing, refl, v)
step-IsSound s streaming final_wait_over q v = (s, streaming, refl, v)
step-IsSound s finishing final_wait_over q v = (s, finished, refl, v)

run_connection-IsSound :
    (s : Stream) (p : Phase) (moments : List Moment)
    → MomentsRestate moments
    → IsSound s
    → (s' : Stream) × (p' : Phase) × (run_connection s p moments ≡ some (s', p')) × IsSound s'
unfolding run_connection
run_connection-IsSound s p [] q v = (s, p, refl, v)
run_connection-IsSound s p (m ∷ rest) q v =
    let (s1, p1, done, w) = step-IsSound s p m q.0 v in
    let (s2, p2, ran, w2) = run_connection-IsSound s1 p1 rest q.1 w in rw done (s2, p2, ran, w2)

abbrev pub AllSettled : Stream → Type 0
AllSettled s = (t : String) → awaits t s.published ≡ false

reset-IsSound : (s : Stream) (now : ℤ) → AllSettled s → IsSound (reset_connection s now)
unfolding reset_connection
reset-IsSound s now settled = record {
  books = record {
    listed = refl;
    distinct = tt;
    keyed = tt;
    few_turns = omega arith;
    few_ends = omega arith;
    few_closed = omega arith;
    settled_lem = refl;
  };
  rows = record { owed_lem = λ t h. cc (settled t); text_lem = tt };
}

wind_up-awaits : (s : Stream) (p : Phase) → IsSound s → AllSettled (wind_up s p)
wind_up-awaits s lost v t =
    settle_open-awaits (open_gap s) t (SameRows-IsSound (open_gap-SameRows s) v).rows
wind_up-awaits s streaming v t = settle_open-awaits s t v.rows
wind_up-awaits s finishing v t = settle_open-awaits s t v.rows
wind_up-awaits s finished v t = settle_open-awaits s t v.rows

-- From a feed with no dimmed row, and whatever the capture loop, the clock and a vendor do on a
-- connection - frames, stops, turns in any order, a dead socket, a write that blocks - if no partial
-- blanks a turn then nothing raises, and when the connection has been torn down no row is dimmed.
pub serve_leaves_none_dimmed :
    (s : Stream) (now : ℤ) (moments : List Moment)
    → AllSettled s
    → MomentsRestate moments
    → (s' : Stream) × (serve s now moments ≡ some s') × AllSettled s'
unfolding serve
serve_leaves_none_dimmed s now moments settled q =
    let (s', p, ran, v) =
      run_connection-IsSound (reset_connection s now) streaming moments q
        (reset-IsSound s now settled) in
    rw ran (wind_up s' p, refl, wind_up-awaits s' p v)
