-- ===== src/Stream/Endings.antt =====
-- src/loreline/stt/streaming.py, `_settle_open` after `_read`: the rows of the connection.
use loreline.Prelude.{
  String, ◌≡◌, refl, subst, true, false, some, List, [], ◌∷◌, map, arith, if◌then◌else◌, is_blank,
}
use loreline.Prelude.Int.{ℤ}
use loreline.Prelude.Dict.{Dict}
use loreline.Stream.Model.{StreamSignal, OpenTurn, Stream}
use loreline.Stream.Turns.{emit, emit_settled, note_closed, read, settle_turns, settle_open}
use loreline.Stream.Books.{IsValid}
use loreline.Stream.Invariant.{apply-IsValid}
use loreline.Stream.Rows.{awaits, owes, owed, TextShown, RowsOwed, awaits-emit_settled}
use loreline.Stream.Settle.{Restates, apply-RowsOwed}

-- One settled turn: its row is no longer dimmed, and no other row becomes so.
settled_turn :
    (s : Stream) (turn : OpenTurn) (t : String)
    → (turn.published ≡ true → is_blank turn.text ≡ false)
    → awaits t (emit_settled (note_closed s turn.ref) turn).published
      ≡ (if owes s.provider_id s.generation t turn then false else awaits t s.published)
unfolding note_closed
settled_turn s turn t h = ground (arith, awaits-emit_settled (note_closed s turn.ref) t turn h)

names-settled :
    (s : Stream) (turn : OpenTurn)
    → ((emit_settled (note_closed s turn.ref) turn).provider_id ≡ s.provider_id)
      × ((emit_settled (note_closed s turn.ref) turn).generation ≡ s.generation)
unfolding emit note_closed
names-settled s turn = ground arith

settle_turns-awaits :
    (s : Stream) (d : Dict OpenTurn) (t : String)
    → TextShown d
    → awaits t (settle_turns s (map (λ e. e.1) d)).published
      ≡ (if owed s.provider_id s.generation t d then false else awaits t s.published)
unfolding settle_turns owed
settle_turns-awaits s [] t h = refl
settle_turns-awaits s ((k, turn) ∷ d) t h = ground (
  arith,
  settle_turns-awaits (emit_settled (note_closed s turn.ref) turn) d t h.1,
  settled_turn s turn t h.0,
  names-settled s turn,
)

-- What `_settle_open` leaves: nothing open, and no dimmed row.
pub settle_open-awaits :
    (s : Stream) (t : String) → RowsOwed s → awaits t (settle_open s).published ≡ false
unfolding settle_open
settle_open-awaits s t r = ground (
  arith,
  settle_turns-awaits (record s { turns = []; order = []; settled = true }) s.turns t r.text_lem,
  r.owed_lem t,
)

abbrev pub AllRestate : List (ℤ × StreamSignal) → Type 0
AllRestate [] = Unit
AllRestate ((now, signal) ∷ rest) = Restates signal × AllRestate rest

refreshed-IsValid : {s : Stream} (now : ℤ) → IsValid s → IsValid (record s { last_rx = now })
refreshed-IsValid now v = record {
  listed = v.listed;
  distinct = v.distinct;
  keyed = v.keyed;
  few_turns = v.few_turns;
  few_ends = v.few_ends;
  few_closed = v.few_closed;
  settled_lem = v.settled_lem;
}

-- Reading any signals keeps the books valid and raises nothing.
pub read-IsValid :
    (s : Stream) (signals : List (ℤ × StreamSignal))
    → IsValid s
    → (s' : Stream) × (read s signals ≡ some s') × IsValid s'
unfolding read
read-IsValid s [] v = (s, refl, v)
read-IsValid s ((now, signal) ∷ rest) v =
    let (s1, applied, w) =
      apply-IsValid (record s { last_rx = now }) now signal (refreshed-IsValid now v) in
    let (s2, done, w') = read-IsValid s1 rest w in rw applied (s2, done, w')

pub read-RowsOwed :
    (s : Stream) (signals : List (ℤ × StreamSignal)) (s' : Stream)
    → IsValid s
    → RowsOwed s
    → AllRestate signals
    → read s signals ≡ some s'
    → RowsOwed s'
unfolding read
read-RowsOwed s [] s' v r q e = subst RowsOwed (ground arith) r
read-RowsOwed s ((now, signal) ∷ rest) s' v r q e =
    let (s1, applied, w) =
      apply-IsValid (record s { last_rx = now }) now signal (refreshed-IsValid now v) in
    let r1 =
      apply-RowsOwed (record s { last_rx = now }) now signal s1 (refreshed-IsValid now v)
        (record { owed_lem = r.owed_lem; text_lem = r.text_lem }) q.0 applied in
    read-RowsOwed s1 rest s' w r1 q.1 (ground (arith, applied))

-- Whatever signals a connection hears, if none blanks an open turn's text, the books take them all,
-- and after the settling of what is open no row of any turn is left dimmed.
pub no_row_left_dimmed :
    (s : Stream) (signals : List (ℤ × StreamSignal)) (t : String)
    → IsValid s
    → RowsOwed s
    → AllRestate signals
    → (s' : Stream) × (read s signals ≡ some s') × (awaits t (settle_open s').published ≡ false)
no_row_left_dimmed s signals t v r q =
    let (s', done, w) = read-IsValid s signals v in
    (s', done, settle_open-awaits s' t (read-RowsOwed s signals s' v r q done))
