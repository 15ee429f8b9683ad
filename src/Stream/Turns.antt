-- ===== src/Stream/Turns.antt =====
-- src/loreline/stt/streaming.py: the turn bookkeeping of `TranscriptStream`. `none` is an exception
-- (a `KeyError`, `IndexError` or `ValueError` of the books).
use loreline.Prelude.{
  ℕ, zero, suc, String, Bool, true, false, not, ◌&&◌, ◌||◌, Option, none, some, List, [], ◌∷◌, ◌++◌,
  map, ltb, if◌then◌else◌, length, trim, is_blank, concat, show_nat,
}
use loreline.Prelude.Int.{ℤ, pos, ◌+ℤ◌, ltb_ℤ, max_ℤ, round_div, show_ℤ}
use loreline.Prelude.Dict.{list_remove, lookup, put, remove, has}
use loreline.Transcript.{Word}
use loreline.Stream.Model.{
  StreamSignal, turn_started, turn_partial, turn_ended, turn_final, stream_alive, OpenTurn, Stream,
  max_open_turns, max_pending_ends, max_closed_refs,
}

infixl 5 ◌>>=◌
abbrev pub ◌>>=◌ {ℓ κ} : {A : Type ℓ} {B : Type κ} → Option A → (A → Option B) → Option B
none >>= f = none
some a >>= f = f a

-- `_handle`: the vendor's ref, or the millisecond that the turn began.
unfoldable pub handle_of : String → ℤ → String
handle_of ref start = if is_blank ref then concat "t" (show_ℤ (round_div start 1000)) else ref

unfoldable pub clock : Stream → Option ℤ → ℤ
clock s none = s.last_ts
clock s (some offset) = elim s.t0 [ none ↦ s.last_ts | some t0 ↦ t0 +ℤ offset ]

-- `_turn_id`: where a turn is in the session's stream, under one provider and one connection.
unfoldable pub turn_id : String → ℕ → String → String
turn_id provider_id generation handle =
    concat provider_id (concat ":" (concat (show_nat generation) (concat ":" handle)))

abbrev shift_word : Stream → Word → Word
shift_word s w = record w { start = clock s (some w.start); end = clock s (some w.end) }

abbrev or_later : Stream → ℤ → Option ℤ → ℤ
or_later s start none = max_ℤ start s.last_ts
or_later s start (some end) = end

-- `_emit`: a vendor that heard nothing is not a segment.
unfoldable pub emit : Stream → String → String → ℤ → Option ℤ → Bool → List Word → Stream
emit s handle text start end final words = if is_blank text then s else record s {
  published =
      (record {
        session_id = s.config.session_id;
        source = s.provider_id;
        text = text;
        words = map (shift_word s) words;
        speaker = none;
        start_ts = start;
        end_ts = or_later s start end;
        is_final = final;
        turn_id = some (turn_id s.provider_id s.generation handle);
      })
      ∷ s.published;
}

unfoldable pub resolve : Stream → String → String
resolve s ref = if is_blank ref then (elim s.order [ [] ↦ ref | k ∷ _ ↦ k ]) else ref

unfoldable pub is_closed : Stream → String → Bool
is_closed s ref = not (is_blank ref) && has ref s.closed

unfoldable pub note_closed : Stream → String → Stream
note_closed s key =
    if is_blank key then s else record s { closed = trim max_closed_refs (put key tt s.closed) }

-- The final that `_evict_oldest` and `_settle_open` publish for a turn with a row on screen.
abbrev pub emit_settled : Stream → OpenTurn → Stream
emit_settled s turn =
    if turn.published then emit s turn.handle turn.text turn.start turn.end true [] else s

abbrev pub evict : Stream → List String → Option Stream
evict s [] = none
evict s (key ∷ rest) = do
  turn ← lookup key s.turns
  some (emit_settled (note_closed (record s { order = rest; turns = remove key s.turns }) key) turn)

unfoldable pub evict_oldest : Stream → Option Stream
evict_oldest s = evict s s.order

-- `while len(self._order) > _MAX_OPEN_TURNS`, on the number of turns that could go.
unfoldable pub evict_over : ℕ → Stream → Option Stream
evict_over zero s = some s
evict_over (suc fuel) s =
    let rest = (do s' ← evict_oldest s; evict_over fuel s') in
    if ltb max_open_turns (length s.order) then rest else some s

abbrev pub new_turn : Stream → String → ℤ → OpenTurn
new_turn s key start = record {
  ref = key;
  handle = handle_of key start;
  start = start;
  end = lookup key s.pending_end;
  text = "";
  published = false;
  next_interim = pos 0;
}

abbrev pub opened : Stream → String → ℤ → Stream
opened s key start = record s {
  pending_end = remove key s.pending_end;
  turns = put key (new_turn s key start) s.turns;
  order = s.order ++ key ∷ [];
  settled = false;
}

-- `_open`: the turn that the ref names, and the stream.
unfoldable pub open_new : Stream → String → ℤ → Option (OpenTurn × Stream)
open_new s key start = do
  s' ← evict_over (suc (length s.order)) (opened s key start)
  some (new_turn s key start, s')

unfoldable pub open_turn : Stream → String → ℤ → Option (OpenTurn × Stream)
open_turn s ref start =
    let key = resolve s ref in
    elim (lookup key s.turns) [ some turn ↦ some (turn, s) | none ↦ open_new s key start ]

abbrev pub shown : Stream → OpenTurn → ℤ → OpenTurn
shown s turn now = record turn { next_interim = now +ℤ s.config.interim_interval; published = true }

-- `_publish_interim`, on the turn object that the books hold.
unfoldable pub publish_interim : Stream → OpenTurn → ℤ → Stream
publish_interim s turn now =
    if is_blank turn.text || ltb_ℤ now turn.next_interim
    then record s { turns = put turn.ref turn s.turns }
    else emit (record s { turns = put turn.ref (shown s turn now) s.turns }) turn.handle turn.text
        turn.start none false []

abbrev pub or_else {ℓ} : {A : Type ℓ} → Option A → Option A → Option A
or_else (some a) b = some a
or_else none b = b

-- What a final states of its span stands over what the stream knew.
abbrev pub stated_start : Stream → Option ℤ → ℤ → ℤ
stated_start s (some at) known = clock s (some at)
stated_start s none known = known

abbrev pub stated_end : Stream → Option ℤ → Option ℤ → Option ℤ
stated_end s (some to) known = some (clock s (some to))
stated_end s none known = known

abbrev note_settled : Stream → Stream
note_settled s = record s { settled = elim s.turns [ [] ↦ true | _ ∷ _ ↦ s.settled ] }

-- `_close` of a turn that was never opened here.
unfoldable pub close_unknown : Stream → String → String → List Word → Option ℤ → Option ℤ → Stream
close_unknown s key text words at to =
    let noted = note_closed s key in
    let start = clock s at in
    let end = stated_end s to (lookup key s.pending_end) in
    note_settled (
      emit (record noted { pending_end = remove key s.pending_end }) (handle_of key start) text
        start end true words)

-- `_close` of an open turn.
unfoldable pub close_known :
    Stream → String → OpenTurn → String → List Word → Option ℤ → Option ℤ → Stream
close_known s key turn text words at to =
    let popped = record s { turns = remove key s.turns; order = list_remove key s.order } in
    let noted = note_closed popped key in
    let start = stated_start s at turn.start in
    let end = stated_end s to (or_else turn.end (lookup key s.pending_end)) in
    let said = if is_blank text && turn.published then turn.text else text in
    note_settled (
      emit (record noted { pending_end = remove key s.pending_end }) turn.handle said start end true
        words)

unfoldable pub close : Stream → String → String → List Word → Option ℤ → Option ℤ → Stream
close s ref text words at to =
    let key = resolve s ref in
    elim (lookup key s.turns) [
      | some turn ↦ close_known s key turn text words at to
      | none ↦ close_unknown s key text words at to
    ]

unfoldable pub end_turn : Stream → String → ℤ → Stream
end_turn s ref end = elim (lookup (resolve s ref) s.turns) [
  | some turn ↦ record s { turns = put (resolve s ref) (record turn { end = some end }) s.turns }
  | none ↦ record s { pending_end = trim max_pending_ends (put ref end s.pending_end) }
]

-- `_apply`, at the instant `now` of the monotonic clock.
unfoldable pub apply : Stream → ℤ → StreamSignal → Option Stream
apply s now stream_alive = some s
apply s now (turn_started at ref) = do (_, s') ← open_turn s ref (clock s at); some s'
apply s now (turn_partial text ref append) = if is_closed s ref then some s else do
  (turn, s') ← open_turn s ref (clock s none)
  some (
      publish_interim s' (record turn { text = if append then concat turn.text text else text })
        now)
apply s now (turn_ended at ref) = some (end_turn s ref (clock s at))
apply s now (turn_final text ref words at to) = some (close s ref text words at to)

unfoldable pub settle_turns : Stream → List OpenTurn → Stream
settle_turns s [] = s
settle_turns s (turn ∷ rest) = settle_turns (emit_settled (note_closed s turn.ref) turn) rest

-- `_settle_open`
unfoldable pub settle_open : Stream → Stream
unfolding settle_turns
settle_open s =
    settle_turns (record s { turns = []; order = []; settled = true }) (map (λ e. e.1) s.turns)

-- `_read`: every signal refreshes the watchdog, and is then applied.
unfoldable pub read : Stream → List (ℤ × StreamSignal) → Option Stream
read s [] = some s
read s ((now, signal) ∷ rest) = do s' ← apply (record s { last_rx = now }) now signal; read s' rest
