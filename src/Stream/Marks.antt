-- ===== src/Stream/Marks.antt =====
-- src/loreline/stt/streaming.py: the span that dead connections swallow, from the first death to the
-- first frame of the connection that works again.
use loreline.Prelude.{
  Bool, true, false, String, Option, none, some, List, [], ◌∷◌, map, ◌≡◌, refl, ap, ◌∙◌, subst,
  arith,
}
use loreline.Prelude.Int.{ℤ, ltb_ℤ, leb_ℤ, min_ℤ, eq_of_parts}
use loreline.Prelude.Dict.{lookup}
use loreline.Transcript.{TranscriptEvent, gap_source}
use loreline.Stream.Model.{Frame, Item, frame, stop_mark, OpenTurn, PendingGap, Stream}
use loreline.Stream.Turns.{emit, emit_settled, note_closed, settle_turns, settle_open}
use loreline.Stream.Queue.{drain}
use loreline.Stream.Gaps.{gap_event, note_event, open_gap, widen, oldest_start, publish_gap}
use loreline.Stream.Connection.{
  reset_connection, write, wind_up, serve, sent, run_connection, step, send_item, lost,
}

-- Since when a connection that dies has said nothing that is final: its oldest open turn's start, or the
-- last frame that it wrote, where no turn is open.
pub data LostSince (s : Stream) (at : ℤ) : Type 0 where
  in_turn :
      (key : String) (rest : List String) (turn : OpenTurn)
      → s.order ≡ key ∷ rest
      → lookup key s.turns ≡ some turn
      → turn.start ≡ at
      → LostSince s at
  in_silence : s.order ≡ [] → s.last_ts ≡ at → LostSince s at

-- The earlier of an instant and the start of a gap that was open before.
abbrev pub earliest : ℤ → Option PendingGap → ℤ
earliest at none = at
earliest at (some gap) = min_ℤ at gap.start

-- Connections that end before they write a frame: their reader is gone by the first turn of the send loop.
pub data Unheard (s : Stream) : Stream → Type 0 where
  not_one : Unheard s s
  one_more :
      {s' s'' : Stream}
      → Unheard s s'
      → (now at : ℤ) (blocked : Bool) → serve s' now (sent at true blocked ∷ []) ≡ some s''
      → Unheard s s''

record SameGap (s s' : Stream) : Type 0 where
  gap_lem : s'.gap ≡ s.gap
  config_lem : s'.config ≡ s.config

emit_settled-SameGap :
    (s : Stream) (turn : OpenTurn) → SameGap s (emit_settled (note_closed s turn.ref) turn)
unfolding emit note_closed
emit_settled-SameGap s turn = ground arith

settle_turns-SameGap : (s : Stream) (turns : List OpenTurn) → SameGap s (settle_turns s turns)
unfolding settle_turns
settle_turns-SameGap s [] = record { gap_lem = refl; config_lem = refl }
settle_turns-SameGap s (turn ∷ rest) =
    let first = emit_settled-SameGap s turn in
    let later = settle_turns-SameGap (emit_settled (note_closed s turn.ref) turn) rest in
    record {
      gap_lem = later.gap_lem ∙ first.gap_lem;
      config_lem = later.config_lem ∙ first.config_lem;
    }

settle_open-SameGap : (s : Stream) → SameGap s (settle_open s)
unfolding settle_open
settle_open-SameGap s =
    let v =
      settle_turns-SameGap (record s { turns = []; order = []; settled = true })
        (map (λ e. e.1) s.turns) in
    record { gap_lem = v.gap_lem; config_lem = v.config_lem }

record SameMarks (s s' : Stream) : Type 0 where
  same_gap : s'.gap ≡ s.gap
  same_config : s'.config ≡ s.config
  same_published : s'.published ≡ s.published

-- What one of them leaves, on the queue that it finds.
unheard_queue :
    (s r s' : Stream) (at : ℤ) (blocked : Bool) (queue : List Item)
    → r.t0 ≡ none
    → r.turns ≡ []
    → SameMarks s r
    → (let left = send_item r at true blocked queue in wind_up left.0 left.1) ≡ s'
    → SameMarks s s'
unfolding settle_open settle_turns open_gap
unheard_queue s r s' at blocked [] e h v k = subst (SameMarks s) k (ground (arith, h, v))
unheard_queue s r s' at blocked (frame f ∷ queue) e h v k =
    subst (SameMarks s) k (ground (arith, e, h, v))
unheard_queue s r s' at blocked (stop_mark ∷ queue) e h v k =
    subst (SameMarks s) k (ground (arith, h, v))

some_inj : (a b : Stream) → some a ≡ some b → a ≡ b
some_inj a b h = cc

unheard_lem :
    (s s' : Stream) (now at : ℤ) (blocked : Bool)
    → serve s now (sent at true blocked ∷ []) ≡ some s'
    → SameMarks s s'
unfolding serve run_connection step reset_connection drain
unheard_lem s s' now at blocked h =
    let r = reset_connection s now in
    unheard_queue s r s' at blocked r.queue refl refl
      (record { same_gap = refl; same_config = refl; same_published = refl }) (some_inj _ s' h)

Unheard-SameMarks : {s s' : Stream} → Unheard s s' → SameMarks s s'
Unheard-SameMarks not_one = record { same_gap = refl; same_config = refl; same_published = refl }
Unheard-SameMarks (one_more {s'} {s''} before now at blocked h) =
    let v = Unheard-SameMarks before in
    let w = unheard_lem s' s'' now at blocked h in
    record {
      same_gap = w.same_gap ∙ v.same_gap;
      same_config = w.same_config ∙ v.same_config;
      same_published = w.same_published ∙ v.same_published;
    }

oldest_lem : (s : Stream) (at : ℤ) → LostSince s at → oldest_start s ≡ at
oldest_lem s at (in_turn key rest turn e h k) = ground (arith, e, h, k)
oldest_lem s at (in_silence e h) = ground (arith, e, h)

widen_lem :
    (provider : String) (at : ℤ) (gap : Option PendingGap)
    → (widen provider at gap).start ≡ earliest at gap
widen_lem provider at none = refl
widen_lem provider at (some gap) = ground (arith, eq_of_parts at gap.start)

opened_gap :
    (s : Stream) (t0 : ℤ)
    → s.t0 ≡ some t0
    → ((open_gap s).gap ≡ some (widen s.provider_name (oldest_start s) s.gap))
      × ((open_gap s).config ≡ s.config)
unfolding open_gap
opened_gap s t0 e = ground arith

-- A marker of a session, over a span.
abbrev pub IsMarker : String → ℤ → ℤ → TranscriptEvent → Type 0
IsMarker session from until event =
    (event.session_id ≡ session)
    × (event.source ≡ gap_source)
    × (event.start_ts ≡ from)
    × (event.end_ts ≡ until)
    × (event.is_final ≡ true)

marker_lem :
    (session : String) (gap : PendingGap) (until : ℤ)
    → ltb_ℤ gap.start until ≡ true
    → (event : TranscriptEvent) × (gap_event session (some gap) until ≡ some event)
      × IsMarker session gap.start until event
unfolding gap_event
marker_lem session gap until h =
    let late : leb_ℤ until gap.start ≡ false = ground (arith, h) in
    rw late (_, refl, (refl, refl, refl, refl, refl))

resumed :
    (s : Stream) (now : ℤ) (f : Frame)
    → ((write (reset_connection s now) now f).gap ≡ none)
      × ((write (reset_connection s now) now f).published
          ≡ note_event (gap_event s.config.session_id s.gap f.ts) s.published)
unfolding write reset_connection drain publish_gap
resumed s now f = ground arith

-- After a connection that had written audio is lost and torn down, and any number of connections after it
-- whose reader was gone by the first turn of the send loop, the first frame that is written publishes one
-- marker, above what the lost connection's turns were settled to, and no gap is open. The marker is final,
-- of the session, and runs to that frame from the start of the oldest turn that the lost connection had
-- open, or from its last frame where no turn was open, or from the start of a gap that was open before, if
-- that is earlier; the frame has to come after that.
pub lost_span_is_marked :
    (s s' : Stream) (t0 at now : ℤ) (f : Frame)
    → s.t0 ≡ some t0
    → LostSince s at
    → Unheard (wind_up s lost) s'
    → ltb_ℤ (earliest at s.gap) f.ts ≡ true
    → ((write (reset_connection s' now) now f).gap ≡ none)
      × ((event : TranscriptEvent) × ((write (reset_connection s' now) now f).published
            ≡ event ∷ (wind_up s lost).published)
          × IsMarker s.config.session_id (earliest at s.gap) f.ts event)
lost_span_is_marked s s' t0 at now f e since unheard h =
    let opened = opened_gap s t0 e in
    let settled = settle_open-SameGap (open_gap s) in
    let same = Unheard-SameMarks unheard in
    let gap = widen s.provider_name (oldest_start s) s.gap in
    let start : gap.start ≡ earliest at s.gap =
      ap (λ x. (widen s.provider_name x s.gap).start) (oldest_lem s at since)
      ∙ widen_lem s.provider_name at s.gap in
    let pending : s'.gap ≡ some gap = same.same_gap ∙ settled.gap_lem ∙ opened.0 in
    let session : s'.config.session_id ≡ s.config.session_id =
      ap (λ c. c.session_id) (same.same_config ∙ settled.config_lem ∙ opened.1) in
    let (event, made, marks) =
      marker_lem s.config.session_id gap f.ts (ap (λ x. ltb_ℤ x f.ts) start ∙ h) in
    let (closed, shown) = resumed s' now f in
    (
      closed,
      (
        event,
        shown
            ∙ ap (λ x. note_event (gap_event x s'.gap f.ts) s'.published) session
            ∙ ap (λ x. note_event (gap_event s.config.session_id x f.ts) s'.published) pending
            ∙ ap (λ x. note_event x s'.published) made
            ∙ ap (λ x. event ∷ x) same.same_published,
        (marks.0, marks.1, marks.2 ∙ start, marks.3, marks.4),
      ),
    )
