-- ===== src/Stream/Gaps.antt =====
-- src/loreline/stt/streaming.py: the marker for audio that a dead connection swallowed.
use loreline.Prelude.{String, true, Option, none, some, List, [], ◌∷◌, if◌then◌else◌, concat}
use loreline.Prelude.Int.{ℤ, ◌-ℤ◌, leb_ℤ, ltb_ℤ, round_div, show_ℤ}
use loreline.Prelude.Dict.{lookup}
use loreline.Transcript.{TranscriptEvent, gap_source}
use loreline.Stream.Model.{PendingGap, Stream}

unfoldable pub gap_event : String → Option PendingGap → ℤ → Option TranscriptEvent
gap_event session_id none until = none
gap_event session_id (some gap) until =
    if leb_ℤ until gap.start
    then none
    else some (record {
      session_id = session_id;
      source = gap_source;
      text = concat (show_ℤ (round_div (until -ℤ gap.start) 1000000)) (
          concat "s of audio was not transcribed: the connection to "
            (concat gap.provider " dropped."));
      words = [];
      speaker = none;
      start_ts = gap.start;
      end_ts = until;
      is_final = true;
      turn_id = none;
    })

-- The history after the callback was handed an event, if there is one.
abbrev pub note_event : Option TranscriptEvent → List TranscriptEvent → List TranscriptEvent
note_event none history = history
note_event (some event) history = event ∷ history

unfoldable pub publish_gap : Stream → ℤ → Stream
unfolding gap_event
publish_gap s until = record s {
  gap = none;
  published = note_event (gap_event s.config.session_id s.gap until) s.published;
}

-- The start of the oldest open turn, or the last frame written.
abbrev pub oldest_start : Stream → ℤ
oldest_start s = elim s.order [
  | [] ↦ s.last_ts
  | key ∷ _ ↦ elim (lookup key s.turns) [ none ↦ s.last_ts | some turn ↦ turn.start ]
]

abbrev pub widen : String → ℤ → Option PendingGap → PendingGap
widen provider oldest none = record { start = oldest; provider = provider }
widen provider oldest (some gap) =
    if ltb_ℤ oldest gap.start then record gap { start = oldest } else gap

unfoldable pub open_gap : Stream → Stream
open_gap s = elim s.t0 [
  | none ↦ s
  | some _ ↦ record s { gap = some (widen s.provider_name (oldest_start s) s.gap) }
]
