-- ===== src/Diarize/Merge.antt =====
-- src/loreline/diarization/merge.py: speakers for a transcript event by the time that its words share
-- with a diarizer's segments. Instants are whole microseconds.
use loreline.Prelude.{
  ℕ, ◌+◌, String, Option, none, some, List, [], ◌∷◌, map, ltb, ◌==◌, if◌then◌else◌, is_blank,
  str_eq,
}
use mathlib.Core.List.{reverse}
use loreline.Prelude.Int.{ℤ, pos_part, ◌+ℤ◌, ◌-ℤ◌, max_ℤ, min_ℤ}
use loreline.Prelude.Dict.{Dict, lookup, put}
use loreline.Transcript.{Word, TranscriptEvent}

pub record SpeakerSegment : Type 0 where
  pub start : ℤ
  pub end : ℤ
  pub speaker : String

-- `max(0.0, a)`
abbrev pub at_least_zero : ℤ → ℕ
at_least_zero a = pos_part a

-- The segments so far are newest first: `extend` looks at `segments[-1]`.
abbrev pub extend : Word → String → List SpeakerSegment → List SpeakerSegment
extend word speaker [] = (record { start = word.start; end = word.end; speaker = speaker }) ∷ []
extend word speaker (last ∷ older) =
    if str_eq last.speaker speaker
    then (record last { end = word.end }) ∷ older
    else (record { start = word.start; end = word.end; speaker = speaker }) ∷ last ∷ older

abbrev pub add_word : List SpeakerSegment → Word → List SpeakerSegment
add_word segments word = elim word.speaker [
  | none ↦ segments
  | some speaker ↦ extend word speaker segments
]

-- The loop of `segments_from_words`.
unfoldable pub collapse : List SpeakerSegment → List Word → List SpeakerSegment
collapse segments [] = segments
collapse segments (word ∷ words) = collapse (add_word segments word) words

unfoldable pub segments_from_words : List Word → List SpeakerSegment
unfolding collapse
segments_from_words words = reverse (collapse [] words)

unfoldable pub overlap : ℤ → ℤ → SpeakerSegment → ℕ
overlap start end segment = at_least_zero (min_ℤ end segment.end -ℤ max_ℤ start segment.start)

-- `totals.get(speaker, 0.0)`
abbrev pub total_of : String → Dict ℕ → ℕ
total_of speaker totals = elim (lookup speaker totals) [ none ↦ 0 | some n ↦ n ]

unfoldable pub add_time : String → ℕ → Dict ℕ → Dict ℕ
add_time speaker time totals = put speaker (total_of speaker totals + time) totals

unfoldable pub totals_from : ℤ → ℤ → Dict ℕ → List SpeakerSegment → Dict ℕ
totals_from start end totals [] = totals
totals_from start end totals (segment ∷ rest) =
    totals_from start end
      (if overlap start end segment == 0
        then totals
        else add_time segment.speaker (overlap start end segment) totals)
      rest

-- `max(totals, key=...)`: the first key with the largest value.
unfoldable pub best_from : String × ℕ → Dict ℕ → String × ℕ
best_from best [] = best
best_from best ((speaker, time) ∷ rest) =
    best_from (if ltb best.1 time then (speaker, time) else best) rest

abbrev pub longest : Dict ℕ → Option String
longest [] = none
longest (first ∷ rest) = some (best_from first rest).0

unfoldable pub speaker_for : ℤ → ℤ → List SpeakerSegment → Option String
unfolding overlap add_time totals_from best_from
speaker_for start end segments = longest (totals_from start end [] segments)

unfoldable pub durations_from : Dict ℕ → List Word → Dict ℕ
durations_from durations [] = durations
durations_from durations (word ∷ words) =
    durations_from
      (elim word.speaker [
        | none ↦ durations
        | some speaker ↦ add_time speaker (at_least_zero (word.end -ℤ word.start)) durations
      ])
      words

unfoldable pub dominant_speaker : List Word → Option String
unfolding durations_from add_time best_from
dominant_speaker words = longest (durations_from [] words)

-- `a or b` of two optional texts: an empty text counts as none.
abbrev pub or_speaker : Option String → Option String → Option String
or_speaker none b = b
or_speaker (some a) b = if is_blank a then b else some a

abbrev pub label_word : List SpeakerSegment → Word → Word
label_word segments word = record word {
  speaker = or_speaker (speaker_for word.start word.end segments) word.speaker;
}

unfoldable pub assign_speakers : TranscriptEvent → List SpeakerSegment → TranscriptEvent
unfolding speaker_for dominant_speaker
assign_speakers event [] = event
assign_speakers event (first ∷ rest) =
    let segments = first ∷ rest in
    let labelled = map (label_word segments) event.words in
    record event {
      words = labelled;
      speaker =
          or_speaker (dominant_speaker labelled)
            (or_speaker (speaker_for event.start_ts event.end_ts segments) event.speaker);
    }

-- `off` is the source's NONE.
pub data DiarizationMode : Type 0 where
  inline remote openai off : DiarizationMode

abbrev pub shift : ℤ → SpeakerSegment → SpeakerSegment
shift start s = record s { start = s.start +ℤ start; end = s.end +ℤ start }

-- `merge_diarization`: `diarizer` is none where there is none, and its answer on this audio is none
-- where the call raised; so is the result.
unfoldable pub merge_diarization :
    TranscriptEvent
    → ℤ
    → DiarizationMode
    → Option (Option (List SpeakerSegment))
    → Option TranscriptEvent
unfolding assign_speakers segments_from_words
merge_diarization event start remote (some (some segments)) =
    some (assign_speakers event (map (shift start) segments))
merge_diarization event start remote (some none) = none
merge_diarization event start remote none = some event
merge_diarization event start inline diarizer =
    some (assign_speakers event (segments_from_words event.words))
merge_diarization event start openai diarizer = some event
merge_diarization event start off diarizer = some event
