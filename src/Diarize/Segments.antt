-- ===== src/Diarize/Segments.antt =====
-- src/loreline/diarization/merge.py: the results of `segments_from_words` and `assign_speakers`.
use mathlib.Core.List.{reverse, reverse-reverse}
use loreline.Prelude.{
  String, ◌≡◌, refl, false, none, List, [], ◌∷◌, map, arith, str_eq, Option-cases, inl, inr,
}
use loreline.Transcript.{Word, TranscriptEvent}
use loreline.Diarize.Merge.{
  SpeakerSegment, extend, collapse, segments_from_words, label_word, assign_speakers,
}

-- Neighbours have different speakers.
abbrev pub Alternates : List SpeakerSegment → Type 0
Alternates [] = Unit
Alternates (a ∷ []) = Unit
Alternates (a ∷ b ∷ rest) = (str_eq b.speaker a.speaker ≡ false) × Alternates (b ∷ rest)

extend-Alternates :
    (w : Word) (k : String) (segments : List SpeakerSegment)
    → Alternates segments
    → Alternates (extend w k segments)
extend-Alternates w k [] h = tt
extend-Alternates w k (a ∷ []) h = ground arith
extend-Alternates w k (a ∷ b ∷ rest) h = ground arith

collapse-Alternates :
    (segments : List SpeakerSegment) (words : List Word)
    → Alternates segments
    → Alternates (collapse segments words)
unfolding collapse
collapse-Alternates segments [] h = h
collapse-Alternates segments (w ∷ words) h = elim (Option-cases w.speaker) [
  | inl nobody ↦ rw nobody (collapse-Alternates segments words h)
  | inr (k, said) ↦
      rw said (collapse-Alternates (extend w k segments) words (extend-Alternates w k segments h))
]

-- Inline diarization never cuts one speaker's stretch in two: neighbouring segments, read from the
-- last to the first, have different speakers.
pub segments_alternate : (words : List Word) → Alternates (reverse (segments_from_words words))
unfolding segments_from_words
segments_alternate words = rw reverse-reverse (collapse-Alternates [] words tt)

abbrev pub unlabelled : Word → Word
unlabelled w = record w { speaker = none }

unlabelled-label :
    (segments : List SpeakerSegment) (words : List Word)
    → map unlabelled (map (label_word segments) words) ≡ map unlabelled words
unlabelled-label segments [] = refl
unlabelled-label segments (w ∷ words) = rw (unlabelled-label segments words)

-- Labelling an event changes nothing but speakers: its text, its span, its turn and every word's text
-- and timing stay, and an event is left alone where there is no segment.
pub assign_speakers_keeps :
    (event : TranscriptEvent) (segments : List SpeakerSegment)
    → record (assign_speakers event segments) {
      words = map unlabelled (assign_speakers event segments).words;
      speaker = none;
    }
      ≡ record event { words = map unlabelled event.words; speaker = none }
unfolding assign_speakers
assign_speakers_keeps event [] = refl
assign_speakers_keeps event (first ∷ rest) = rw (unlabelled-label (first ∷ rest) event.words)
