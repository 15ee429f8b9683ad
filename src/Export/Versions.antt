-- ===== src/Export/Versions.antt =====
-- src/loreline/export.py: which rows of a session make up a version of its transcript.
use loreline.Prelude.{
  String, str_eq, concat, is_blank, starts_with, Bool, not, ◌&&◌, ◌||◌, Option, none, some, List,
  [], ◌∷◌, if◌then◌else◌, select, any, map,
}
use loreline.Prelude.Dict.{Dict, lookup}
use loreline.Transcript.{TranscriptEvent, gap_source}

abbrev pub original_version : String
original_version = "original"

abbrev pub diarize_prefix : String
diarize_prefix = "diarize:"

abbrev pub reprocess_prefix : String
reprocess_prefix = "reprocess:"

-- The row's source, where it is the version's own.
abbrev pub is_tagged : String → String → TranscriptEvent → Bool
is_tagged prefix version e = str_eq e.source (concat prefix version)

abbrev pub is_untagged : TranscriptEvent → Bool
is_untagged e = not (starts_with e.source reprocess_prefix || starts_with e.source diarize_prefix)

unfoldable pub variant_rows : List TranscriptEvent → String → List TranscriptEvent
variant_rows events version =
    if str_eq version original_version
    then select is_untagged events
    else select (is_tagged reprocess_prefix version) events

abbrev pub or_rows : List TranscriptEvent → List TranscriptEvent → List TranscriptEvent
or_rows [] raw = raw
or_rows (e ∷ diarized) raw = e ∷ diarized

unfoldable pub variant_view : List TranscriptEvent → String → List TranscriptEvent
unfolding variant_rows
variant_view events version =
    or_rows (select (is_tagged diarize_prefix version) events) (variant_rows events version)

unfoldable pub has_version : List TranscriptEvent → String → Bool
has_version events version =
    str_eq version original_version
    || any (λ e. is_tagged reprocess_prefix version e || is_tagged diarize_prefix version e) events

unfoldable pub canonical_transcript : List TranscriptEvent → List TranscriptEvent
unfolding variant_view
canonical_transcript events = variant_view events original_version

unfoldable pub final_rows : List TranscriptEvent → List TranscriptEvent
final_rows events = select (λ e. e.is_final && not (str_eq e.source gap_source)) events

abbrev pub or_name : Option String → String → String
or_name none speaker = speaker
or_name (some name) speaker = name

abbrev pub relabel : Dict String → Option String → Option String
relabel names none = none
relabel names (some speaker) =
    if is_blank speaker then some speaker else some (or_name (lookup speaker names) speaker)

abbrev pub relabel_event : Dict String → TranscriptEvent → TranscriptEvent
relabel_event names e = record e { speaker = relabel names e.speaker }

unfoldable pub relabel_speakers : List TranscriptEvent → Dict String → List TranscriptEvent
relabel_speakers events [] = events
relabel_speakers events (name ∷ names) = map (relabel_event (name ∷ names)) events
