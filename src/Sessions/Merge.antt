-- ===== src/Sessions/Merge.antt =====
-- src/loreline/web/routes/sessions.py: `merge_sessions`, of what it does to the tables. The sessions'
-- rows, the session under capture, the new id and the lengths of the merged audio are input.
use loreline.Prelude.{
  String, str_eq, is_blank, Bool, true, false, Option, none, some, List, [], ◌∷◌, map,
  if◌then◌else◌, any, length, ltb,
}
use loreline.Prelude.Int.{ℤ, pos, ◌+ℤ◌, ◌-ℤ◌, max_ℤ, ltb_ℤ}
use loreline.Prelude.Dict.{Dict, put, has}
use loreline.Transcript.{TranscriptEvent}
use loreline.Export.Versions.{variant_view, canonical_transcript, final_rows}
use loreline.Persistence.Segments.{Segments, add, for_session}
use loreline.Reprocess.Job.{JobStatus, queued, running, done, error, cancelled, ReprocessJob}
use loreline.Reprocess.Table.{Jobs, jobs_of, is_diarize}
use loreline.Reprocess.Work.{rebase_transcript}

-- What the merge reads of a session.
pub record Session : Type 0 where
  pub id : String
  pub started_at : ℤ
  pub primary_provider : Option String
  pub speaker_names : Dict String

pub record BestRows : Type 0 where
  pub rows : List TranscriptEvent
  pub provider_id : String

abbrev pub is_done : JobStatus → Bool
is_done queued = false
is_done running = false
is_done done = true
is_done error = false
is_done cancelled = false

abbrev pub rows_or_next : ReprocessJob → List TranscriptEvent → Option BestRows → Option BestRows
rows_or_next job [] next = next
rows_or_next job (e ∷ rows) next = some (record { rows = e ∷ rows; provider_id = job.provider_id })

-- The loop over the session's jobs, newest first.
unfoldable pub newest_done : List TranscriptEvent → Jobs → Option BestRows
newest_done events [] = none
newest_done events (job ∷ jobs) =
    let next = newest_done events jobs in
    if is_diarize job.operation
    then next
    else if is_done job.status
    then rows_or_next job (final_rows (variant_view events job.id)) next
    else next

abbrev pub provider_or_id : Session → String
provider_or_id session = elim session.primary_provider [
  | none ↦ session.id
  | some provider ↦ if is_blank provider then session.id else provider
]

unfoldable pub best_available_rows : Segments → Jobs → Session → BestRows
unfolding newest_done for_session canonical_transcript final_rows jobs_of
best_available_rows segments jobs session =
    let events = for_session segments session.id in
    elim (newest_done events (jobs_of jobs session.id)) [
      | none ↦ record {
        rows = final_rows (canonical_transcript events);
        provider_id = provider_or_id session;
      }
      | some best ↦ best
    ]

-- `sources.sort(key=lambda s: s.started_at)`
unfoldable pub place_source : Session → List Session → List Session
place_source s [] = s ∷ []
place_source s (t ∷ sources) =
    if ltb_ℤ s.started_at t.started_at then s ∷ t ∷ sources else t ∷ place_source s sources

unfoldable pub sort_sources : List Session → List Session → List Session
unfolding place_source
sort_sources sorted [] = sorted
sort_sources sorted (s ∷ sources) = sort_sources (place_source s sorted) sources

-- `[s for s in [get(i) for i in ids] if s is not None]`
abbrev pub keep_found : List (Option Session) → List Session
keep_found [] = []
keep_found (none ∷ found) = keep_found found
keep_found (some s ∷ found) = s ∷ keep_found found

-- `max(..., default=0.0)`
abbrev pub last_end : List TranscriptEvent → ℤ
last_end [] = pos 0
last_end (e ∷ []) = e.end_ts
last_end (e ∷ d ∷ rows) = max_ℤ e.end_ts (last_end (d ∷ rows))

-- How far a part advances the merged clock.
abbrev pub span_of : Option (String → ℤ) → Session → BestRows → ℤ
span_of none s part = last_end part.rows
span_of (some duration) s part = duration s.id

unfoldable pub merged_row : String → ℤ → String → TranscriptEvent → TranscriptEvent
unfolding rebase_transcript
merged_row merged_id offset provider event = record (rebase_transcript event (pos 0 -ℤ offset)) {
  session_id = merged_id;
  turn_id = none;
  source = provider;
}

unfoldable pub add_rows : Segments → List TranscriptEvent → Segments
unfolding add
add_rows rows [] = rows
add_rows rows (e ∷ events) = add_rows (add rows e) events

-- The loop over the parts, each with its span.
unfoldable pub merge_parts : String → ℤ → Segments → List (BestRows × ℤ) → Segments
unfolding merged_row add_rows
merge_parts merged_id offset rows [] = rows
merge_parts merged_id offset rows ((part, span) ∷ parts) =
    merge_parts merged_id (offset +ℤ span)
      (add_rows rows (map (merged_row merged_id offset part.provider_id) part.rows)) parts

-- `names.setdefault(label, name)`
abbrev pub set_defaults : Dict String → Dict String → Dict String
set_defaults names [] = names
set_defaults names ((label, name) ∷ rest) =
    set_defaults (if has label names then names else put label name names) rest

abbrev pub merge_names : Dict String → List Session → Dict String
merge_names names [] = names
merge_names names (s ∷ sources) = merge_names (set_defaults names s.speaker_names) sources

abbrev pub parts_of : Segments → Jobs → Option (String → ℤ) → List Session → List (BestRows × ℤ)
parts_of segments jobs durations sources =
    map (λ s. let part = best_available_rows segments jobs s in (part, span_of durations s part))
      sources

abbrev pub is_current : Option String → Session → Bool
is_current none s = false
is_current (some id) s = str_eq s.id id

-- How the route answers: with a conflict, or with what it made.
pub data Answer : Type 0 where
  conflict : String → Answer
  made : Segments → Dict String → Answer

unfoldable pub merge_sessions :
    Segments → Jobs → List (Option Session) → Option String → String → Option (String → ℤ) → Answer
unfolding best_available_rows sort_sources merge_parts
merge_sessions segments jobs found current merged_id durations =
    let sources = sort_sources [] (keep_found found) in
    if ltb (length (keep_found found)) 2
    then conflict "merge needs at least 2 sessions"
    else if any (is_current current) (keep_found found)
    then conflict "cannot merge a running session"
    else made (merge_parts merged_id (pos 0) segments (parts_of segments jobs durations sources))
        (merge_names [] sources)
