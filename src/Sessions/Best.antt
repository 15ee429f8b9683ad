-- ===== src/Sessions/Best.antt =====
-- src/loreline/web/routes/sessions.py: `best_available_rows`, whose rows are in the order of the readers.
use loreline.Prelude.{String, str_eq, Option, none, some, [], ◌∷◌, if_ind, select}
use loreline.Export.Versions.{
  original_version, is_tagged, variant_rows, variant_view, or_rows, canonical_transcript,
  final_rows, is_untagged, reprocess_prefix, diarize_prefix,
}
use loreline.Persistence.Segments.{Segments, for_session}
use loreline.Persistence.Order.{IsOrdered}
use loreline.Persistence.Sorted.{for_session-IsOrdered, select-IsOrdered}
use loreline.Reprocess.Job.{ReprocessJob}
use loreline.Reprocess.Table.{Jobs, jobs_of, is_diarize}
use loreline.Sessions.Merge.{
  Session, BestRows, is_done, rows_or_next, newest_done, best_available_rows,
}

or_rows-IsOrdered :
    (copies raw : Segments) → IsOrdered copies → IsOrdered raw → IsOrdered (or_rows copies raw)
or_rows-IsOrdered [] raw v w = w
or_rows-IsOrdered (e ∷ copies) raw v w = v

view-IsOrdered :
    (rows : Segments) (session version : String)
    → IsOrdered (final_rows (variant_view (for_session rows session) version))
unfolding final_rows variant_view variant_rows
view-IsOrdered rows session version = select-IsOrdered _ _ (
    or_rows-IsOrdered (select (is_tagged diarize_prefix version) (for_session rows session))
      (variant_rows (for_session rows session) version)
      (for_session-IsOrdered (is_tagged diarize_prefix version) rows session)
      (if_ind IsOrdered (str_eq version original_version)
        (λ _. for_session-IsOrdered is_untagged rows session)
        (λ _. for_session-IsOrdered (is_tagged reprocess_prefix version) rows session)))

abbrev BestOrdered : Option BestRows → Type 0
BestOrdered none = Unit
BestOrdered (some best) = IsOrdered best.rows

rows_or_next-ordered :
    (job : ReprocessJob) (rows : Segments) (next : Option BestRows)
    → IsOrdered rows
    → BestOrdered next
    → BestOrdered (rows_or_next job rows next)
rows_or_next-ordered job [] next v w = w
rows_or_next-ordered job (e ∷ rows) next v w = v

newest_done-ordered :
    (rows : Segments) (session : String) (jobs : Jobs)
    → BestOrdered (newest_done (for_session rows session) jobs)
unfolding newest_done
newest_done-ordered rows session [] = tt
newest_done-ordered rows session (job ∷ jobs) =
    let next = newest_done (for_session rows session) jobs in
    let later = newest_done-ordered rows session jobs in
    if_ind BestOrdered (is_diarize job.operation) (λ _. later)
      (λ _.
        if_ind BestOrdered (is_done job.status)
          (λ _.
            rows_or_next-ordered job (final_rows (variant_view (for_session rows session) job.id))
              next (view-IsOrdered rows session job.id) later)
          (λ _. later))

or_own-IsOrdered :
    (best : Option BestRows) (own : BestRows)
    → BestOrdered best
    → IsOrdered own.rows
    → IsOrdered (elim best as (λ x. BestRows) [ none ↦ own | some b ↦ b ]).rows
or_own-IsOrdered none own v w = w
or_own-IsOrdered (some b) own v w = v

-- The rows that a merge takes of a session are in order.
pub best-IsOrdered :
    (rows : Segments) (jobs : Jobs) (s : Session) → IsOrdered (best_available_rows rows jobs s).rows
unfolding best_available_rows canonical_transcript
best-IsOrdered rows jobs s =
    or_own-IsOrdered (newest_done (for_session rows s.id) (jobs_of jobs s.id)) _
      (newest_done-ordered rows s.id (jobs_of jobs s.id))
      (view-IsOrdered rows s.id original_version)
