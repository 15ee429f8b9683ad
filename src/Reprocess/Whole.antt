-- ===== src/Reprocess/Whole.antt =====
-- src/loreline/reprocess/jobs.py: what a diarize job leaves of its target, whole copy, none or, after an
-- exception in the loop, a part.
use loreline.Prelude.{
  ℕ, String, Bool, true, false, Option, none, some, List, [], ◌∷◌, take, if_ind, select, length,
  ◌≡◌, refl, ap, ◌∙◌, inl, inr, ◌⊎◌, arith,
}
use loreline.Transcript.{TranscriptEvent}
use loreline.Diarize.Merge.{SpeakerSegment}
use loreline.Export.Versions.{variant_rows, variant_view, or_rows}
use loreline.Persistence.Segments.{Segments, is_of, for_session, delete_source}
use loreline.Persistence.Turns.{OneRowPerTurn}
use loreline.Reprocess.Job.{Operation, transcribe, diarize, done, error}
use loreline.Reprocess.Work.{
  Raised, exception, torn_down, Cut, Work, then_relabel, diarize_preparation, copy_source,
  keep_whole, write_copies, relabelled, relabel_version, diarize_session,
}
use loreline.Reprocess.Cut.{
  is_exception, cut_by, rows_before, write_copies_uncut, write_copies_cut, take-All,
  take-OneRowPerTurn, take-IsOrdered,
}
use loreline.Reprocess.Run.{Task, attempt, conclude, start, run, settled}
use loreline.Reprocess.Foreign.{is_raw, hidden-delete_source, copy-HidesLike}
use loreline.Reprocess.Copies.{select-copies, select-delete_source}
use loreline.Reprocess.Shown.{
  relabelled-IsOrdered, relabelled-All, raw_of, write_copies-raw, view_of_parts,
}

module _ (before : Work) (found : List SpeakerSegment) (cut : Option Cut) where
  abbrev session : String
  session = before.job.session_id

  abbrev version : String
  version = before.job.target

  abbrev raw : List TranscriptEvent
  raw = variant_rows (for_session before.segments session) version

  abbrev view : Work → List TranscriptEvent
  view w = variant_view (for_session w.segments session) version

  -- What the target shows afterwards, with what the job's row says: its rows as before, its own rows
  -- without a copy, the whole copy, or, where a statement of the loop raised an exception, the copies that
  -- were written until then.
  abbrev pub IsWhole : Work → Type 0
  IsWhole after =
      (view after ≡ view before)
      ⊎ ((view after ≡ raw) × (after.job.segments_added ≡ 0))
      ⊎ ((view after ≡ or_rows (relabelled before found) raw)
          × (after.job.segments_added ≡ length (relabelled before found))
          × (after.job.status ≡ done))
      ⊎ ((view after ≡ or_rows (take (rows_before cut) (relabelled before found)) raw)
          × (is_exception (cut_by cut) ≡ true)
          × (after.job.status ≡ error))

  -- What the writing loop comes to.
  abbrev Written : Segments × ℕ × Option Raised → Type 0
  Written out =
      (select (raw_of session version) out.0 ≡ select (raw_of session version) before.segments)
      × ((out.2 ≡ none)
          → (select (is_of session (copy_source before.job)) out.0 ≡ relabelled before found)
            × (out.1 ≡ length (relabelled before found)))
      × ((is_exception out.2 ≡ true)
          → (select (is_of session (copy_source before.job)) out.0
              ≡ take (rows_before cut) (relabelled before found))
            × (is_exception (cut_by cut) ≡ true))

  keep_whole-IsWhole :
      (task : Task) (speakers : Bool) (out : Segments × ℕ × Option Raised)
      → Written out
      → let left = keep_whole before speakers out in IsWhole (conclude task (left.0, false, left.1))
  unfolding settled
  keep_whole-IsWhole task speakers (rows, count, some torn_down) h = inr (
      inl (
        view_of_parts session version (delete_source rows session (copy_source before.job))
            before.segments [] (select-delete_source session (copy_source before.job) rows) tt
            (hidden-delete_source (is_raw version) session session (copy_source before.job) rows
                (copy-HidesLike version)
              ∙ h.0),
        refl,
      ))
  keep_whole-IsWhole task speakers (rows, count, some (exception why)) h = inr (
      inr (
        inr (
          view_of_parts session version rows before.segments
              (take (rows_before cut) (relabelled before found)) (h.2 refl).0
              (take-IsOrdered (rows_before cut) (relabelled before found)
                (relabelled-IsOrdered before found))
              h.0,
          (h.2 refl).1,
          refl,
        )))
  keep_whole-IsWhole task speakers (rows, count, none) h = inr (
      inr (
        inl (
          view_of_parts session version rows before.segments (relabelled before found) (h.1 refl).0
              (relabelled-IsOrdered before found) h.0,
          (h.1 refl).1,
          refl,
        )))

  written :
      OneRowPerTurn (relabelled before found)
      → Written (
          write_copies cut 0
            (delete_source before.segments session (copy_source before.job))
            (relabelled before found))
  written h =
      let emptied = delete_source before.segments session (copy_source before.job) in
      let copies = relabelled before found in
      (
        write_copies-raw session version cut 0 emptied copies (relabelled-All before found)
            ∙ hidden-delete_source (is_raw version) session session (copy_source before.job)
                before.segments (copy-HidesLike version),
        λ uncut.
            let whole = write_copies_uncut cut 0 emptied copies uncut in
            (
              ap (select (is_of session (copy_source before.job))) whole.0
                  ∙ select-copies session (copy_source before.job) 0 before.segments copies
                      (relabelled-All before found) h,
              whole.1 ∙ omega arith,
            ),
        λ failed.
            let part = write_copies_cut cut 0 emptied copies failed in
            (
              ap (select (is_of session (copy_source before.job))) part.1
                  ∙ select-copies session (copy_source before.job) 0 before.segments
                      (take (rows_before cut) copies)
                      (take-All (is_of session (copy_source before.job)) (rows_before cut) copies
                        (relabelled-All before found))
                      (take-OneRowPerTurn (rows_before cut) copies h),
              part.0,
            ),
      )

then_relabel-IsWhole :
    (before : Work) (task : Task) (cut : Option Cut) (why : Option Raised)
    (found : List SpeakerSegment)
    → OneRowPerTurn (relabelled before found)
    → let left = then_relabel before cut why found in
      IsWhole before found cut (conclude task (left.0, false, left.1))
unfolding then_relabel relabel_version
then_relabel-IsWhole before task cut (some why) found h = inl refl
then_relabel-IsWhole before task cut none [] h = inl refl
then_relabel-IsWhole before task cut none (first ∷ rest) h =
    keep_whole-IsWhole before (first ∷ rest) cut task _ _ (written before (first ∷ rest) cut h)

attempt-IsWhole :
    (o : Operation) (before : Work) (task : Task)
    → o ≡ diarize
    → OneRowPerTurn (relabelled before task.relabel.found_segments)
    → IsWhole before task.relabel.found_segments task.relabel.cut
        (conclude task (attempt o before task))
unfolding attempt diarize_session
attempt-IsWhole diarize before task e h =
    then_relabel-IsWhole before task task.relabel.cut (diarize_preparation before.job task.relabel)
      task.relabel.found_segments h
attempt-IsWhole transcribe before task e h = cc

-- Where no two final rows of the target share a turn, and the statements outside the loop that writes the
-- copies succeed on the tables: whatever a diarize job meets and wherever it is interrupted, the target
-- shows what it showed before, or its own rows without a copy and the job counts no segment, or every final
-- row of it relabelled and the job is done and counts them all (with no final row there is no copy, and
-- the target's own rows show). Only where a row's write or its count's raises an exception, which is not a
-- cancellation, may the job end in error with the copy cut there: the rows written until then, relabelled,
-- and none after them.
pub diarize_all_or_nothing :
    (work : Work) (task : Task)
    → work.job.operation ≡ diarize
    → OneRowPerTurn (relabelled work task.relabel.found_segments)
    → IsWhole work task.relabel.found_segments task.relabel.cut (run work task)
unfolding run start relabelled
diarize_all_or_nothing work task o h =
    if_ind (IsWhole work task.relabel.found_segments task.relabel.cut) task.requested_first
      (λ _. inl refl) (λ _. attempt-IsWhole work.job.operation (start work task) task o h)
