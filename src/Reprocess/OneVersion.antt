-- ===== src/Reprocess/OneVersion.antt =====
-- src/loreline/reprocess/jobs.py: a run changes the version that it is for, and no other.
use loreline.Prelude.{
  ℕ, zero, suc, String, Bool, true, false, Option, none, some, List, [], ◌∷◌, map, select, if_ind,
  ◌≡◌, ◌≢◌, refl, ◌∙◌, inl, inr,
}
use loreline.Prelude.Int.{ℤ}
use loreline.Transcript.{TranscriptEvent}
use loreline.Diarize.Merge.{SpeakerSegment}
use loreline.Export.Versions.{original_version, variant_view}
use loreline.Persistence.Segments.{Segments, add, for_session, delete_source}
use loreline.Reprocess.Job.{Operation, transcribe, diarize, ReprocessJob}
use loreline.Reprocess.Work.{
  Raised, exception, torn_down, Cut, Work, Replay, store, store_all, then_drive, then_relabel,
  drive, preparation, diarize_preparation, copy_source, keep_whole, write_copies, relabelled,
  relabel_version, transcribe_session, diarize_session, tagged,
}
use loreline.Reprocess.Run.{Task, attempt, start, run}
use loreline.Reprocess.Foreign.{IsSourceOf, seen, seen-add, seen-delete_source, view-seen}

-- The version that a job's run writes.
abbrev pub written_version : Operation → String → String → String
written_version transcribe id target = id
written_version diarize id target = target

abbrev pub version_for : Operation → ReprocessJob → String
version_for operation job = written_version operation job.id job.target

-- What the other version's view reads is the same in two tables.
abbrev Unseen : String → String → Segments → Segments → Type 0
Unseen session w before after = select (seen session w) after ≡ select (seen session w) before

store_all-Unseen :
    (session w : String) (torn : Option ℕ) (count : ℕ) (offset : ℤ) (work : Work)
    (events : List TranscriptEvent)
    → work.job.id ≢ w
    → work.job.id ≢ original_version
    → Unseen session w work.segments (store_all torn count offset work events).0.segments
unfolding store_all store tagged
store_all-Unseen session w torn count offset work [] h k = refl
store_all-Unseen session w (some zero) count offset work (e ∷ events) h k = refl
store_all-Unseen session w (some (suc n)) count offset work (e ∷ events) h k =
    store_all-Unseen session w (some n) (suc count) offset (store count offset work e) events h k
    ∙ seen-add work.job.id w session work.segments (tagged work.job offset e) h (inr (k, refl))
store_all-Unseen session w none count offset work (e ∷ events) h k =
    store_all-Unseen session w none (suc count) offset (store count offset work e) events h k
    ∙ seen-add work.job.id w session work.segments (tagged work.job offset e) h (inr (k, refl))

then_drive-Unseen :
    (session w : String) (work : Work) (env : Replay) (why : Option Raised)
    → work.job.id ≢ w
    → work.job.id ≢ original_version
    → Unseen session w work.segments (then_drive work env why).0.segments
unfolding then_drive drive
then_drive-Unseen session w work env (some why) h k = refl
then_drive-Unseen session w work env none h k =
    store_all-Unseen session w env.torn_at 0 env.started_mono work _ h k

write_copies-Unseen :
    (session v w source : String) (cut : Option Cut) (count : ℕ) (rows : Segments)
    (f : TranscriptEvent → TranscriptEvent) (events : List TranscriptEvent)
    → v ≢ w
    → ((e : TranscriptEvent) → IsSourceOf v (f e).source)
    → Unseen session w rows (write_copies cut count rows (map f events)).0
unfolding write_copies
write_copies-Unseen session v w source cut count rows f [] h k = refl
write_copies-Unseen session v w source (some (zero, false, why)) count rows f (e ∷ events) h k =
    refl
write_copies-Unseen session v w source (some (zero, true, why)) count rows f (e ∷ events) h k =
    seen-add v w session rows (f e) h (k e)
write_copies-Unseen session v w source (some (suc n, stored, why)) count rows f (e ∷ events) h k =
    write_copies-Unseen session v w source (some (n, stored, why)) (suc count) (add rows (f e)) f
      events h k
    ∙ seen-add v w session rows (f e) h (k e)
write_copies-Unseen session v w source none count rows f (e ∷ events) h k =
    write_copies-Unseen session v w source none (suc count) (add rows (f e)) f events h k
    ∙ seen-add v w session rows (f e) h (k e)

keep_whole-Unseen :
    (session w : String) (work : Work) (speakers : Bool) (before : Segments)
    (out : Segments × ℕ × Option Raised)
    → work.job.target ≢ w
    → Unseen session w before out.0
    → Unseen session w before (keep_whole work speakers out).0.segments
keep_whole-Unseen session w work speakers before (rows, count, some torn_down) h u =
    seen-delete_source work.job.target w session work.job.session_id (copy_source work.job) rows h
      (inl refl)
    ∙ u
keep_whole-Unseen session w work speakers before (rows, count, some (exception why)) h u = u
keep_whole-Unseen session w work speakers before (rows, count, none) h u = u

then_relabel-Unseen :
    (session w : String) (work : Work) (cut : Option Cut) (why : Option Raised)
    (found : List SpeakerSegment)
    → work.job.target ≢ w
    → Unseen session w work.segments (then_relabel work cut why found).0.segments
unfolding then_relabel relabel_version relabelled
then_relabel-Unseen session w work cut (some why) found h = refl
then_relabel-Unseen session w work cut none [] h = refl
then_relabel-Unseen session w work cut none (first ∷ rest) h =
    let emptied = delete_source work.segments work.job.session_id (copy_source work.job) in
    keep_whole-Unseen session w work _ work.segments
      (write_copies cut 0 emptied (relabelled work (first ∷ rest))) h
      (write_copies-Unseen session work.job.target w (copy_source work.job) cut 0 emptied _ _ h
          (λ e. inl refl)
        ∙ seen-delete_source work.job.target w session work.job.session_id (copy_source work.job)
            work.segments h (inl refl))

attempt-Unseen :
    (session w : String) (o : Operation) (work : Work) (task : Task)
    → version_for o work.job ≢ w
    → work.job.id ≢ original_version
    → Unseen session w work.segments (attempt o work task).0.segments
unfolding attempt transcribe_session diarize_session
attempt-Unseen session w transcribe work task h k =
    then_drive-Unseen session w work task.replay (preparation work.job task.replay) h k
attempt-Unseen session w diarize work task h k =
    then_relabel-Unseen session w work task.relabel.cut (diarize_preparation work.job task.relabel)
      task.relabel.found_segments h

-- Whatever a run meets, and however it ends, what every session shows of every version but the one that
-- the job writes is what it showed before: a re-transcription writes the version with its own id, which
-- is not the original's, and a diarize job its target.
pub run_changes_one_version :
    (session w : String) (work : Work) (task : Task)
    → version_for work.job.operation work.job ≢ w
    → work.job.id ≢ original_version
    → variant_view (for_session (run work task).segments session) w
      ≡ variant_view (for_session work.segments session) w
unfolding run start
run_changes_one_version session w work task h k =
    view-seen (run work task).segments work.segments session w (
      if_ind (λ (v : Work). Unseen session w work.segments v.segments) task.requested_first
        (λ _. refl) (λ _. attempt-Unseen session w work.job.operation (start work task) task h k))
