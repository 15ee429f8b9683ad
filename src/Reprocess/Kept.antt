-- ===== src/Reprocess/Kept.antt =====
-- src/loreline/reprocess/jobs.py: what the work of a run leaves as it was, and the words of a failure.
use loreline.Prelude.{
  ℕ, zero, suc, concat_nonblank, strip_text, is_blank, Bool, false, Option, none, some, List, [],
  ◌∷◌, if_ind, ◌≡◌, refl,
}
use loreline.Prelude.Int.{ℤ}
use loreline.Transcript.{TranscriptEvent}
use loreline.Diarize.Merge.{SpeakerSegment}
use loreline.Persistence.Segments.{Segments}
use loreline.Reprocess.Job.{
  Operation, transcribe, diarize, ReprocessJob, Failure, service_for, or_empty, failing_service,
  wordless_failure, job_error_message, present,
}
use loreline.Reprocess.Work.{
  Raised, exception, torn_down, Cut, Work, Replay, store, store_all, then_drive, then_relabel,
  drive, preparation, keep_whole, relabel_version, transcribe_session, diarize_session,
}
use loreline.Reprocess.Run.{Task, attempt}

service_for-nonblank : (o : Operation) (job : ReprocessJob) → is_blank (service_for o job) ≡ false
service_for-nonblank transcribe job = refl
service_for-nonblank diarize job =
    if_ind (λ s. is_blank s ≡ false) (present job.diarization.endpoint)
      (λ _. concat_nonblank "The diarization service at " (or_empty job.diarization.endpoint) refl)
      (λ _. refl)

wordless_failure-nonblank :
    (exc : Failure) (job : ReprocessJob) → is_blank (wordless_failure exc job) ≡ false
unfolding wordless_failure failing_service
wordless_failure-nonblank exc job =
    if_ind (λ s. is_blank s ≡ false) exc.is_timeout
      (λ _. concat_nonblank _ _ (service_for-nonblank job.operation job))
      (λ _. concat_nonblank _ _ (service_for-nonblank job.operation job))

-- A failed job always says something.
pub job_error_message-nonblank :
    (exc : Failure) (job : ReprocessJob) → is_blank (job_error_message exc job) ≡ false
unfolding job_error_message
job_error_message-nonblank exc job =
    if_ind (λ s. is_blank s ≡ false) exc.unreachable
      (λ _.
        if_ind (λ s. is_blank s ≡ false) (is_blank (strip_text exc.words))
          (λ _. wordless_failure-nonblank exc job) (λ h. h))
      (λ _. refl)

-- What the work of a run leaves of the job's identity, the table of the jobs and the status.
abbrev pub Keeps : Work → Work → Type 0
Keeps w v = (v.jobs ≡ w.jobs) × (v.job.id ≡ w.job.id) × (v.job.status ≡ w.job.status)

store_all-Keeps :
    (torn : Option ℕ) (count : ℕ) (offset : ℤ) (w : Work) (events : List TranscriptEvent)
    → Keeps w (store_all torn count offset w events).0
unfolding store_all store
store_all-Keeps torn count offset w [] = (refl, refl, refl)
store_all-Keeps (some zero) count offset w (e ∷ events) = (refl, refl, refl)
store_all-Keeps (some (suc n)) count offset w (e ∷ events) =
    store_all-Keeps (some n) (suc count) offset (store count offset w e) events
store_all-Keeps none count offset w (e ∷ events) =
    store_all-Keeps none (suc count) offset (store count offset w e) events

then_drive-Keeps :
    (w : Work) (env : Replay) (why : Option Raised) → Keeps w (then_drive w env why).0
unfolding then_drive drive
then_drive-Keeps w env (some why) = (refl, refl, refl)
then_drive-Keeps w env none = store_all-Keeps env.torn_at 0 env.started_mono w _

keep_whole-Keeps :
    (w : Work) (speakers : Bool) (out : Segments × ℕ × Option Raised)
    → Keeps w (keep_whole w speakers out).0
keep_whole-Keeps w speakers (rows, count, some torn_down) = (refl, refl, refl)
keep_whole-Keeps w speakers (rows, count, some (exception why)) = (refl, refl, refl)
keep_whole-Keeps w speakers (rows, count, none) = (refl, refl, refl)

then_relabel-Keeps :
    (w : Work) (cut : Option Cut) (why : Option Raised) (found : List SpeakerSegment)
    → Keeps w (then_relabel w cut why found).0
unfolding then_relabel relabel_version
then_relabel-Keeps w cut (some why) found = (refl, refl, refl)
then_relabel-Keeps w cut none [] = (refl, refl, refl)
then_relabel-Keeps w cut none (first ∷ rest) = keep_whole-Keeps w _ _

pub attempt-Keeps : (o : Operation) (w : Work) (task : Task) → Keeps w (attempt o w task).0
unfolding attempt transcribe_session diarize_session
attempt-Keeps transcribe w task = then_drive-Keeps w task.replay (preparation w.job task.replay)
attempt-Keeps diarize w task = then_relabel-Keeps w task.relabel.cut _ task.relabel.found_segments
