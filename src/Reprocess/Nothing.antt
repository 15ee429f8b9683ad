-- ===== src/Reprocess/Nothing.antt =====
-- src/loreline/reprocess/jobs.py: a version without a segment.
use loreline.Prelude.{
  zero, suc, ◌==◌, Bool, true, false, ◌||◌, Option, none, some, if◌then◌else◌, ◌≡◌, refl, subst,
  sym, ap, ◌∙◌, ◌≢◌, arith,
}
use loreline.Router.Model.{Router, run as run_router}
use loreline.Reprocess.Job.{JobStatus, running, done, cancelled, transcribe, ReprocessJob}
use loreline.Reprocess.Work.{
  Raised, exception, torn_down, Ending, wrote, raised, Work, Replay, feed, then_drive, drive,
  refuse_nothing, preparation, transcribe_session, job_router,
}
use loreline.Reprocess.Kept.{attempt-Keeps}
use loreline.Reprocess.Run.{Task, attempt, save_cancelled, settled, start, conclude, run}

passed_over : (b : Bool) (why : Raised) → (if b then wrote 0 else raised why) ≡ wrote 0 → b ≡ true
passed_over true why h = refl
passed_over false why h = cc

wrote-nothing :
    (r : Router) (stopped : Bool) (ending : Ending)
    → refuse_nothing r stopped ending ≡ wrote 0
    → (r.dropped == 0 || stopped) ≡ true
wrote-nothing r stopped (wrote zero) h = passed_over (r.dropped == 0 || stopped) _ h
wrote-nothing r stopped (wrote (suc n)) h = cc
wrote-nothing r stopped (raised why) h = cc

then_drive-nothing :
    (w : Work) (env : Replay) (why : Option Raised)
    → (then_drive w env why).1 ≡ false
    → (then_drive w env why).2 ≡ wrote 0
    → (run_router (feed env.utterances).0 (job_router w.job env)).0.dropped ≡ 0
unfolding then_drive drive
then_drive-nothing w env (some why) h e = cc
then_drive-nothing w env none h e =
    let routed = run_router (feed env.utterances).0 (job_router w.job env) in
    let none_lost = wrote-nothing routed.0 _ _ e in ground (arith, none_lost, h)

not_done : (b : Bool) (s : JobStatus) → s ≡ running → (if b then cancelled else s) ≢ done
not_done true s h e = cc
not_done false s h e = cc

settled-done :
    (job : ReprocessJob) (task : Task) (stopped : Bool) (ending : Ending)
    → job.status ≡ running
    → (settled job task stopped ending).status ≡ done
    → (settled job task stopped ending).segments_added ≡ 0
    → (stopped ≡ false) × (ending ≡ wrote 0)
unfolding settled
settled-done job task true (wrote count) live h k = cc
settled-done job task false (wrote count) live h k = (refl, ap wrote k)
settled-done job task stopped (raised (exception why)) live h k = cc
settled-done job task stopped (raised torn_down) live h k =
    absurd (not_done task.requested_later job.status live h)

conclude-done :
    (task : Task) (left : Work × Bool × Ending)
    → left.0.job.status ≡ running
    → (conclude task left).job.status ≡ done
    → (conclude task left).job.segments_added ≡ 0
    → (left.1 ≡ false) × (left.2 ≡ wrote 0)
conclude-done task (v, stopped, ending) = settled-done v.job task stopped ending

took_second :
    (b : Bool) (x y : Work)
    → x.job.status ≡ cancelled
    → (if b then x else y).job.status ≡ done
    → (if b then x else y) ≡ y
took_second true x y h k = cc
took_second false x y h k = refl

run-done :
    (w : Work) (task : Task)
    → (run w task).job.status ≡ done
    → (run w task).job.segments_added ≡ 0
    → ((attempt w.job.operation (start w task) task).1 ≡ false)
      × ((attempt w.job.operation (start w task) task).2 ≡ wrote 0)
unfolding run start
run-done w task h k =
    let left = attempt w.job.operation (start w task) task in
    let kept = attempt-Keeps w.job.operation (start w task) task in
    let ran =
      took_second task.requested_first (save_cancelled w task) (conclude task left) refl h in
    conclude-done task left kept.2 (ap (λ (v : Work). v.job.status) (sym ran) ∙ h)
      (ap (λ (v : Work). v.job.segments_added) (sym ran) ∙ k)

-- A re-transcription that ends done with no segment lost no utterance to a failure: a version that is
-- empty is a recording in which nothing was heard.
pub empty_version_lost_nothing :
    (w : Work) (task : Task)
    → w.job.operation ≡ transcribe
    → (run w task).job.status ≡ done
    → (run w task).job.segments_added ≡ 0
    → (run_router (feed task.replay.utterances).0 (job_router w.job task.replay)).0.dropped ≡ 0
unfolding start attempt transcribe_session
empty_version_lost_nothing w task same h k =
    let ended =
      subst
        (λ o.
          ((attempt o (start w task) task).1 ≡ false)
          × ((attempt o (start w task) task).2 ≡ wrote 0))
        same (run-done w task h k) in
    then_drive-nothing (start w task) task.replay (preparation w.job task.replay) ended.0 ended.1
