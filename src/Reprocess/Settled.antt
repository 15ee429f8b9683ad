-- ===== src/Reprocess/Settled.antt =====
-- src/loreline/reprocess/jobs.py: the row that a run settles on.
use loreline.Prelude.{
  String, str_eq, is_blank, Bool, true, false, ◌&&◌, ◌||◌, Option, none, some, List, [], ◌∷◌,
  if◌then◌else◌, if_ind, any, Bool-cases, ◌≡◌, refl, subst, sym, ap, ◌∙◌, inl, inr, ◌⊎◌, arith,
}
use loreline.Router.Model.{Request}
use loreline.Reprocess.Job.{
  running, done, error, cancelled, Operation, transcribe, diarize, ReprocessJob, job_error_message,
}
use loreline.Reprocess.Table.{Jobs, get, update, written_over}
use loreline.Reprocess.Work.{
  Raised, exception, torn_down, Ending, wrote, raised, Work, Replay, feed, then_drive, drive,
  preparation, transcribe_session, diarize_session,
}
use loreline.Reprocess.Kept.{attempt-Keeps, job_error_message-nonblank}
use loreline.Reprocess.Run.{Task, attempt, save_cancelled, settled, start, conclude, run}

pub get-update :
    (jobs : Jobs) (job row : ReprocessJob)
    → get jobs job.id ≡ some row
    → get (update jobs job) job.id ≡ some (written_over job row)
unfolding get update
get-update [] job row h = cc
get-update (r ∷ jobs) job row h = elim (Bool-cases (str_eq r.id job.id)) [
  | inl same ↦
      let here : some r ≡ some row =
        subst (λ b. (if b then some r else get jobs job.id) ≡ some row) same h in
      rw (same, same)
        (ap
          (λ (o : Option ReprocessJob). elim o [ none ↦ none | some x ↦ some (written_over job x) ])
          here)
  | inr other ↦
      rw (other, other)
        (get-update jobs job row
          (subst (λ b. (if b then some r else get jobs job.id) ≡ some row) other h))
]

feed-any : (items : List (Bool × Request)) → (feed items).1 ≡ any (λ i. i.0) items
unfolding feed
feed-any [] = refl
feed-any ((true, q) ∷ items) = refl
feed-any ((false, q) ∷ items) = feed-any items

and_first : (b c : Bool) → (b && c) ≡ true → b ≡ true
and_first true c h = refl
and_first false c h = h

then_drive-stopped :
    (w : Work) (env : Replay) (why : Option Raised)
    → (then_drive w env why).1 ≡ true
    → any (λ i. i.0) env.utterances ≡ true
unfolding then_drive drive
then_drive-stopped w env (some why) h = cc
then_drive-stopped w env none h =
    sym (feed-any env.utterances) ∙ and_first (feed env.utterances).1 _ h

attempt-stopped :
    (o : Operation) (w : Work) (task : Task)
    → (attempt o w task).1 ≡ true
    → any (λ i. i.0) task.replay.utterances ≡ true
unfolding attempt transcribe_session diarize_session
attempt-stopped transcribe w task h =
    then_drive-stopped w task.replay (preparation w.job task.replay) h
attempt-stopped diarize w task h = cc

-- The flag is up at one of the points where the run looks at it.
abbrev pub was_asked : Task → Bool
was_asked task =
    task.requested_first || task.requested_later || any (λ i. i.0) task.replay.utterances

-- The account that a settled row gives of its run.
abbrev pub IsAccountOf : Task → ReprocessJob → Type 0
IsAccountOf task job =
    (job.finished_at ≡ some task.finish_time)
    × ((job.status ≡ done)
        ⊎ ((job.status ≡ error)
            × (message : String) × (job.error_text ≡ some message)
            × (is_blank message ≡ false))
        ⊎ ((job.status ≡ cancelled) × (was_asked task ≡ true))
        ⊎ ((job.status ≡ running)
            × (task.requested_first ≡ false)
            × (task.requested_later ≡ false)))

or_last : (a b c : Bool) → c ≡ true → (a || b || c) ≡ true
or_last a b c h = ground (arith, h)

or_first : (a b c : Bool) → a ≡ true → (a || b || c) ≡ true
or_first a b c h = ground (arith, h)

or_middle : (a b c : Bool) → b ≡ true → (a || b || c) ≡ true
or_middle a b c h = ground (arith, h)

settled-IsAccountOf :
    (job : ReprocessJob) (task : Task) (stopped : Bool) (ending : Ending)
    → (stopped ≡ true → any (λ i. i.0) task.replay.utterances ≡ true)
    → task.requested_first ≡ false
    → job.status ≡ running
    → IsAccountOf task (settled job task stopped ending)
unfolding settled
settled-IsAccountOf job task true (wrote count) h first live =
    (refl, inr (inr (inl (refl, or_last task.requested_first task.requested_later _ (h refl)))))
settled-IsAccountOf job task false (wrote count) h first live = (refl, inl refl)
settled-IsAccountOf job task stopped (raised (exception why)) h first live =
    (refl, inr (inl (refl, job_error_message why job, refl, job_error_message-nonblank why job)))
settled-IsAccountOf job task stopped (raised torn_down) h first live = (
  refl,
  elim (Bool-cases task.requested_later) [
    | inl asked ↦
        inr (inr (inl (rw asked refl, or_middle task.requested_first task.requested_later _ asked)))
    | inr shutdown ↦ inr (inr (inr (rw shutdown live, first, shutdown)))
  ],
)

settled-id :
    (job : ReprocessJob) (task : Task) (stopped : Bool) (ending : Ending)
    → (settled job task stopped ending).id ≡ job.id
unfolding settled
settled-id job task stopped (wrote count) = refl
settled-id job task stopped (raised (exception why)) = refl
settled-id job task stopped (raised torn_down) = refl

get-update_at :
    (jobs : Jobs) (job row : ReprocessJob) (id : String)
    → job.id ≡ id
    → get jobs id ≡ some row
    → get (update jobs job) id ≡ some (written_over job row)
get-update_at jobs job row id e h =
    subst (λ i. get (update jobs job) i ≡ some (written_over job row)) e
      (get-update jobs job row (subst (λ i. get jobs i ≡ some row) (sym e) h))

get-conclude :
    (w : Work) (task : Task) (row : ReprocessJob) (id : String) (left : Work × Bool × Ending)
    → left.0.job.id ≡ id
    → get left.0.jobs id ≡ some row
    → get (conclude task left).jobs id ≡ some (written_over (conclude task left).job row)
get-conclude w task row id (v, stopped, ending) e h =
    get-update_at v.jobs (settled v.job task stopped ending) row id
      (settled-id v.job task stopped ending ∙ e) h

conclude-IsAccountOf :
    (task : Task) (left : Work × Bool × Ending)
    → (left.1 ≡ true → any (λ i. i.0) task.replay.utterances ≡ true)
    → task.requested_first ≡ false
    → left.0.job.status ≡ running
    → IsAccountOf task (conclude task left).job
conclude-IsAccountOf task (v, stopped, ending) = settled-IsAccountOf v.job task stopped ending

-- A run whose job has a row leaves that row with what the job in memory says, whatever its work met:
-- every one of its columns that a run writes. The row has the time of the end, and it is done, or failed
-- with a message that is not empty, or cancelled where somebody asked for that, or still running where a
-- shutdown tore the run down.
pub run_settles_its_row :
    (w : Work) (task : Task) (row : ReprocessJob)
    → get w.jobs w.job.id ≡ some row
    → (get (run w task).jobs w.job.id ≡ some (written_over (run w task).job row))
      × IsAccountOf task (run w task).job
unfolding run start
run_settles_its_row w task row h =
    let left = attempt w.job.operation (start w task) task in
    let kept = attempt-Keeps w.job.operation (start w task) task in
    if_ind
      (λ (v : Work). (get v.jobs w.job.id ≡ some (written_over v.job row)) × IsAccountOf task v.job)
      task.requested_first
      (λ first. (
        get-update w.jobs (save_cancelled w task).job row h,
        (refl, inr (inr (inl (refl, or_first task.requested_first task.requested_later _ first)))),
      ))
      (λ later. (
        get-conclude w task (written_over (start w task).job row) w.job.id left kept.1
            (ap (λ jobs. get jobs w.job.id) kept.0 ∙ get-update w.jobs (start w task).job row h),
        conclude-IsAccountOf task left (attempt-stopped w.job.operation (start w task) task) later
            kept.2,
      ))
