-- ===== src/Reprocess/Transcribed.antt =====
-- src/loreline/reprocess/jobs.py: the rows of the version that a re-transcription writes.
use loreline.Prelude.{
  ℕ, zero, suc, ◌==◌, ◌||◌, ◌≤◌, String, concat, Bool, true, false, Option, none, some, List, [],
  ◌∷◌, ◌++◌, map, if◌then◌else◌, if_ind, select, length, take, ◌≡◌, ◌≢◌, refl, sym, ap, subst, ◌∙◌,
  inl, inr, ◌⊎◌, arith,
}
use mathlib.Core.List.{reverse}
use loreline.Prelude.Int.{ℤ}
use loreline.Transcript.{TranscriptEvent}
use loreline.Router.Model.{Router, run as run_router}
use loreline.Export.Versions.{reprocess_prefix}
use loreline.Persistence.Segments.{is_of}
use loreline.Persistence.Sorted.{All}
use loreline.Reprocess.Stored.{is_settled_once, reach, store_all-Stored}
use loreline.Reprocess.Kept.{attempt-Keeps}
use loreline.Reprocess.Job.{
  Operation, transcribe, diarize, ReprocessJob, JobStatus, running, done, cancelled,
}
use loreline.Reprocess.Work.{
  Raised, exception, torn_down, Ending, wrote, raised, Work, Replay, feed, store, store_all, drive,
  driven, refuse_nothing, then_drive, preparation, job_router, transcribe_session, tagged,
}
use loreline.Reprocess.Run.{Task, attempt, settled, conclude, start, save_cancelled, run}

-- The events that a run's router publishes, oldest first.
abbrev pub heard : Work → Replay → List TranscriptEvent
heard work env = reverse (run_router (feed env.utterances).0 (job_router work.job env)).0.published

reach-le : (torn : Option ℕ) (events : List TranscriptEvent) → reach torn events ≤ length events
reach-le torn [] = omega arith
reach-le none (e ∷ events) = omega (arith, reach-le none events)
reach-le (some zero) (e ∷ events) = omega arith
reach-le (some (suc n)) (e ∷ events) = omega (arith, reach-le (some n) events)

uncut-reach :
    (torn : Option ℕ) (count : ℕ) (offset : ℤ) (w : Work) (events : List TranscriptEvent)
    → (store_all torn count offset w events).2 ≡ false
    → reach torn events ≡ length events
unfolding store_all
uncut-reach torn count offset w [] h = refl
uncut-reach (some zero) count offset w (e ∷ events) h = cc
uncut-reach (some (suc n)) count offset w (e ∷ events) h =
    ap suc (uncut-reach (some n) (suc count) offset (store count offset w e) events h)
uncut-reach none count offset w (e ∷ events) h =
    ap suc (uncut-reach none (suc count) offset (store count offset w e) events h)

-- The ending of a drive: its count, uncut, or an exception.
abbrev EndsWith : ℕ → Bool → Ending → Type 0
EndsWith count torn ending =
    ((ending ≡ wrote count) × (torn ≡ false)) ⊎ ((why : Raised) × (ending ≡ raised why))

refuse_nothing-EndsWith :
    (r : Router) (stopped : Bool) (message : Option String) (count : ℕ) (torn : Bool)
    → EndsWith count torn (refuse_nothing r stopped (driven message (count, torn)))
refuse_nothing-EndsWith r stopped (some m) count torn = inr (_, refl)
refuse_nothing-EndsWith r stopped none count true = inr (_, refl)
refuse_nothing-EndsWith r stopped none zero false =
    if_ind (EndsWith zero false) (r.dropped == 0 || stopped) (λ _. inl (refl, refl))
      (λ _. inr (_, refl))
refuse_nothing-EndsWith r stopped none (suc n) false = inl (refl, refl)

-- The settled job counts what it stored, and is not done unless that was everything.
settled_count :
    (job : ReprocessJob) (task : Task) (stopped torn : Bool) (ending : Ending) (count : ℕ)
    → job.segments_added ≡ count
    → job.status ≡ running
    → EndsWith count torn ending
    → ((settled job task stopped ending).segments_added ≡ count)
      × ((torn ≡ false) ⊎ ((settled job task stopped ending).status ≢ done))
unfolding settled
settled_count job task stopped torn (wrote n) count h live (inl e) = (cc e.0, inl e.1)
settled_count job task stopped torn (wrote n) count h live (inr e) = cc e.1
settled_count job task stopped torn (raised (exception why)) count h live e = (h, inr (λ same. cc))
settled_count job task stopped torn (raised torn_down) count h live e =
    (h, inr (not_done task.requested_later job.status live))
  where
    not_done : (b : Bool) (s : JobStatus) → s ≡ running → (if b then cancelled else s) ≢ done
    not_done true s l e = cc
    not_done false s l e = cc

-- What a version holds, by its job: the first events that its run heard, as many as the job counts; all of
-- them, where the job is done.
abbrev pub IsFilled : Work → Replay → Work → Type 0
IsFilled before env after =
    (select (is_of before.job.session_id (concat reprocess_prefix before.job.id)) after.segments
      ≡ map (tagged before.job env.started_mono) (take after.job.segments_added (heard before env)))
    × (after.job.segments_added ≤ length (heard before env))
    × ((after.job.segments_added ≡ length (heard before env)) ⊎ (after.job.status ≢ done))

filled :
    (before : Work) (env : Replay) (after : Work) (n : ℕ) (torn : Bool)
    → select (is_of before.job.session_id (concat reprocess_prefix before.job.id)) after.segments
      ≡ map (tagged before.job env.started_mono) (take n (heard before env))
    → n ≤ length (heard before env)
    → (torn ≡ false → n ≡ length (heard before env))
    → (after.job.segments_added ≡ n) × ((torn ≡ false) ⊎ (after.job.status ≢ done))
    → IsFilled before env after
filled before env after n torn rows le uncut (count, ended) = (
  rows ∙ ap (λ k. map (tagged before.job env.started_mono) (take k (heard before env))) (sym count),
  subst (λ k. k ≤ length (heard before env)) (sym count) le,
  elim ended [ inl whole ↦ inl (count ∙ uncut whole) | inr cut ↦ inr cut ],
)

then_drive-IsFilled :
    (before : Work) (task : Task) (why : Option Raised)
    → All (is_settled_once before.job.session_id) (heard before task.replay)
    → select (is_of before.job.session_id (concat reprocess_prefix before.job.id)) before.segments
      ≡ []
    → before.job.segments_added ≡ 0
    → (then_drive before task.replay why).0.job.status ≡ running
    → IsFilled before task.replay (conclude task (then_drive before task.replay why))
unfolding then_drive drive
then_drive-IsFilled before task (some why) v empty zeroed live =
    filled before task.replay (conclude task (before, false, raised why)) 0 true empty (omega arith)
      (λ e. cc)
      (settled_count before.job task false true (raised why) 0 zeroed live (inr (why, refl)))
then_drive-IsFilled before task none v empty zeroed live =
    let env = task.replay in
    let out = store_all env.torn_at 0 env.started_mono before (heard before env) in
    let kept =
      store_all-Stored before.job.session_id env.started_mono env.torn_at 0 before
        (heard before env) v zeroed in
    let counted : out.1 ≡ reach env.torn_at (heard before env) = omega (arith, kept.1) in
    let left = drive before env in
    let routed = run_router (feed env.utterances).0 (job_router before.job env) in
    filled before env (conclude task left) (reach env.torn_at (heard before env)) out.2
      (kept.0
        ∙ ap
            (λ l.
              l
              ++ map (tagged before.job env.started_mono)
                  (take (reach env.torn_at (heard before env)) (heard before env)))
            empty)
      (reach-le env.torn_at (heard before env))
      (uncut-reach env.torn_at 0 env.started_mono before (heard before env))
      (settled_count out.0.job task left.1 out.2 left.2 (reach env.torn_at (heard before env))
        (kept.2 ∙ counted) live
        (subst (λ n. EndsWith n out.2 left.2) counted
          (refuse_nothing-EndsWith routed.0 left.1 routed.1 out.1 out.2)))

attempt-IsFilled :
    (o : Operation) (before : Work) (task : Task)
    → o ≡ transcribe
    → All (is_settled_once before.job.session_id) (heard before task.replay)
    → select (is_of before.job.session_id (concat reprocess_prefix before.job.id)) before.segments
      ≡ []
    → before.job.segments_added ≡ 0
    → (attempt o before task).0.job.status ≡ running
    → IsFilled before task.replay (conclude task (attempt o before task))
unfolding attempt transcribe_session
attempt-IsFilled transcribe before task e =
    then_drive-IsFilled before task (preparation before.job task.replay)
attempt-IsFilled diarize before task e = cc

-- A re-transcription of a job that counts nothing and whose version has no rows yet. Where what its run
-- hears is of the session and revises nothing, as an utterance's event has no turn, the version then holds
-- the first events that were heard, in their order and tagged, however the run ends: just as many as the
-- job counts, and all of them where it is done.
pub version_holds_what_was_heard :
    (work : Work) (task : Task)
    → work.job.operation ≡ transcribe
    → All (is_settled_once work.job.session_id) (heard work task.replay)
    → select (is_of work.job.session_id (concat reprocess_prefix work.job.id)) work.segments ≡ []
    → work.job.segments_added ≡ 0
    → IsFilled work task.replay (run work task)
unfolding run start tagged
version_holds_what_was_heard work task o v empty zeroed =
    if_ind (IsFilled work task.replay) task.requested_first
      (λ _.
        filled work task.replay (save_cancelled work task) 0 true empty (omega arith) (λ e. cc)
          (zeroed, inr (λ e. cc)))
      (λ _.
        attempt-IsFilled work.job.operation (start work task) task o v empty zeroed
          (attempt-Keeps work.job.operation (start work task) task).2)
