-- ===== src/Reprocess/Run.antt =====
-- src/loreline/reprocess/jobs.py: `_run`, from the task's first line to the row that the job settles on.
use loreline.Prelude.{Bool, false, some, if◌then◌else◌}
use loreline.Prelude.Int.{ℤ}
use loreline.Reprocess.Job.{
  running, done, error, cancelled, Operation, transcribe, diarize, ReprocessJob, job_error_message,
}
use loreline.Reprocess.Table.{update}
use loreline.Reprocess.Work.{
  exception, torn_down, Ending, wrote, raised, Work, Replay, Relabel, transcribe_session,
  diarize_session,
}

-- One run: the clock when it starts and when it ends, whether the cancel flag is up when the task gets
-- its turn and when a CancelledError arrives, and what its work meets.
pub record Task : Type 0 where
  pub start_time : ℤ
  pub finish_time : ℤ
  pub requested_first : Bool
  pub requested_later : Bool
  pub replay : Replay
  pub relabel : Relabel

abbrev pub save : Work → ReprocessJob → Work
save w job = record w { jobs = update w.jobs job; job = job }

-- The work of the operation: what it left, whether the feed broke off, and the ending.
unfoldable pub attempt : Operation → Work → Task → Work × Bool × Ending
unfolding transcribe_session diarize_session
attempt diarize w task = let left = diarize_session w task.relabel in (left.0, false, left.1)
attempt transcribe w task = transcribe_session w task.replay

abbrev pub finished : ReprocessJob → Task → ReprocessJob
finished job task = record job { finished_at = some task.finish_time }

-- What the row says of an ending. A CancelledError that nobody asked for is a shutdown, and leaves the
-- status alone.
unfoldable pub settled : ReprocessJob → Task → Bool → Ending → ReprocessJob
unfolding job_error_message
settled job task stopped (wrote count) = record (finished job task) {
  segments_added = count;
  status = if stopped then cancelled else done;
}
settled job task stopped (raised (exception why)) = record (finished job task) {
  status = error;
  error_text = some (job_error_message why job);
}
settled job task stopped (raised torn_down) = record (finished job task) {
  status = if task.requested_later then cancelled else job.status;
}

unfoldable pub start : Work → Task → Work
start w task = save w (record w.job { status = running; started_at = some task.start_time })

abbrev pub save_cancelled : Work → Task → Work
save_cancelled w task = save w (record (finished w.job task) { status = cancelled })

abbrev pub conclude : Task → Work × Bool × Ending → Work
conclude task (w, stopped, ending) = save w (settled w.job task stopped ending)

unfoldable pub run : Work → Task → Work
unfolding attempt settled start
run w task =
    if task.requested_first
    then save_cancelled w task
    else conclude task (attempt w.job.operation (start w task) task)
