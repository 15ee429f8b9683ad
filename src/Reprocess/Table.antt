-- ===== src/Reprocess/Table.antt =====
-- src/loreline/persistence/repositories.py: `ReprocessRepository`. The table is the list of its rows.
use loreline.Prelude.{
  String, str_eq, Bool, true, false, not, ◌&&◌, ◌||◌, Option, none, some, List, [], ◌∷◌, map,
  if◌then◌else◌, select,
}
use loreline.Prelude.Int.{ltb_ℤ}
use loreline.Reprocess.Job.{
  JobStatus, queued, running, done, error, cancelled, Operation, transcribe, diarize, ReprocessJob,
}

abbrev pub Jobs : Type 0
Jobs = List ReprocessJob

unfoldable pub create : Jobs → ReprocessJob → Jobs
create [] job = job ∷ []
create (row ∷ rows) job = row ∷ create rows job

unfoldable pub get : Jobs → String → Option ReprocessJob
get [] id = none
get (row ∷ rows) id = if str_eq row.id id then some row else get rows id

-- `ORDER BY created_at DESC`
unfoldable pub place_job : ReprocessJob → Jobs → Jobs
place_job job [] = job ∷ []
place_job job (row ∷ rows) =
    if ltb_ℤ row.created_at job.created_at then job ∷ row ∷ rows else row ∷ place_job job rows

unfoldable pub newest_first : Jobs → Jobs
unfolding place_job
newest_first [] = []
newest_first (row ∷ rows) = place_job row (newest_first rows)

unfoldable pub jobs_of : Jobs → String → Jobs
unfolding newest_first
jobs_of jobs session = newest_first (select (λ row. str_eq row.session_id session) jobs)

-- The columns that `UPDATE` writes.
abbrev pub written_over : ReprocessJob → ReprocessJob → ReprocessJob
written_over job row = record row {
  status = job.status;
  started_at = job.started_at;
  finished_at = job.finished_at;
  segments_added = job.segments_added;
  has_speakers = job.has_speakers;
  error_text = job.error_text;
}

unfoldable pub update : Jobs → ReprocessJob → Jobs
update jobs job = map (λ row. if str_eq row.id job.id then written_over job row else row) jobs

abbrev pub is_diarize : Operation → Bool
is_diarize transcribe = false
is_diarize diarize = true

abbrev pub belongs_to : String → ReprocessJob → Bool
belongs_to version row =
    str_eq row.id version || (is_diarize row.operation && str_eq row.target version)

unfoldable pub delete_version : Jobs → String → String → Jobs
delete_version jobs session version =
    select (λ row. not (str_eq row.session_id session && belongs_to version row)) jobs

-- `_CANCELLABLE`
abbrev pub is_live : JobStatus → Bool
is_live queued = true
is_live running = true
is_live done = false
is_live error = false
is_live cancelled = false

abbrev pub interrupted : ReprocessJob → ReprocessJob
interrupted row =
    if is_live row.status
    then record row { status = error; error_text = some "interrupted by restart" }
    else row

unfoldable pub mark_interrupted : Jobs → Jobs
mark_interrupted jobs = map interrupted jobs
