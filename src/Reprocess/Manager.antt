-- ===== src/Reprocess/Manager.antt =====
-- src/loreline/reprocess/jobs.py: `ReprocessManager`'s `enqueue`, `cancel` and `delete_version`, up to the
-- tasks that they start and stop. What the collaborators answer is input.
use loreline.Prelude.{
  String, str_eq, concat, is_blank, strip_text, Bool, true, false, not, ◌&&◌, ◌||◌, Option, none,
  some, if◌then◌else◌, any, is_nil,
}
use loreline.Prelude.Int.{ℤ}
use loreline.Diarize.Merge.{DiarizationMode, remote}
use loreline.Export.Versions.{original_version, reprocess_prefix, diarize_prefix, variant_rows}
use loreline.Persistence.Segments.{Segments, for_session, delete_source}
use loreline.Reprocess.Job.{
  JobStatus, queued, cancelled, Operation, transcribe, diarize, DiarizationConfig, ReprocessJob,
  JobError, session_not_found, audio_missing, provider_not_found, target_not_found,
  diarizer_unreachable, diarizer_endpoint_missing, original_version as original_is_kept,
  version_not_found, version_busy, job_not_found, job_not_cancellable, present, or_empty,
}
use loreline.Reprocess.Table.{
  Jobs, create, jobs_of, is_diarize, belongs_to, delete_version as delete_jobs, is_live,
}

pub record ReprocessRequest : Type 0 where
  pub session_id : String
  pub provider_id : String
  pub operation : Operation
  pub diarization : DiarizationConfig
  pub model : Option String
  pub target : String
  pub use_glossary : Bool

-- The tables of transcripts and of jobs.
pub record Store : Type 0 where
  pub segments : Segments
  pub jobs : Jobs

-- What `enqueue` asks: the other tables, the audio, the stored default endpoint, whether the probe finds an endpoint UNREACHABLE,
-- the new id and the clock.
pub record Answers : Type 0 where
  pub session_exists : Bool
  pub audio_exists : Bool
  pub provider_exists : Bool
  pub default_endpoint : Option String
  pub is_unreachable : String → Bool
  pub new_id : String
  pub now : ℤ

pub data Result {ℓ} (A : Type ℓ) : Type ℓ where
  refused : JobError → Result A
  ok : A → Result A

infixl 5 ◌>>=◌ ◌>>◌
abbrev pub ◌>>=◌ {ℓ κ} : {A : Type ℓ} → {B : Type κ} → Result A → (A → Result B) → Result B
refused why >>= rest = refused why
ok a >>= rest = rest a

abbrev pub ◌>>◌ {ℓ} : {B : Type ℓ} → Result (Unit {0}) → Result B → Result B
refused why >> rest = refused why
ok u >> rest = rest

abbrev pub require : Bool → JobError → Result (Unit {0})
require false why = refused why
require true why = ok tt

abbrev pub is_remote : DiarizationMode → Bool
is_remote remote = true
is_remote _ = false

-- `(endpoint or "").strip()`, as a test
abbrev pub names_endpoint : Option String → Bool
names_endpoint endpoint = not (is_blank (strip_text (or_empty endpoint)))

unfoldable pub resolve_endpoint : Answers → DiarizationConfig → Result DiarizationConfig
resolve_endpoint a config =
    if not (is_remote config.mode) || names_endpoint config.endpoint
    then ok config
    else if present a.default_endpoint
    then ok (record config { endpoint = a.default_endpoint })
    else refused diarizer_endpoint_missing

unfoldable pub refuse_an_unreachable_diarizer : Answers → DiarizationConfig → Result (Unit {0})
refuse_an_unreachable_diarizer a config =
    if not (is_remote config.mode) || not (present config.endpoint)
    then ok tt
    else require (not (a.is_unreachable (or_empty config.endpoint))) diarizer_unreachable

abbrev pub check_subject : Operation → Answers → Store → ReprocessRequest → Result (Unit {0})
check_subject transcribe a store req = require a.provider_exists provider_not_found
check_subject diarize a store req =
    if str_eq req.target original_version
    then ok tt
    else require
        (not (is_nil (variant_rows (for_session store.segments req.session_id) req.target)))
        target_not_found

abbrev pub check_diarizer : Operation → Answers → DiarizationConfig → Result (Unit {0})
check_diarizer transcribe a config = ok tt
check_diarizer diarize a config = refuse_an_unreachable_diarizer a config

unfoldable pub new_job : Answers → ReprocessRequest → DiarizationConfig → ReprocessJob
new_job a req config = record {
  id = a.new_id;
  session_id = req.session_id;
  provider_id = if is_diarize req.operation then "" else req.provider_id;
  operation = req.operation;
  model = if is_diarize req.operation then none else req.model;
  use_glossary = if is_diarize req.operation then true else req.use_glossary;
  target = if is_diarize req.operation then req.target else original_version;
  diarization = config;
  status = queued;
  created_at = a.now;
  started_at = none;
  finished_at = none;
  segments_added = 0;
  has_speakers = false;
  error_text = none;
}

-- The tables afterwards, and the job whose task starts.
unfoldable pub enqueue : Answers → Store → ReprocessRequest → Result (Store × ReprocessJob)
unfolding resolve_endpoint refuse_an_unreachable_diarizer new_job create
enqueue a store req = do
  require a.session_exists session_not_found
  require a.audio_exists audio_missing
  check_subject req.operation a store req
  config ← resolve_endpoint a req.diarization
  check_diarizer req.operation a config
  let job = new_job a req config
  ok (record store { jobs = create store.jobs job }, job)

-- `any(j.id == version and j.operation == "transcribe")`
abbrev pub owns : String → ReprocessJob → Bool
owns version j = str_eq j.id version && not (is_diarize j.operation)

abbrev pub is_writing : String → ReprocessJob → Bool
is_writing version j = is_live j.status && belongs_to version j

unfoldable pub delete_version : Store → String → String → Result Store
unfolding jobs_of delete_source delete_jobs
delete_version store session version = do
  require (not (str_eq version original_version)) original_is_kept
  let jobs = jobs_of store.jobs session
  require (any (owns version) jobs) version_not_found
  require (not (any (is_writing version) jobs)) version_busy
  ok (record {
    segments =
        delete_source (delete_source store.segments session (concat reprocess_prefix version))
          session (concat diarize_prefix version);
    jobs = delete_jobs store.jobs session version;
  })

-- The run that the process has for a job's id, as `cancel` finds it: whether it was asked to stop before, and the row when the
-- wait for the task is over.
pub record Found : Type 0 where
  pub asked_before : Bool
  pub row_after : Option ReprocessJob

abbrev pub is_cancelled : JobStatus → Bool
is_cancelled cancelled = true
is_cancelled _ = false

-- What `cancel` does: the answer's job, the row that it writes itself, and whether it interrupts the task.
pub record Cancelling : Type 0 where
  pub answer : ReprocessJob
  pub written : Option ReprocessJob
  pub interrupts : Bool

abbrev pub first_ask : Option Found → Bool
first_ask none = false
first_ask (some run) = not run.asked_before

abbrev pub or_job : Option ReprocessJob → ReprocessJob → ReprocessJob
or_job none job = job
or_job (some j) job = j

abbrev pub stop_run : ReprocessJob → ℤ → Option Found → Cancelling
stop_run job now none =
    let settled = record job { status = cancelled; finished_at = some now } in
    record { answer = settled; written = some settled; interrupts = false }
stop_run job now (some run) = record {
  answer = or_job run.row_after job;
  written = none;
  interrupts = is_diarize job.operation;
}

unfoldable pub cancel : Option ReprocessJob → ℤ → Option Found → Result Cancelling
cancel none now run = refused job_not_found
cancel (some job) now run =
    if is_cancelled job.status && first_ask run
    then ok (record { answer = job; written = none; interrupts = false })
    else if is_live job.status
    then ok (stop_run job now run)
    else refused job_not_cancellable
