-- ===== src/Reprocess/Job.antt =====
-- src/loreline/reprocess/jobs.py and src/loreline/models.py: a job's row, the exceptions and the words in
-- which a failed job tells of one.
use loreline.Prelude.{
  ℕ, ◌==◌, String, concat, is_blank, strip_text, show_nat, Bool, true, false, Option, none, some,
  if◌then◌else◌,
}
use loreline.Prelude.Int.{ℤ}
use loreline.Diarize.Merge.{DiarizationMode}

pub data JobStatus : Type 0 where
  queued running done error cancelled : JobStatus

pub data Operation : Type 0 where
  transcribe diarize : Operation

pub record DiarizationConfig : Type 0 where
  pub mode : DiarizationMode
  pub endpoint : Option String
  pub min_speakers : Option ℕ
  pub max_speakers : Option ℕ

pub record ReprocessJob : Type 0 where
  pub id : String
  pub session_id : String
  pub provider_id : String
  pub operation : Operation
  pub model : Option String
  pub use_glossary : Bool
  pub target : String
  pub diarization : DiarizationConfig
  pub status : JobStatus
  pub created_at : ℤ
  pub started_at : Option ℤ
  pub finished_at : Option ℤ
  pub segments_added : ℕ
  pub has_speakers : Bool
  pub error_text : Option String

-- What the managers of jobs raise to whoever called them.
pub data JobError : Type 0 where
  session_not_found audio_missing provider_not_found target_not_found : JobError
  diarizer_unreachable diarizer_endpoint_missing : JobError
  original_version version_not_found version_busy : JobError
  job_not_found job_not_cancellable : JobError

-- An exception inside of a run: the name of its type, `str(exc)`, whether it is one of httpx's
-- timeouts, and whether `classify_request_error` grades it UNREACHABLE.
pub record Failure : Type 0 where
  pub type_name : String
  pub words : String
  pub is_timeout : Bool
  pub unreachable : Bool

-- `a or b` of a text that may be missing.
abbrev pub present : Option String → Bool
present none = false
present (some text) = if is_blank text then false else true

abbrev pub or_empty : Option String → String
or_empty none = ""
or_empty (some text) = text

abbrev pub service_for : Operation → ReprocessJob → String
service_for transcribe job = "The provider this run re-transcribes with"
service_for diarize job =
    if present job.diarization.endpoint
    then concat "The diarization service at " (or_empty job.diarization.endpoint)
    else "The diarization service"

unfoldable pub failing_service : ReprocessJob → String
failing_service job = service_for job.operation job

unfoldable pub wordless_failure : Failure → ReprocessJob → String
unfolding failing_service
wordless_failure exc job =
    if exc.is_timeout
    then concat (failing_service job) (
        concat " did not answer in time (" (
          concat exc.type_name
            "). The wait already grows with the amount of audio sent, so check that the service is running and keeping up with it."))
    else concat (failing_service job)
        (concat " failed with " (concat exc.type_name " and gave no reason."))

unfoldable pub job_error_message : Failure → ReprocessJob → String
unfolding wordless_failure strip_text
job_error_message exc job =
    if exc.unreachable
    then (if is_blank (strip_text exc.words)
        then wordless_failure exc job
        else strip_text exc.words)
    else "The diarization service answered but could not process the audio (is it configured correctly?)"

unfoldable pub nothing_transcribed : ℕ → String → String
nothing_transcribed dropped last_failure =
    if dropped == 1
    then concat "Nothing was transcribed: the only utterance failed (" (concat last_failure ").")
    else concat "Nothing was transcribed: all " (
        concat (show_nat dropped)
          (concat " utterances failed (last failure: " (concat last_failure ").")))
