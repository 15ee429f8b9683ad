-- ===== src/ReprocessExamples.antt =====
-- A small session with a re-transcription and a diarize job, and the theorems of the jobs and of the merge
-- at them.
use loreline.Prelude.{
  any, arith, map, ◌≡◌, ◌≢◌, refl, String, str_eq, Bool, true, false, Option, none, some, List, [],
  ◌∷◌, eq_iff, strip_text, select, length,
}
use loreline.Prelude.Int.{ℤ, pos, ◌+ℤ◌}
use loreline.Prelude.Dict.{lookup}
use loreline.Transcript.{TranscriptEvent}
use loreline.Diarize.Merge.{SpeakerSegment, remote, assign_speakers, merge_diarization}
use loreline.Router.Model.{
  Role, Answer, answered, Request, run as run_router, transcribe_with_failover, try_backends,
  viable, note_transcribed, labelled, new_router,
}
use loreline.Export.Versions.{
  variant_rows, variant_view, final_rows, canonical_transcript, has_version, original_version,
}
use loreline.Persistence.Segments.{Segments, add, place, ordered, for_session, delete_source}
use loreline.Persistence.Turns.{OneRowPerTurn, adds, deletes_source, execute_all, turns_are_rows}
use mathlib.Core.List.{Mem}
use loreline.Reprocess.Job.{
  Operation, transcribe, diarize, queued, done, version_busy, ReprocessJob, DiarizationConfig,
}
use loreline.Reprocess.Table.{
  create, get, place_job, newest_first, jobs_of, written_over, delete_version as delete_jobs,
  is_live, mark_interrupted,
}
use loreline.Reprocess.Work.{
  exception, torn_down, Work, Replay, relabelled, diarize_session, then_relabel, relabel_version,
  write_copies, feed, store_all, drive, then_drive, transcribe_session, job_router,
}
use loreline.Reprocess.Run.{Task, attempt, settled, start, run}
use loreline.Reprocess.OneVersion.{run_changes_one_version}
use loreline.Reprocess.Whole.{IsWhole, diarize_all_or_nothing}
use loreline.Reprocess.Transcribed.{IsFilled, version_holds_what_was_heard}
use loreline.Reprocess.Settled.{IsAccountOf, run_settles_its_row}
use loreline.Reprocess.Nothing.{empty_version_lost_nothing}
use loreline.Reprocess.Manager.{
  Store, Answers, ReprocessRequest, Result, refused, resolve_endpoint,
  refuse_an_unreachable_diarizer, new_job, enqueue, delete_version,
}
use loreline.Reprocess.Deleted.{deletion_is_exact}
use loreline.Reprocess.Accepted.{HasEndpoint, IsReachable, HasTarget, accepted_job_can_start}
use loreline.Sessions.Sources.{OldestFirst}
use mathlib.Core.List.{Perm}
use loreline.Sessions.Merge.{
  best_available_rows, newest_done, place_source, Session, sort_sources, merge_parts, merge_names,
  parts_of, is_current, merge_sessions,
}
use loreline.Sessions.Timeline.{AllWithin, laid, shown}
use loreline.Sessions.Merged.{merge_loses_nothing}
use loreline.Reprocess.Swept.{IsTurnedDown, sweep_ends_every_job}

abbrev row_of : String → ℤ → Option String → TranscriptEvent
row_of source start turn = record {
  session_id = "s1";
  source = source;
  text = "hello";
  words = [];
  speaker = none;
  start_ts = start;
  end_ts = start +ℤ pos 1000000;
  is_final = true;
  turn_id = turn;
}

abbrev rows : Segments
rows =
    row_of "aai" (pos 5) (some "t1")
    ∷ row_of "aai" (pos 2) (some "t2")
    ∷ row_of "reprocess:j0" (pos 0) none
    ∷ []

abbrev plain : DiarizationConfig
plain = record {
  mode = remote;
  endpoint = some "http://d";
  min_speakers = none;
  max_speakers = none;
}

abbrev job_of : String → Operation → String → ReprocessJob
job_of id operation target = record {
  id = id;
  session_id = "s1";
  provider_id = "p";
  operation = operation;
  model = some "m";
  use_glossary = true;
  target = target;
  diarization = plain;
  status = queued;
  created_at = pos 1;
  started_at = none;
  finished_at = none;
  segments_added = 0;
  has_speakers = false;
  error_text = none;
}

abbrev heard_one : Role → Answer
heard_one role = answered (some (row_of "p" (pos 12) none))

abbrev quiet : Role → Answer
quiet role = answered none

abbrev utterance : (Role → Answer) → Request
utterance ask = record { now = pos 9; start = pos 0; ask = ask; diarized = none }

abbrev replay_of : List (Bool × Request) → Replay
replay_of utterances = record {
  has_provider = true;
  backend = record { id = "p"; name = "P" };
  backend_raises = none;
  diarizer_raises = none;
  glossary_raises = none;
  read_raises = none;
  utterances = utterances;
  started_mono = pos 10;
  torn_at = none;
}

abbrev voices : List SpeakerSegment
voices = record { start = pos 0; end = pos 9000000; speaker = "A" } ∷ []

abbrev task_of : List (Bool × Request) → Task
task_of utterances = record {
  start_time = pos 3;
  finish_time = pos 4;
  requested_first = false;
  requested_later = false;
  replay = replay_of utterances;
  relabel = record {
    session_found = true;
    wav_raises = none;
    factory_raises = none;
    diarize_raises = none;
    found_segments = voices;
    cut = some (1, false, torn_down);
  };
}

abbrev work_of : ReprocessJob → Work
work_of job = record { segments = rows; jobs = job ∷ []; bus = []; job = job }

abbrev asked_to_stop : List (Bool × Request)
asked_to_stop = (false, utterance heard_one) ∷ (true, utterance heard_one) ∷ []

other_version : "j1" ≢ original_version
other_version e =
    let same : str_eq "j1" original_version ≡ true = (eq_iff "j1" original_version).1 e in cc

run_changes_one_version_example :
    variant_view
      (for_session
        (run (work_of (job_of "j1" transcribe original_version)) (task_of asked_to_stop)).segments
        "s1")
      original_version
    ≡ variant_view (for_session rows "s1") original_version
run_changes_one_version_example =
    run_changes_one_version "s1" original_version
      (work_of (job_of "j1" transcribe original_version)) (task_of asked_to_stop) other_version
      other_version

diarize_all_or_nothing_example :
    IsWhole
      (work_of (job_of "d1" diarize original_version))
      voices
      (some (1, false, torn_down))
      (run (work_of (job_of "d1" diarize original_version)) (task_of []))
unfolding relabelled variant_rows final_rows for_session ordered place assign_speakers
diarize_all_or_nothing_example =
    diarize_all_or_nothing (work_of (job_of "d1" diarize original_version)) (task_of []) refl
      (refl, (refl, tt))

abbrev failing : Task
failing = record (task_of []) {
  relabel = record (task_of []).relabel {
    cut = some (
      1,
      false,
      exception (record {
        type_name = "OperationalError";
        words = "database is locked";
        is_timeout = false;
        unreachable = true;
      }),
    );
  };
}

-- A row's write that fails leaves a copy of the first row only, and it hides the other one.
part_of_a_copy :
    (length (variant_view (for_session rows "s1") original_version) ≡ 2)
    × (length (
          variant_view
            (for_session
              (run (work_of (job_of "d1" diarize original_version)) failing).segments
              "s1")
            original_version)
        ≡ 1)
unfolding run attempt start settled diarize_session then_relabel relabel_version relabelled
    write_copies variant_view variant_rows final_rows for_session ordered place assign_speakers
    delete_source add
part_of_a_copy = (refl, refl)

version_holds_what_was_heard_example :
    IsFilled
      (work_of (job_of "j1" transcribe original_version))
      (replay_of asked_to_stop)
      (run (work_of (job_of "j1" transcribe original_version)) (task_of asked_to_stop))
unfolding run_router transcribe_with_failover try_backends viable note_transcribed labelled
    merge_diarization feed new_router lookup
version_holds_what_was_heard_example =
    version_holds_what_was_heard (work_of (job_of "j1" transcribe original_version))
      (task_of asked_to_stop) refl (refl, tt) refl refl

run_settles_its_row_example :
    (get (run (work_of (job_of "j1" transcribe original_version)) (task_of asked_to_stop)).jobs "j1"
      ≡ some (
          written_over
            (run (work_of (job_of "j1" transcribe original_version)) (task_of asked_to_stop)).job
            (job_of "j1" transcribe original_version)))
    × IsAccountOf
        (task_of asked_to_stop)
        (run (work_of (job_of "j1" transcribe original_version)) (task_of asked_to_stop)).job
unfolding get
run_settles_its_row_example =
    run_settles_its_row (work_of (job_of "j1" transcribe original_version)) (task_of asked_to_stop)
      (job_of "j1" transcribe original_version) refl

abbrev silent : List (Bool × Request)
silent = (false, utterance quiet) ∷ []

empty_version_lost_nothing_example :
    (run_router
      (feed silent).0
      (job_router (job_of "j1" transcribe original_version) (replay_of silent))).0.dropped
    ≡ 0
unfolding run start attempt settled transcribe_session then_drive drive store_all run_router
    transcribe_with_failover try_backends viable note_transcribed feed new_router lookup
empty_version_lost_nothing_example =
    empty_version_lost_nothing (work_of (job_of "j1" transcribe original_version)) (task_of silent)
      refl refl refl

abbrev finished_job : ReprocessJob
finished_job = record (job_of "j0" transcribe original_version) { status = done }

abbrev stored : Store
stored = record {
  segments = rows;
  jobs = finished_job ∷ job_of "j9" transcribe original_version ∷ [];
}

abbrev left : Store
left = record {
  segments = row_of "aai" (pos 5) (some "t1") ∷ row_of "aai" (pos 2) (some "t2") ∷ [];
  jobs = job_of "j9" transcribe original_version ∷ [];
}

abbrev deleted : Result Store
deleted = delete_version stored "s1" "j0"

other_than_j0 : "j0" ≢ original_version
other_than_j0 e =
    let same : str_eq "j0" original_version ≡ true = (eq_iff "j0" original_version).1 e in cc

deletion_is_exact_example :
    (variant_view (for_session left.segments "s1") "j0" ≡ [])
    × (has_version (for_session left.segments "s1") "j0" ≡ false)
    × (variant_view (for_session left.segments "s1") original_version
        ≡ variant_view (for_session rows "s1") original_version)
    × (select (λ row. is_live row.status) left.jobs
        ≡ select (λ row. is_live row.status) stored.jobs)
unfolding delete_version jobs_of newest_first place_job delete_source delete_jobs
deletion_is_exact_example =
    deletion_is_exact stored left "s1" "j0" "s1" original_version refl other_than_j0

abbrev asking : ReprocessRequest
asking = record {
  session_id = "s1";
  provider_id = "";
  operation = diarize;
  diarization = record plain { endpoint = none };
  model = none;
  target = "j0";
  use_glossary = true;
}

abbrev answers : Answers
answers = record {
  session_exists = true;
  audio_exists = true;
  provider_exists = false;
  default_endpoint = some "http://d";
  is_unreachable = λ endpoint. false;
  new_id = "d1";
  now = pos 8;
}

abbrev accepted : ReprocessJob
accepted = new_job answers asking plain

abbrev enqueued : Store
enqueued = record stored { jobs = create stored.jobs accepted }

accepted_job_can_start_example :
    (get enqueued.jobs "d1" ≡ some accepted)
    × (enqueued.segments ≡ stored.segments)
    × (answers.audio_exists ≡ true)
    × HasEndpoint accepted.diarization
    × IsReachable answers accepted
    × HasTarget stored accepted
unfolding enqueue new_job create get resolve_endpoint refuse_an_unreachable_diarizer strip_text
    variant_rows for_session ordered place
accepted_job_can_start_example =
    accepted_job_can_start answers stored enqueued asking accepted refl refl

sweep_ends_every_job_example :
    (delete_version (record stored { jobs = mark_interrupted stored.jobs }) "s1" "j9"
      ≢ refused version_busy)
    × IsTurnedDown (pos 9) (get (mark_interrupted stored.jobs) "j9")
sweep_ends_every_job_example = sweep_ends_every_job stored "s1" "j9" "j9" (pos 9)

turns_are_rows_example :
    OneRowPerTurn (
      add
        (execute_all [] (adds (row_of "aai" (pos 1) (some "t1")) ∷ deletes_source "s1" "x" ∷ []))
        (row_of "aai" (pos 5) (some "t1")))
    × Mem (row_of "aai" (pos 5) (some "t1")) (
        add
          (execute_all [] (adds (row_of "aai" (pos 1) (some "t1")) ∷ deletes_source "s1" "x" ∷ []))
          (row_of "aai" (pos 5) (some "t1")))
turns_are_rows_example =
    turns_are_rows (adds (row_of "aai" (pos 1) (some "t1")) ∷ deletes_source "s1" "x" ∷ [])
      (row_of "aai" (pos 5) (some "t1"))

abbrev part_of : String → ℤ → Session
part_of id started_at = record {
  id = id;
  started_at = started_at;
  primary_provider = some "aai";
  speaker_names = ("A", "Ann") ∷ [];
}

abbrev two_sessions : Segments
two_sessions = record (row_of "aai" (pos 3) (some "t1")) { session_id = "s2" } ∷ rows

abbrev merged : Segments
merged = merge_parts "m" (pos 0) two_sessions (
    parts_of two_sessions [] none
      (sort_sources [] (part_of "s1" (pos 7) ∷ part_of "s2" (pos 4) ∷ [])))

abbrev merged_id : String
merged_id = "m"

apart_from_s1 : merged_id ≢ "s1"
apart_from_s1 e = let same : str_eq merged_id "s1" ≡ true = (eq_iff merged_id "s1").1 e in cc

all_within : AllWithin (
    parts_of two_sessions [] none
      (sort_sources [] (part_of "s1" (pos 7) ∷ part_of "s2" (pos 4) ∷ [])))
unfolding best_available_rows newest_done canonical_transcript variant_view variant_rows final_rows
    for_session ordered place sort_sources place_source jobs_of newest_first ◌+ℤ◌
all_within = (
  omega arith,
  (omega arith, omega arith, tt),
  (omega arith, (omega arith, omega arith, (omega arith, omega arith, tt)), tt),
)

merge_loses_nothing_example :
    (map shown (for_session merged "m")
      ≡ laid (pos 0) (
          parts_of two_sessions [] none
            (sort_sources [] (part_of "s1" (pos 7) ∷ part_of "s2" (pos 4) ∷ []))))
    × (for_session merged "s1" ≡ for_session two_sessions "s1")
    × (any (is_current none) (part_of "s1" (pos 7) ∷ part_of "s2" (pos 4) ∷ []) ≡ false)
    × OldestFirst (sort_sources [] (part_of "s1" (pos 7) ∷ part_of "s2" (pos 4) ∷ []))
    × Perm
        (sort_sources [] (part_of "s1" (pos 7) ∷ part_of "s2" (pos 4) ∷ []))
        (part_of "s1" (pos 7) ∷ part_of "s2" (pos 4) ∷ [])
unfolding merge_sessions
merge_loses_nothing_example =
    merge_loses_nothing two_sessions merged []
      (some (part_of "s1" (pos 7)) ∷ none ∷ some (part_of "s2" (pos 4)) ∷ []) none "m" "s1" none
      (merge_names [] (sort_sources [] (part_of "s1" (pos 7) ∷ part_of "s2" (pos 4) ∷ []))) refl
      refl apart_from_s1 all_within
