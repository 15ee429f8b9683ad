-- ===== src/Reprocess/Work.antt =====
-- src/loreline/reprocess/jobs.py: the work of one job, `_transcribe_session` and `_diarize_session`. What
-- the collaborators answer is input; a call of theirs answers none where it raises nothing. What
-- `_LiveSegmentCount` writes to the job's row meanwhile is left out: the job in memory counts on, and the
-- end of the run writes over it. In the loop of a diarize job such a write, and a row's, may raise.
use loreline.Prelude.{
  ℕ, zero, suc, ◌==◌, String, concat, Bool, true, false, not, ◌&&◌, ◌||◌, Option, none, some, List,
  [], ◌∷◌, map, if◌then◌else◌, any,
}
use mathlib.Core.List.{reverse}
use loreline.Prelude.Int.{ℤ, pos, ◌-ℤ◌}
use loreline.Transcript.{Word, TranscriptEvent}
use loreline.Diarize.Merge.{SpeakerSegment, assign_speakers}
use loreline.Router.Model.{Router, Backend, Request, new_router, run as run_router}
use loreline.Export.Versions.{variant_rows, final_rows, reprocess_prefix, diarize_prefix}
use loreline.Persistence.Segments.{Segments, add, for_session, delete_source}
use loreline.Reprocess.Job.{ReprocessJob, Failure, present, or_empty, nothing_transcribed}
use loreline.Reprocess.Table.{Jobs}

-- What an await of a run may raise: an exception, or CancelledError.
pub data Raised : Type 0 where
  exception : Failure → Raised
  torn_down : Raised

-- How the work of a run ends.
pub data Ending : Type 0 where
  wrote : ℕ → Ending
  raised : Raised → Ending

-- The tables, what went over the app-wide bus (newest first), and the job as the run holds it.
pub record Work : Type 0 where
  pub segments : Segments
  pub jobs : Jobs
  pub bus : List TranscriptEvent
  pub job : ReprocessJob

-- What a re-transcription meets: whether its provider was found, what building the backend, building
-- the diarizer, loading the glossary and reading the recording raise, and the recording, each utterance
-- with whether the cancel flag is up when the feed comes to it. A CancelledError arrives when
-- `torn_at` events are stored.
pub record Replay : Type 0 where
  pub has_provider : Bool
  pub backend : Backend
  pub backend_raises : Option Raised
  pub diarizer_raises : Option Raised
  pub glossary_raises : Option Raised
  pub read_raises : Option Raised
  pub utterances : List (Bool × Request)
  pub started_mono : ℤ
  pub torn_at : Option ℕ

-- Where a statement of the loop of `_diarize_session` raises, and what: the row, from 0, and whether the
-- row is stored by then, the write of the count being what raises.
abbrev pub Cut : Type 0
Cut = ℕ × Bool × Raised

-- What a diarize job meets; `cut` is where a statement of its loop raises, if one does.
pub record Relabel : Type 0 where
  pub session_found : Bool
  pub wav_raises : Option Raised
  pub factory_raises : Option Raised
  pub diarize_raises : Option Raised
  pub found_segments : List SpeakerSegment
  pub cut : Option Cut

-- An exception of the module's own: `classify_request_error` grades it UNREACHABLE.
abbrev pub own_failure : String → String → Failure
own_failure name message = record {
  type_name = name;
  words = message;
  is_timeout = false;
  unreachable = true;
}

abbrev pub shift_back : ℤ → Word → Word
shift_back offset word = record word { start = word.start -ℤ offset; end = word.end -ℤ offset }

abbrev pub is_zero : ℤ → Bool
is_zero (pos zero) = true
is_zero _ = false

unfoldable pub rebase_transcript : TranscriptEvent → ℤ → TranscriptEvent
rebase_transcript event offset = if is_zero offset then event else record event {
  start_ts = event.start_ts -ℤ offset;
  end_ts = event.end_ts -ℤ offset;
  words = map (shift_back offset) event.words;
}

-- `_aiter`: the utterances that the router is fed, and whether the feed broke off.
unfoldable pub feed : List (Bool × Request) → List Request × Bool
feed [] = ([], false)
feed ((requested, item) ∷ items) =
    if requested then ([], true) else (item ∷ (feed items).0, (feed items).1)

unfoldable pub tagged : ReprocessJob → ℤ → TranscriptEvent → TranscriptEvent
unfolding rebase_transcript
tagged job started_mono event = record (rebase_transcript event started_mono) {
  source = concat reprocess_prefix job.id;
}

-- The body of the loop of `_drive`.
unfoldable pub store : ℕ → ℤ → Work → TranscriptEvent → Work
unfolding tagged
store count started_mono w event =
    let e = tagged w.job started_mono event in
    record w {
      segments = add w.segments e;
      bus = e ∷ w.bus;
      job = record w.job {
        segments_added = suc count;
        has_speakers = present e.speaker || w.job.has_speakers;
      };
    }

-- The loop of `_drive`: the work, the count, and whether a CancelledError ended the loop.
unfoldable pub store_all : Option ℕ → ℕ → ℤ → Work → List TranscriptEvent → Work × ℕ × Bool
unfolding store
store_all torn count started_mono w [] = (w, count, false)
store_all (some zero) count started_mono w (e ∷ events) = (w, count, true)
store_all (some (suc n)) count started_mono w (e ∷ events) =
    store_all (some n) (suc count) started_mono (store count started_mono w e) events
store_all none count started_mono w (e ∷ events) =
    store_all none (suc count) started_mono (store count started_mono w e) events

-- The end of `_drive`: `await run_task` raises what ended the router, over a CancelledError too.
abbrev pub driven : Option String → ℕ × Bool → Ending
driven (some message) (count, torn) =
    raised (exception (own_failure "ProvidersExhaustedError" message))
driven none (count, true) = raised torn_down
driven none (count, false) = wrote count

-- `written == 0 and router.dropped and not cancel.stopped`
abbrev pub refuse_nothing : Router → Bool → Ending → Ending
refuse_nothing r stopped (raised why) = raised why
refuse_nothing r stopped (wrote zero) =
    if r.dropped == 0 || stopped
    then wrote zero
    else raised (
        exception (
          own_failure "NothingTranscribedError"
            (nothing_transcribed r.dropped (or_empty r.last_failure))))
refuse_nothing r stopped (wrote (suc n)) = wrote (suc n)

abbrev pub job_router : ReprocessJob → Replay → Router
job_router job env = new_router env.backend none job.diarization.mode true false

abbrev pub is_raised : Option String → Bool
is_raised none = false
is_raised (some message) = true

-- From the building of the router on: the work, whether the feed broke off, and the ending.
unfoldable pub drive : Work → Replay → Work × Bool × Ending
unfolding feed store_all
drive w env =
    let fed = feed env.utterances in
    let routed = run_router fed.0 (job_router w.job env) in
    let stored = store_all env.torn_at 0 env.started_mono w (reverse routed.0.published) in
    let stopped = fed.1 && not (is_raised routed.1) in
    (stored.0, stopped, refuse_nothing routed.0 stopped (driven routed.1 (stored.1, stored.2)))

-- The calls that come before the router runs, in their order.
abbrev pub first_raised : List (Option Raised) → Option Raised
first_raised [] = none
first_raised (none ∷ rest) = first_raised rest
first_raised (some why ∷ rest) = some why

abbrev pub preparation : ReprocessJob → Replay → Option Raised
preparation job env = first_raised (
    (if env.has_provider
      then none
      else some (exception (own_failure "ProviderNotFoundError" "transcribe requires a provider")))
    ∷ env.backend_raises
    ∷ env.diarizer_raises
    ∷ (if job.use_glossary then env.glossary_raises else none)
    ∷ env.read_raises
    ∷ [])

unfoldable pub then_drive : Work → Replay → Option Raised → Work × Bool × Ending
unfolding drive
then_drive w env (some why) = (w, false, raised why)
then_drive w env none = drive w env

unfoldable pub transcribe_session : Work → Replay → Work × Bool × Ending
unfolding then_drive
transcribe_session w env = then_drive w env (preparation w.job env)

abbrev pub copy_source : ReprocessJob → String
copy_source job = concat diarize_prefix job.target

-- The copies that a diarize job writes.
unfoldable pub relabelled : Work → List SpeakerSegment → List TranscriptEvent
relabelled w found =
    map (λ e. record (assign_speakers e found) { source = copy_source w.job })
      (final_rows (variant_rows (for_session w.segments w.job.session_id) w.job.target))

-- The loop that writes the copies: the table, the count, and what a statement of it raised, if one did.
unfoldable pub write_copies :
    Option Cut → ℕ → Segments → List TranscriptEvent → Segments × ℕ × Option Raised
write_copies cut count rows [] = (rows, count, none)
write_copies (some (zero, false, why)) count rows (e ∷ events) = (rows, count, some why)
write_copies (some (zero, true, why)) count rows (e ∷ events) = (add rows e, suc count, some why)
write_copies (some (suc n, stored, why)) count rows (e ∷ events) =
    write_copies (some (n, stored, why)) (suc count) (add rows e) events
write_copies none count rows (e ∷ events) = write_copies none (suc count) (add rows e) events

-- After the loop: a CancelledError takes the copy back, and an exception goes past with the copy as it is
-- and the count as it was last set.
abbrev pub keep_whole : Work → Bool → Segments × ℕ × Option Raised → Work × Ending
keep_whole w speakers (rows, count, some torn_down) = (
  record w {
    segments = delete_source rows w.job.session_id (copy_source w.job);
    job = record w.job { segments_added = 0; has_speakers = false };
  },
  raised torn_down,
)
keep_whole w speakers (rows, count, some (exception why)) = (
  record w {
    segments = rows;
    job = record w.job {
      segments_added = if count == 0 then w.job.segments_added else count;
      has_speakers = speakers;
    };
  },
  raised (exception why),
)
keep_whole w speakers (rows, count, none) = (
  record w {
    segments = rows;
    job = record w.job { segments_added = count; has_speakers = speakers };
  },
  wrote count,
)

unfoldable pub relabel_version : Work → Option Cut → List SpeakerSegment → Work × Ending
unfolding relabelled write_copies
relabel_version w cut found =
    let copies = relabelled w found in
    let emptied = delete_source w.segments w.job.session_id (copy_source w.job) in
    keep_whole w (any (λ e. present e.speaker) copies) (write_copies cut 0 emptied copies)

abbrev pub diarize_preparation : ReprocessJob → Relabel → Option Raised
diarize_preparation job env = first_raised (
    (if env.session_found
      then none
      else some (
          exception (
            own_failure "SessionNotFoundError"
              (concat "unknown session '" (concat job.session_id "'")))))
    ∷ env.wav_raises
    ∷ env.factory_raises
    ∷ env.diarize_raises
    ∷ [])

unfoldable pub then_relabel :
    Work → Option Cut → Option Raised → List SpeakerSegment → Work × Ending
unfolding relabel_version
then_relabel w cut (some why) found = (w, raised why)
then_relabel w cut none [] = (w, wrote 0)
then_relabel w cut none (first ∷ rest) = relabel_version w cut (first ∷ rest)

unfoldable pub diarize_session : Work → Relabel → Work × Ending
unfolding then_relabel
diarize_session w env = then_relabel w env.cut (diarize_preparation w.job env) env.found_segments
