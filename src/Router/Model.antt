-- ===== src/Router/Model.antt =====
-- src/loreline/stt/router.py: `SttRouter`. What a vendor answers to one utterance is input, a failure
-- as `classify_request_error` graded it. `asked`, `published` and `alerts` are the histories of the
-- requests, of the bus and of the `on_failover` callback, newest first.
use loreline.Prelude.{
  ℕ, suc, String, Bool, true, false, Option, none, some, List, [], ◌∷◌, ◌==◌, if◌then◌else◌, concat,
}
use loreline.Prelude.Int.{ℤ}
use loreline.Prelude.Dict.{Dict, put, has, values}
use loreline.Transcript.{TranscriptEvent}
use loreline.Diarize.Merge.{SpeakerSegment, DiarizationMode, merge_diarization}

pub record RequestFailure : Type 0 where
  pub terminal : Bool
  pub detail : String

pub record Backend : Type 0 where
  pub id : String
  pub name : String

pub data Role : Type 0 where
  primary fallback : Role

-- A vendor's answer to one utterance; silence is an answer with no event.
pub data Answer : Type 0 where
  answered : Option TranscriptEvent → Answer
  failed : RequestFailure → Answer

pub record Router : Type 0 where
  pub first : Backend
  pub second : Option Backend
  pub mode : DiarizationMode
  pub has_diarizer : Bool
  pub alerting : Bool
  pub consecutive_failures : ℕ
  pub degraded_since : Option ℤ
  pub dropped : ℕ
  pub last_failure : Option String
  pub retired : Dict String
  pub asked : List String
  pub published : List TranscriptEvent
  pub alerts : List String

-- `_DEGRADED_AFTER_FAILURES`
abbrev pub degraded_after_failures : ℕ
degraded_after_failures = 3

unfoldable pub new_router : Backend → Option Backend → DiarizationMode → Bool → Bool → Router
new_router first second mode has_diarizer alerting = record {
  first = first;
  second = second;
  mode = mode;
  has_diarizer = has_diarizer;
  alerting = alerting;
  consecutive_failures = 0;
  degraded_since = none;
  dropped = 0;
  last_failure = none;
  retired = [];
  asked = [];
  published = [];
  alerts = [];
}

abbrev pub candidates : Router → List (Backend × Role)
candidates r = (r.first, primary) ∷ (elim r.second [ none ↦ [] | some b ↦ (b, fallback) ∷ [] ])

abbrev pub not_retired : Dict String → List (Backend × Role) → List (Backend × Role)
not_retired retired [] = []
not_retired retired ((b, role) ∷ rest) =
    if has b.id retired then not_retired retired rest else (b, role) ∷ not_retired retired rest

unfoldable pub viable : Router → List (Backend × Role)
viable r = not_retired r.retired (candidates r)

abbrev pub join : List String → String
join [] = ""
join (m ∷ []) = m
join (m ∷ n ∷ rest) = concat m (concat "; " (join (n ∷ rest)))

unfoldable pub exhausted_message : Router → String
exhausted_message r = join (values r.retired)

abbrev pub is_empty {ℓ} : {A : Type ℓ} → List A → Bool
is_empty [] = true
is_empty (x ∷ xs) = false

unfoldable pub terminal_error : Router → Option String
unfolding viable exhausted_message
terminal_error r =
    if is_empty r.retired
    then none
    else if is_empty (viable r)
    then some (exhausted_message r)
    else none

abbrev pub reason_of : Backend → RequestFailure → String
reason_of b f = concat b.name (concat ": " f.detail)

-- `_note_backend_failed`, less the log line: a terminal failure retires the provider.
unfoldable pub note_backend_failed : Router → Backend → RequestFailure → Router
note_backend_failed r b f =
    if f.terminal then record r { retired = put b.id (reason_of b f) r.retired } else r

unfoldable pub note_transcribed : Router → Router
note_transcribed r = record r { consecutive_failures = 0; degraded_since = none }

unfoldable pub notify_failover : Router → String → Router
notify_failover r message = if r.alerting then record r { alerts = message ∷ r.alerts } else r

abbrev pub failing_message : String → String
failing_message error =
    concat "Live transcription is failing ("
      (concat error "). Audio keeps recording; the session can be re-transcribed later.")

unfoldable pub note_dropped : Router → ℤ → String → Router
unfolding notify_failover
note_dropped r now error =
    let counted = record r {
      consecutive_failures = suc r.consecutive_failures;
      dropped = suc r.dropped;
      last_failure = some error;
    } in
    if suc r.consecutive_failures == degraded_after_failures
    then notify_failover (record counted { degraded_since = some now }) (failing_message error)
    else counted

-- How the tries of one utterance ended.
pub data Tried : Type 0 where
  heard : Option TranscriptEvent → Tried
  gave_up : String → Tried

abbrev pub after_answer :
    (Router → String → Router × Tried) → Router → Backend → Answer → Router × Tried
after_answer loop r b (answered e) = (note_transcribed r, heard e)
after_answer loop r b (failed f) = loop (note_backend_failed r b f) (reason_of b f)

abbrev pub note_asked : Router → Backend → Router
note_asked r b = record r { asked = b.id ∷ r.asked }

-- The loop over the backends that were viable when it began.
unfoldable pub try_backends :
    List (Backend × Role) → (Role → Answer) → Router → String → Router × Tried
unfolding note_backend_failed note_transcribed
try_backends [] ask r last_error = (r, gave_up last_error)
try_backends ((b, role) ∷ rest) ask r last_error =
    after_answer (try_backends rest ask) (note_asked r b) b (ask role)

-- What `_transcribe_with_failover` returns or raises.
pub data Transcribed : Type 0 where
  event : Option TranscriptEvent → Transcribed
  exhausted : String → Transcribed

abbrev pub mark_degraded : Router → ℤ → Router
mark_degraded r now = record r {
  degraded_since = elim r.degraded_since [ none ↦ some now | some t ↦ some t ];
}

abbrev pub conclude : ℤ → Router × Tried → Router × Transcribed
conclude now (r, heard e) = (r, event e)
conclude now (r, gave_up error) =
    if is_empty (viable r)
    then (mark_degraded r now, exhausted (exhausted_message r))
    else (note_dropped r now error, event none)

unfoldable pub transcribe_with_failover : Router → ℤ → (Role → Answer) → Router × Transcribed
unfolding try_backends viable exhausted_message note_dropped
transcribe_with_failover r now ask = conclude now (try_backends (viable r) ask r "")

-- One utterance with what the environment answers: the vendors, and the diarizer on its audio (none
-- where the call raised).
pub record Request : Type 0 where
  pub now : ℤ
  pub start : ℤ
  pub ask : Role → Answer
  pub diarized : Option (List SpeakerSegment)

-- `_merge_diarization`: a diarizer that fails leaves the event unlabelled.
unfoldable pub labelled : Router → Request → TranscriptEvent → TranscriptEvent
unfolding merge_diarization
labelled r q e =
    elim (merge_diarization e q.start r.mode (if r.has_diarizer then some q.diarized else none)) [
      | none ↦ e
      | some e' ↦ e'
    ]

abbrev pub publish : Router → Request → Option TranscriptEvent → Router
publish r q none = r
publish r q (some e) = record r { published = labelled r q e ∷ r.published }

-- What is left of `run`: none while it goes on, the message where it raised.
abbrev pub run_on :
    (Router → Router × Option String) → Request → Router × Transcribed → Router × Option String
run_on loop q (r, event e) = loop (publish r q e)
run_on loop q (r, exhausted message) = (r, some message)

unfoldable pub run : List Request → Router → Router × Option String
unfolding transcribe_with_failover labelled
run [] r = (r, none)
run (q ∷ rest) r = run_on (run rest) q (transcribe_with_failover r q.now q.ask)
