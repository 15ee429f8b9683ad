-- ===== src/Session/Path.antt =====
-- src/loreline/session/streaming.py: `StreamPath`. `bus` and `alerts` are the histories of the session
-- bus and of the `on_failover` callback, newest first. What happens while one provider streams is a
-- script of its stream, with what the capture loop has done to the path's own fields by its end.
use loreline.Prelude.{
  ℕ, ◌*◌, String, str_eq, concat, Bool, true, false, not, ◌&&◌, ◌||◌, Option, none, some, List, [],
  ◌∷◌, if◌then◌else◌, String-discrete,
}
use mathlib.Core.Logic.{ite}
use native.Mathlib.Decide.{ℕ_discrete}
use loreline.Prelude.Int.{ℤ, pos}
use loreline.Prelude.Dict.{Dict, put, has, values}
use loreline.Transcript.{TranscriptEvent, gap_source}
use loreline.Diarize.Merge.{SpeakerSegment, DiarizationMode, remote, merge_diarization}
use loreline.Stream.Model.{StreamConfig, PendingGap, Frame, Stream, new_stream}
use loreline.Stream.Queue.{feed, stop}
use loreline.Stream.Gaps.{gap_event, note_event}
use loreline.Stream.Run.{
  Outcome, ended, dead, unsupported, Attempt, Turn, returned, raised, failures,
}
use loreline.Stream.Run
use loreline.Audio.Chunker.{Utterance}
use loreline.Audio.Rolling.{RollingPcm, append, slice}
use loreline.Router.Model.{Role, primary, fallback, is_empty, join}

-- A configured provider: what it is called, and which of the two shapes its connector has.
pub record Vendor : Type 0 where
  pub id : String
  pub name : String
  pub streams : Bool
  pub calls : Bool

-- A turn being diarized: the event, its audio and where the audio begins.
pub record Labelling : Type 0 where
  pub event : TranscriptEvent
  pub clip : List ℕ
  pub clip_start : ℤ

pub record StreamPath : Type 0 where
  pub first : Vendor
  pub second : Option Vendor
  pub session_id : String
  pub config : StreamConfig
  pub mode : DiarizationMode
  pub alerting : Bool
  pub stream : Option Stream
  pub stopped : Bool
  pub handed_off : Bool
  pub labelling : List Labelling
  pub gap : Option PendingGap
  pub last_frame_ts : ℤ
  pub audio : Option RollingPcm
  pub retired : Dict String
  pub call_shaped : Option Vendor
  pub queued : List Utterance
  pub bus : List TranscriptEvent
  pub alerts : List String

abbrev pub keeps_audio : DiarizationMode → Bool → Bool
keeps_audio remote has_diarizer = has_diarizer
keeps_audio _ has_diarizer = false

-- The window of `_TURN_AUDIO_WINDOW_S`, 90 seconds, at the capture rate.
unfoldable pub new_path :
    Vendor → Option Vendor → StreamConfig → DiarizationMode → Bool → Bool → ℕ → StreamPath
new_path first second config mode has_diarizer alerting capture_rate = record {
  first = first;
  second = second;
  session_id = config.session_id;
  config = config;
  mode = mode;
  alerting = alerting;
  stream = none;
  stopped = false;
  handed_off = false;
  labelling = [];
  gap = none;
  last_frame_ts = pos 0;
  audio =
      if keeps_audio mode has_diarizer
      then some (record { limit = capture_rate * 90 * 2; buffer = []; start = none })
      else none;
  retired = [];
  call_shaped = none;
  queued = [];
  bus = [];
  alerts = [];
}

abbrev pub on_some {ℓ} : {A : Type ℓ} → (A → A) → Option A → Option A
on_some f none = none
on_some f (some a) = some (f a)

-- What the capture loop calls; an instant of the window counts bytes, one of the stream microseconds.
unfoldable pub frame : StreamPath → Frame → ℤ → StreamPath
unfolding append feed
frame p f window_ts = record p {
  last_frame_ts = f.ts;
  audio = on_some (λ a. append a f.pcm window_ts) p.audio;
  stream = on_some (λ s. feed s f) p.stream;
}

unfoldable pub utterance : StreamPath → Utterance → StreamPath
utterance p u = record p { queued = u ∷ p.queued }

unfoldable pub queues_utterances : StreamPath → Bool
queues_utterances p = p.handed_off

unfoldable pub done : StreamPath → StreamPath
unfolding stop
done p = record p { stopped = true; stream = on_some stop p.stream }

unfoldable pub hand_off : StreamPath → StreamPath
hand_off p = record p { handed_off = true }

abbrev pub candidates : StreamPath → List (Vendor × Role)
candidates p = (p.first, primary) ∷ (elim p.second [ none ↦ [] | some b ↦ (b, fallback) ∷ [] ])

abbrev pub streaming_of : Dict String → List (Vendor × Role) → List (Vendor × Role)
streaming_of retired [] = []
streaming_of retired ((b, role) ∷ rest) =
    if b.streams && not (has b.id retired)
    then (b, role) ∷ streaming_of retired rest
    else streaming_of retired rest

-- `_streamable`
unfoldable pub streamable : StreamPath → List (Vendor × Role)
streamable p = streaming_of p.retired (candidates p)

abbrev pub is_none {ℓ} : {A : Type ℓ} → Option A → Bool
is_none none = true
is_none (some a) = false

-- `_exhausted`
unfoldable pub is_exhausted : StreamPath → Bool
unfolding streamable
is_exhausted p = not (is_empty p.retired) && is_empty (streamable p) && is_none p.call_shaped

-- `terminal_error`, before a router has taken over.
unfoldable pub terminal_error : StreamPath → Option String
unfolding is_exhausted
terminal_error p = if is_exhausted p then some (join (values p.retired)) else none

abbrev pub batch_fallback : Option Vendor → Option (Vendor × Option Vendor)
batch_fallback none = none
batch_fallback (some b) = if b.streams then none else some (b, none)

abbrev pub call_pair : Option Vendor → Option Vendor → Option (Vendor × Option Vendor)
call_pair none second = batch_fallback second
call_pair (some b) second = some (b, second)

unfoldable pub handoff : StreamPath → Option (Vendor × Option Vendor)
handoff p = call_pair p.call_shaped p.second

unfoldable pub notify_failover : StreamPath → String → StreamPath
notify_failover p message = if p.alerting then record p { alerts = message ∷ p.alerts } else p

abbrev pub retired_reason : Vendor → String
retired_reason b = concat b.name ": the live stream failed and could not be re-established"

abbrev pub retired_message : Vendor → String
retired_message b =
    concat "Live transcription lost its connection to "
      (concat b.name ". Audio keeps recording; the session can be re-transcribed later.")

unfoldable pub retire : StreamPath → Vendor → StreamPath
unfolding notify_failover
retire p b =
    notify_failover (record p { retired = put b.id (retired_reason b) p.retired })
      (retired_message b)

abbrev pub or_event : Option TranscriptEvent → TranscriptEvent → TranscriptEvent
or_event none e = e
or_event (some labelled) e = labelled

-- `_label_inline`. It is called only where no audio is kept, so never with a diarizer to ask.
unfoldable pub label_inline : StreamPath → TranscriptEvent → TranscriptEvent
unfolding merge_diarization
label_inline p e = or_event (merge_diarization e e.start_ts p.mode none) e

abbrev pub with_clip : StreamPath → TranscriptEvent → List ℕ × ℤ → StreamPath
with_clip p e ([], start) = p
with_clip p e (b ∷ bs, start) = record p {
  labelling = record { event = e; clip = b ∷ bs; clip_start = start } ∷ p.labelling;
}

abbrev pub publish_final : StreamPath → Option RollingPcm → TranscriptEvent → StreamPath
publish_final p none e = record p { bus = label_inline p e ∷ p.bus }
publish_final p (some audio) e =
    with_clip (record p { bus = e ∷ p.bus }) e (slice audio e.start_ts e.end_ts)

-- `_publish`, with the window of audio as it stands when the event comes.
unfoldable pub publish : StreamPath → Option RollingPcm → TranscriptEvent → StreamPath
unfolding label_inline slice
publish p audio e =
    if not e.is_final || str_eq e.source gap_source
    then record p { bus = e ∷ p.bus }
    else publish_final p audio e

-- What the diarizer of `_label` came to.
pub data Diarized : Type 0 where
  timed_out failed : Diarized
  segments : List SpeakerSegment → Diarized

pub Event-discrete : Discrete TranscriptEvent
Event-discrete = hlevel (String-discrete, ℕ_discrete)

abbrev pub unless_same : StreamPath → TranscriptEvent → TranscriptEvent → StreamPath
unless_same p e labelled = ite (Event-discrete labelled e) p (record p { bus = labelled ∷ p.bus })

-- `_label`
unfoldable pub label : StreamPath → Labelling → Diarized → StreamPath
unfolding merge_diarization
label p l timed_out = p
label p l failed = p
label p l (segments found) =
    unless_same p l.event
      (or_event (merge_diarization l.event l.clip_start p.mode (some (some found))) l.event)

abbrev pub settle_label : Option Diarized → Labelling → StreamPath → StreamPath
settle_label none l p = record p { labelling = l ∷ p.labelling }
settle_label (some d) l p = label p l d

abbrev pub land_from : (Labelling → Option Diarized) → StreamPath → List Labelling → StreamPath
land_from answers p [] = p
land_from answers p (l ∷ ls) = settle_label (answers l) l (land_from answers p ls)

-- The labels in flight that land at one moment; the others stay in flight.
unfoldable pub land : (Labelling → Option Diarized) → StreamPath → StreamPath
unfolding label
land answers p = land_from answers (record p { labelling = [] }) p.labelling

-- How `run` ended.
pub data PathEnd : Type 0 where
  session_ended : PathEnd
  handed_over : PathEnd
  exhausted : PathEnd

-- One provider's stream: its script, the path's fields at its end, and at each of its events the window
-- of audio and the labels that land behind it.
pub record Streamed : Type 0 where
  pub script : List Attempt
  pub stopped : Bool
  pub last_frame_ts : ℤ
  pub window : TranscriptEvent → Option RollingPcm
  pub answers : TranscriptEvent → Labelling → Option Diarized

unfoldable pub publish_all : Streamed → StreamPath → List TranscriptEvent → StreamPath
unfolding publish land
publish_all w p [] = p
publish_all w p (e ∷ older) =
    let before = publish_all w p older in land (w.answers e) (publish before (w.window e) e)

abbrev pub opened_stream : StreamPath → Vendor → Stream
opened_stream p b = let s = new_stream p.config b.id b.name p.gap in if p.stopped then stop s else s

-- `_stream_with`, and `_guarded_stream`: an exception is a dead provider, and a script that ends
-- before the stream does leaves it streaming.
pub data Result : Type 0 where
  finished : Outcome → Result
  streaming : Result

abbrev pub result_of : Turn → Result
result_of (returned outcome) = finished outcome
result_of raised = finished dead
result_of (failures n) = streaming

abbrev pub leave_stream : StreamPath → Streamed → Stream × Turn → StreamPath × Result
leave_stream p w (s, turn) = (
  record (publish_all w p s.published) {
    gap = s.gap;
    stream = none;
    stopped = p.stopped || w.stopped;
    last_frame_ts = w.last_frame_ts;
  },
  result_of turn,
)

unfoldable pub stream_with : StreamPath → Vendor → Streamed → StreamPath × Result
unfolding publish_all new_stream
stream_with p b w = leave_stream p w (Run.run w.script (opened_stream p b) 0)

abbrev pub finish : StreamPath → StreamPath × Option PathEnd
finish p = (p, some (if is_none (handoff p) then exhausted else handed_over))

-- The rest of a round of `_run`, after the stream.
abbrev pub after_stream :
    (StreamPath → StreamPath × Option PathEnd)
    → Vendor
    → StreamPath × Result
    → StreamPath × Option PathEnd
after_stream loop b (p, streaming) = (p, none)
after_stream loop b (p, finished ended) = (p, some session_ended)
after_stream loop b (p, finished dead) = loop (retire p b)
after_stream loop b (p, finished unsupported) =
    if b.calls
    then finish (record p { call_shaped = some (elim p.call_shaped [ none ↦ b | some c ↦ c ]) })
    else loop (retire p b)

-- `_run`, over the providers that could stream when it began.
unfoldable pub run_streams :
    List (Vendor × Role) → (Role → Streamed) → StreamPath → StreamPath × Option PathEnd
unfolding stream_with handoff retire
run_streams [] play p = finish p
run_streams ((b, role) ∷ rest) play p =
    if p.stopped
    then (p, some session_ended)
    else after_stream (run_streams rest play) b (stream_with p b (play role))

-- `_close_gap`
unfoldable pub close_gap : StreamPath → StreamPath
unfolding gap_event
close_gap p = record p {
  gap = none;
  bus = note_event (gap_event p.session_id p.gap p.last_frame_ts) p.bus;
}

-- `_drain_labelling`: the labels that answer in time land, and the others are dropped.
unfoldable pub drain_labelling : (Labelling → Option Diarized) → StreamPath → StreamPath
unfolding land
drain_labelling late p = record (land late p) { labelling = [] }

abbrev pub close_path :
    (Labelling → Option Diarized) → StreamPath × Option PathEnd → StreamPath × Option PathEnd
close_path late (p, none) = (p, none)
close_path late (p, some end) = (drain_labelling late (close_gap p), some end)

-- `run`, with the labels that land at its end; none while it streams.
unfoldable pub run :
    StreamPath → (Role → Streamed) → (Labelling → Option Diarized) → StreamPath × Option PathEnd
unfolding run_streams streamable close_gap drain_labelling
run p play late = close_path late (run_streams (streamable p) play p)
