-- ===== src/Stream/Model.antt =====
-- src/loreline/stt/streaming.py: the signals of a connector, and the state of a `TranscriptStream`.
-- Instants and spans are whole microseconds. `published` is the history of the `publish` callback,
-- newest first.
use loreline.Prelude.{ℕ, String, Bool, true, false, Option, none, List, []}
use loreline.Prelude.Int.{ℤ, pos}
use loreline.Prelude.Dict.{Dict}
use loreline.Transcript.{Word, TranscriptEvent}

pub data StreamSignal : Type 0 where
  turn_started : (at : Option ℤ) (ref : String) → StreamSignal
  turn_partial : (text : String) (ref : String) (append : Bool) → StreamSignal
  turn_ended : (at : Option ℤ) (ref : String) → StreamSignal
  turn_final : (text : String) (ref : String) (words : List Word) (at to : Option ℤ) → StreamSignal
  stream_alive : StreamSignal

pub record StreamConfig : Type 0 where
  pub session_id : String
  pub queue_frames : ℕ
  pub watchdog : ℤ
  pub quiet_grace : ℤ
  pub max_reconnects : ℕ
  pub healthy_after : ℤ
  pub resume_keep_frames : ℕ
  pub interim_interval : ℤ

pub record PendingGap : Type 0 where
  pub start : ℤ
  pub provider : String

pub record Frame : Type 0 where
  pub pcm : List ℕ
  pub ts : ℤ
  pub is_speech : Bool

-- What the frame queue holds: a frame, or the sentinel that `stop` queues.
pub data Item : Type 0 where
  frame : Frame → Item
  stop_mark : Item

pub record OpenTurn : Type 0 where
  pub ref : String
  pub handle : String
  pub start : ℤ
  pub end : Option ℤ
  pub text : String
  pub published : Bool
  pub next_interim : ℤ

pub record Stream : Type 0 where
  pub config : StreamConfig
  pub provider_id : String
  pub provider_name : String
  pub queue : List Item
  pub stopped : Bool
  pub stalled : Bool
  pub t0 : Option ℤ
  pub last_ts : ℤ
  pub last_rx : ℤ
  pub opened_at : ℤ
  pub voiced_at : Option ℤ
  pub turns : Dict OpenTurn
  pub order : List String
  pub pending_end : Dict ℤ
  pub closed : Dict (Unit {0})
  pub settled : Bool
  pub generation : ℕ
  pub gap : Option PendingGap
  pub published : List TranscriptEvent

abbrev pub max_open_turns : ℕ
max_open_turns = 32

abbrev pub max_pending_ends : ℕ
max_pending_ends = 64

abbrev pub max_closed_refs : ℕ
max_closed_refs = 128

-- The defaults of `StreamConfig`.
abbrev pub default_config : StreamConfig
default_config = record {
  session_id = "";
  queue_frames = 250;
  watchdog = pos 20000000;
  quiet_grace = pos 2000000;
  max_reconnects = 3;
  healthy_after = pos 30000000;
  resume_keep_frames = 50;
  interim_interval = pos 300000;
}

-- `TranscriptStream.__init__`
unfoldable pub new_stream : StreamConfig → String → String → Option PendingGap → Stream
new_stream config provider_id provider_name gap = record {
  config = config;
  provider_id = provider_id;
  provider_name = provider_name;
  queue = [];
  stopped = false;
  stalled = false;
  t0 = none;
  last_ts = pos 0;
  last_rx = pos 0;
  opened_at = pos 0;
  voiced_at = none;
  turns = [];
  order = [];
  pending_end = [];
  closed = [];
  settled = true;
  generation = 0;
  gap = gap;
  published = [];
}
