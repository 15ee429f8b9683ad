-- ===== src/Examples.antt =====
-- Concrete inputs of the router, the diarizer's merge, the audio front end and the buses, and the
-- theorems at them.
use loreline.Prelude.{
  ℕ, ◌/◌, ◌<◌, ◌≡◌, refl, String, true, false, none, some, List, [], ◌∷◌, map, arith, length,
}
use loreline.Prelude.Int.{ℤ, pos, ◌+ℤ◌}
use loreline.Prelude.Dict.{lookup, put}
use loreline.Backends.Assembly.{Socket, flush_input}
use loreline.Backends.Blocks.{flatten, IsFlushed, send_all, audio_messages_fit}
use loreline.Transcript.{Word, TranscriptEvent}
use loreline.Diarize.Merge.{SpeakerSegment, off, speaker_for}
use loreline.Diarize.Dominant.{IsMost, speaker_for-IsMost}
use loreline.Router.Model.{
  Role, Answer, failed, Router, Request, viable, note_backend_failed, note_dropped, notify_failover,
  try_backends, transcribe_with_failover, run,
}
use loreline.Router.Model.{terminal_error, is_empty, exhausted_message}
use loreline.Router.Exhaustion.{run_raises_terminal_error}
use loreline.Router.Streaks.{IsStreak, run-IsStreak}
use loreline.Audio.Chunker.{VadChunker, frames_us}
use loreline.Audio.Chunker
use loreline.Audio.Chunks.{IsChunker, Emits, feed-IsChunker}
use loreline.Audio.Client.{ClientHello, ClientCaptureSource, drain}
use loreline.Audio.Mic.{ClientMic, connect, disconnect}
use loreline.Audio.Mic
use loreline.Audio.Feed.{IsCut, drain-IsCut, stale_token_is_ignored}
use loreline.Audio.Rolling.{RollingPcm, append}
use loreline.Audio.Window.{IsWindow, append-IsWindow}
use loreline.Bus.Model.{EventBus}
use loreline.Bus.Delivery.{publish_all, owed, publish_all-owed}
use loreline.Bus.Logs.{LogBroadcaster}

abbrev said : String → ℤ → ℤ → SpeakerSegment
said speaker start end = record { start = start; end = end; speaker = speaker }

abbrev two_speakers : List SpeakerSegment
two_speakers =
    said "A" (pos 0) (pos 4) ∷ said "B" (pos 4) (pos 10) ∷ said "A" (pos 10) (pos 11) ∷ []

speaker_for-IsMost_example :
    IsMost (pos 0) (pos 10) two_speakers "A" (speaker_for (pos 0) (pos 10) two_speakers)
speaker_for-IsMost_example = speaker_for-IsMost (pos 0) (pos 10) two_speakers "A"

abbrev word : String → ℤ → ℤ → Word
word speaker start end = record {
  text = "w";
  start = start;
  end = end;
  confidence = none;
  speaker = some speaker;
}

abbrev three_words : List Word
three_words = word "A" (pos 0) (pos 2) ∷ word "A" (pos 2) (pos 3) ∷ word "B" (pos 3) (pos 5) ∷ []

abbrev failing : Role → Answer
failing role = failed (record { terminal = false; detail = "timeout" })

abbrev lost_utterance : Request
lost_utterance = record { now = pos 9; start = pos 0; ask = failing; diarized = none }

abbrev one_vendor : Router
one_vendor = record {
  first = record { id = "p"; name = "P" };
  second = none;
  mode = off;
  has_diarizer = false;
  alerting = true;
  consecutive_failures = 0;
  degraded_since = none;
  dropped = 0;
  last_failure = none;
  retired = [];
  asked = [];
  published = [];
  alerts = [];
}

abbrev three_lost : List Request
three_lost = lost_utterance ∷ lost_utterance ∷ lost_utterance ∷ []

run-IsStreak_example : IsStreak (run three_lost one_vendor).0
unfolding run transcribe_with_failover try_backends viable note_backend_failed note_dropped
    notify_failover lookup
run-IsStreak_example =
    run-IsStreak three_lost one_vendor (run three_lost one_vendor).0
      (record { degraded_lem = refl; alerts_lem = ground arith }) refl

abbrev talking_chunker : VadChunker
talking_chunker = record {
  frame_ms = 20;
  silence_ms = 40;
  max_ms = 1000;
  pre_roll_frames = 2;
  pre_roll = [];
  voiced = (1 ∷ 2 ∷ []) ∷ [];
  in_speech = true;
  silence_run_ms = 20;
  start_ts = pos 0;
  last_ts = pos 0;
}

feed-IsChunker_example :
    let fed = Chunker.feed talking_chunker (3 ∷ []) (pos 20000) false in
    IsChunker fed.0 × Emits talking_chunker (3 ∷ []) fed.1
unfolding ◌+ℤ◌
feed-IsChunker_example =
    feed-IsChunker talking_chunker (3 ∷ []) (pos 20000) false
      (record {
        short = ground arith;
        some_silence = ground arith;
        some_roll = ground arith;
        rolled = ground arith;
        talking = record {
          some_voiced = ground arith;
          under_cap = ground arith;
          under_silence = ground arith;
          span = refl;
        };
      })
      (λ talks. refl)

abbrev fed_source : ClientCaptureSource
fed_source = record {
  sample_rate = 16000;
  frame_bytes = 2;
  frame_us = 20000;
  fresh_within_us = 3000000;
  reconnect_window_us = 45000000;
  queue = [];
  pending = 1 ∷ 2 ∷ 3 ∷ 4 ∷ 5 ∷ [];
  stopped = false;
  last_frame_mono = none;
  lost_at = none;
  channels = 1;
  client_rate = 16000;
  resampler_error = none;
}

drain-IsCut_example :
    IsCut
      (length fed_source.pending / fed_source.frame_bytes)
      fed_source
      (drain fed_source (pos 100000))
    × (length (drain fed_source (pos 100000)).pending < fed_source.frame_bytes)
drain-IsCut_example =
    drain-IsCut fed_source (pos 100000) (ground arith) (record { sized = tt; bound = ground arith })
      (ground arith)

abbrev held_mic : ClientMic
held_mic = record {
  reconnect_window_us = 45000000;
  preflight_fresh_us = 3000000;
  next_token = 1;
  token = some 0;
  hello = none;
  last_frame_mono = none;
  source = some fed_source;
}

abbrev browser : ClientHello
browser = record { sample_rate = 48000; channels = 1; label = "" }

stale_token_is_ignored_example :
    let m' = (connect (λ r s. none) (disconnect held_mic 0 (pos 5)) browser (pos 5)).0 in
    (Mic.feed (λ c pcm. pcm) m' 0 (1 ∷ []) (pos 5) ≡ m')
    × (disconnect m' 0 (pos 5) ≡ m')
    × (connect (λ r s. none) m' browser (pos 5) ≡ (m', none))
stale_token_is_ignored_example =
    stale_token_is_ignored (λ r s. none) (λ c pcm. pcm) held_mic 0 browser browser (1 ∷ []) (pos 5)
      (ground arith) refl

abbrev two_subscribers : EventBus ℕ
two_subscribers = record {
  maxsize = 2;
  next_id = 2;
  subscribers =
      record { id = 0; maxsize = 2; wanted = λ x. true; queue = [] }
      ∷ record { id = 1; maxsize = 0; wanted = λ x. true; queue = [] }
      ∷ [];
}

publish_all-owed_example :
    (publish_all two_subscribers (1 ∷ 2 ∷ 3 ∷ [])).subscribers
    ≡ map (owed (1 ∷ 2 ∷ 3 ∷ [])) two_subscribers.subscribers
publish_all-owed_example =
    publish_all-owed two_subscribers (1 ∷ 2 ∷ 3 ∷ [])
      ((λ h. ground arith), ((λ h. ground arith), tt))

abbrev empty_log : LogBroadcaster
empty_log = record {
  maxlen = 1;
  buffer = record { seq = 7; line = "old"; session_id = none; job_id = none } ∷ [];
  bus = record { maxsize = 256; next_id = 0; subscribers = [] };
  seq = 7;
}

abbrev three_word_event : TranscriptEvent
three_word_event = record {
  session_id = "s";
  source = "vendor";
  text = "w w w";
  words = three_words;
  speaker = none;
  start_ts = pos 0;
  end_ts = pos 5;
  is_final = true;
  turn_id = none;
}

abbrev refusing : Role → Answer
refusing role = failed (record { terminal = true; detail = "no credits" })

abbrev refused_utterance : Request
refused_utterance = record { now = pos 9; start = pos 0; ask = refusing; diarized = none }

run_raises_terminal_error_example :
    (terminal_error (run (refused_utterance ∷ []) one_vendor).0 ≡ some "P: no credits")
    × (is_empty (viable (run (refused_utterance ∷ []) one_vendor).0) ≡ true)
unfolding run transcribe_with_failover try_backends viable note_backend_failed exhausted_message
    lookup put
run_raises_terminal_error_example =
    run_raises_terminal_error (refused_utterance ∷ []) one_vendor
      (run (refused_utterance ∷ []) one_vendor).0 "P: no credits" refl

abbrev small_window : RollingPcm
small_window = record { limit = 4; buffer = 1 ∷ 2 ∷ 3 ∷ []; start = some (pos 10) }

append-IsWindow_example :
    IsWindow small_window (4 ∷ 5 ∷ []) (pos 13) (append small_window (4 ∷ 5 ∷ []) (pos 13))
append-IsWindow_example = append-IsWindow small_window (4 ∷ 5 ∷ []) (pos 13)

abbrev new_socket : Socket
new_socket = record {
  sample_rate = 40;
  pending = [];
  sent = [];
  turn_open = false;
  finals = [];
  terminated = false;
}

abbrev spoken_pieces : List (List ℕ)
spoken_pieces = (1 ∷ 2 ∷ 3 ∷ []) ∷ (4 ∷ 5 ∷ []) ∷ (6 ∷ []) ∷ []

audio_messages_fit_example :
    IsFlushed (flush_input (send_all new_socket spoken_pieces)) (flatten spoken_pieces)
audio_messages_fit_example = audio_messages_fit new_socket spoken_pieces (omega arith) refl refl
