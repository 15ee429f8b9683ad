-- ===== src/Session/Sink.antt =====
-- src/loreline/session/streaming.py: `StreamPath` as the `FrameSink` of the capture loop. `position` is
-- where in the bytes of the captured audio an instant is.
use loreline.Prelude.Int.{ℤ}
use loreline.Session.Path.{StreamPath, utterance, queues_utterances, done}
use loreline.Session.Path
use loreline.Session.Capture.{FrameSink}

unfoldable pub path_sink : (ℤ → ℤ) → FrameSink StreamPath
unfolding utterance queues_utterances done Path.frame
path_sink position = record {
  frame = λ p pcm ts is_speech.
      Path.frame p (record { pcm = pcm; ts = ts; is_speech = is_speech }) (position ts);
  utterance = utterance;
  queues_utterances = queues_utterances;
  done = done;
}
