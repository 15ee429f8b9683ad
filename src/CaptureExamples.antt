-- ===== src/CaptureExamples.antt =====
-- Concrete recordings, and the theorems of the capture loop and the disk watch at them.
use loreline.Prelude.{suc, ◌≤◌, ◌≡◌, refl, true, false, some, List, [], ◌∷◌, arith, length}
use loreline.Prelude.Int.{ℤ, pos}
use loreline.Audio.Chunker.{new_chunker}
use loreline.Session.Path.{StreamPath}
use loreline.Session.Capture.{
  stopped, failed, stored, no_space, Arrival, Moment, arrived, consumed, Capture,
  capture_utterances,
}
use loreline.Session.Disk.{new_watch, Reading, check_all, recoveries, alerts-le-recoveries}
use loreline.Session.Closing.{IsOpen, IsEnded, capture-IsEnded}
use loreline.Session.Recording.{recorded_after, recording_is_complete}
use loreline.Session.Sink.{path_sink}
use loreline.SessionExamples.{fresh_path}

abbrev in_place : ℤ → ℤ
in_place ts = ts

abbrev recording : Capture StreamPath
recording = record {
  chunker = new_chunker 20 40 10000 40;
  stats = record { sample_rate = 16000; samples = 0; last_frame = pos 0 };
  stores = true;
  recorded = [];
  marks = [];
  watch = some (new_watch 1000);
  queue = [];
  dequeued = [];
  sink = some fresh_path;
}

recording-IsOpen : IsOpen true recording
recording-IsOpen = record { only = tt; bounded = ground arith; sink_lem = refl }

abbrev spoken : Arrival
spoken = record {
  frame = 1 ∷ 2 ∷ [];
  ts = pos 0;
  now = pos 0;
  free_bytes = some 900;
  write = stored;
  verdict = some true;
  mark = stored;
}

-- Speech, then silence until the utterance is complete, then a full disk.
abbrev moments : List Moment
moments =
    arrived spoken
    ∷ consumed
    ∷ arrived (record spoken { ts = pos 20000; verdict = some false })
    ∷ arrived (record spoken { ts = pos 40000; verdict = some false })
    ∷ []

abbrev cut_short : List Moment
cut_short = arrived spoken ∷ arrived (record spoken { ts = pos 20000; write = no_space }) ∷ []

capture-IsEnded_example :
    IsEnded
      (path_sink in_place)
      true
      (capture_utterances (path_sink in_place) cut_short stopped no_space recording).0
capture-IsEnded_example =
    capture-IsEnded (path_sink in_place) true cut_short stopped no_space recording recording-IsOpen

recording_is_complete_example :
    ((capture_utterances (path_sink in_place) moments failed stored recording).0.recorded
      ≡ recorded_after [] moments)
    × ((capture_utterances (path_sink in_place) moments failed stored recording).1 ≡ failed)
recording_is_complete_example =
    recording_is_complete (path_sink in_place) moments failed recording refl
      (refl, refl, refl, refl, (refl, refl, refl, refl, (refl, refl, refl, refl, tt)))

-- Low, lower, recovered, low again.
abbrev readings : List Reading
readings =
    record { now = pos 0; free_bytes = 900 }
    ∷ record { now = pos 30000000; free_bytes = 800 }
    ∷ record { now = pos 60000000; free_bytes = 1100 }
    ∷ record { now = pos 90000000; free_bytes = 999 }
    ∷ []

alerts-le-recoveries_example :
    length (check_all (new_watch 1000) readings).low ≤ suc (recoveries 1000 readings)
alerts-le-recoveries_example = alerts-le-recoveries 1000 readings
