-- ===== src/Tests.antt =====
-- Concrete inputs, and the theorems at them.
use loreline.Prelude.{◌≡◌, ◌≢◌, refl, true, false, none, some, List, [], ◌∷◌, arith}
use loreline.Prelude.Int.{ℤ, pos}
use loreline.Prelude.Dict.{lookup}
use loreline.Stream.Model.{
  StreamSignal, turn_partial, Frame, frame, OpenTurn, Stream, default_config, new_stream,
}
use loreline.Stream.Turns.{
  settle_turns, emit, note_closed, turn_id, is_closed, apply, read, settle_open,
}
use loreline.Stream.Books.{IsValid}
use loreline.Stream.Rows.{awaits, RowsOwed}
use loreline.Stream.Invariant.{apply-IsValid}
use loreline.Stream.Endings.{no_row_left_dimmed}
use loreline.Stream.Serve.{AllSettled}
use loreline.Stream.Connection.{
  Moment, sent, heard, final_wait_over, write, reset_connection, serve, wind_up, lost,
  run_connection, step,
}
use loreline.Stream.Connection
use loreline.Stream.Gaps.{open_gap}
use loreline.Transcript.{TranscriptEvent}
use loreline.Stream.Run.{Attempt, refused, opened, dead, returned, raised, run}
use loreline.Stream.Budget.{run_leaves_none_dimmed, refused_until_dead}
use loreline.Stream.Late.{blank_restatement_stays_dimmed, dimmed_after}
use loreline.Stream.Marks.{IsMarker, Unheard, not_one, one_more, in_turn, lost_span_is_marked}
use loreline.Stream.Queue.{
  feeds, stops, drains, operate, queue_stays_valid, IsQueueValid, drain, drain_keeps_newest,
}

abbrev idle_stream : Stream
idle_stream = record {
  config = default_config;
  provider_id = "vendor";
  provider_name = "Vendor";
  queue = [];
  stopped = false;
  stalled = false;
  t0 = none;
  last_ts = pos 0;
  last_rx = pos 0;
  opened_at = pos 0;
  voiced_at = none;
  turns = [];
  order = [];
  pending_end = [];
  closed = [];
  settled = true;
  generation = 0;
  gap = none;
  published = [];
}

idle_stream_lem : new_stream default_config "vendor" "Vendor" none ≡ idle_stream
unfolding new_stream
idle_stream_lem = refl

abbrev speech : ℤ → Frame
speech ts = record { pcm = 1 ∷ 2 ∷ []; ts = ts; is_speech = true }

abbrev hello_there : List (ℤ × StreamSignal)
hello_there =
    (pos 1000000, turn_partial "hello" "a" false)
    ∷ (pos 2000000, turn_partial "hello there" "a" false)
    ∷ []

abbrev dropped_mid_turn : List Moment
dropped_mid_turn =
    Connection.fed (speech (pos 20000))
    ∷ sent (pos 30000) false false
    ∷ heard (pos 1000000) (turn_partial "hello" "a" false)
    ∷ sent (pos 1100000) true false
    ∷ []

idle_stream-IsValid : IsValid idle_stream
idle_stream-IsValid = record {
  listed = refl;
  distinct = ground arith;
  keyed = tt;
  few_turns = ground arith;
  few_ends = ground arith;
  few_closed = ground arith;
  settled_lem = refl;
}

idle_stream-RowsOwed : RowsOwed idle_stream
unfolding awaits
idle_stream-RowsOwed = record { owed_lem = λ t h. ground (arith, h); text_lem = tt }

idle_stream-AllSettled : AllSettled idle_stream
unfolding awaits
idle_stream-AllSettled = λ t. refl

abbrev pub dropping_attempt : Attempt
dropping_attempt = record {
  before = [];
  during = [];
  connect = opened (pos 0) dropped_mid_turn (pos 2000000);
}

abbrev failing_attempt : Attempt
failing_attempt = record { before = []; during = []; connect = refused }

run_leaves_none_dimmed_example :
    AllSettled (run (dropping_attempt ∷ failing_attempt ∷ []) idle_stream 0).0
    × ((run (dropping_attempt ∷ failing_attempt ∷ []) idle_stream 0).1 ≢ raised)
run_leaves_none_dimmed_example =
    run_leaves_none_dimmed (dropping_attempt ∷ failing_attempt ∷ []) idle_stream 0
      idle_stream-AllSettled ((tt, (tt, (refl, (tt, tt)))), (tt, tt))

no_row_left_dimmed_example :
    (s' : Stream) × (read idle_stream hello_there ≡ some s')
    × (awaits "vendor:0:a" (settle_open s').published ≡ false)
no_row_left_dimmed_example =
    no_row_left_dimmed idle_stream hello_there "vendor:0:a" idle_stream-IsValid idle_stream-RowsOwed
      (refl, (refl, tt))

apply-IsValid_example :
    (s' : Stream) × (apply idle_stream (pos 0) (turn_partial "hello" "a" false) ≡ some s')
    × IsValid s'
apply-IsValid_example =
    apply-IsValid idle_stream (pos 0) (turn_partial "hello" "a" false) idle_stream-IsValid

abbrev cut_turn : OpenTurn
cut_turn = record {
  ref = "a";
  handle = "a";
  start = pos 6000000;
  end = none;
  text = "so far";
  published = true;
  next_interim = pos 0;
}

-- Its turn began 3 s before its last frame.
abbrev written_stream : Stream
written_stream = record idle_stream {
  t0 = some (pos 5000000);
  last_ts = pos 9000000;
  turns = ("a", cut_turn) ∷ [];
  order = "a" ∷ [];
  queue = frame (speech (pos 10000000)) ∷ [];
}

abbrev after_silence : Stream
after_silence =
    settle_open
      (open_gap (record (reset_connection (wind_up written_stream lost) (pos 1)) { queue = [] }))

silence-Unheard : Unheard (wind_up written_stream lost) after_silence
unfolding serve run_connection step reset_connection drain settle_open settle_turns open_gap emit
    note_closed turn_id
silence-Unheard = one_more not_one (pos 1) (pos 2) false refl

lost_span_is_marked_example :
    ((write (reset_connection after_silence (pos 3)) (pos 3) (speech (pos 12000000))).gap ≡ none)
    × ((event : TranscriptEvent) × ((write
            (reset_connection after_silence (pos 3))
            (pos 3)
            (speech (pos 12000000))).published
          ≡ event ∷ (wind_up written_stream lost).published)
        × IsMarker "" (pos 6000000) (pos 12000000) event)
unfolding lookup
lost_span_is_marked_example =
    lost_span_is_marked written_stream after_silence (pos 5000000) (pos 6000000) (pos 3)
      (speech (pos 12000000)) refl (in_turn "a" [] cut_turn refl refl refl) silence-Unheard refl

refused_until_dead_example :
    (run
      (failing_attempt ∷ failing_attempt ∷ failing_attempt ∷ failing_attempt ∷ [])
      idle_stream
      0).1
    ≡ returned dead
refused_until_dead_example =
    refused_until_dead (failing_attempt ∷ failing_attempt ∷ failing_attempt ∷ failing_attempt ∷ [])
      idle_stream 0 refl (ground arith)
      (tt, tt, refl, (tt, tt, refl, (tt, tt, refl, (tt, tt, refl, tt))))

idle_stream-IsQueueValid : IsQueueValid idle_stream
idle_stream-IsQueueValid = record { marked = tt; bounded = ground arith }

abbrev three_queued : Stream
three_queued = record idle_stream {
  config = record default_config { resume_keep_frames = 1; queue_frames = 3 };
  queue = frame (speech (pos 1)) ∷ frame (speech (pos 2)) ∷ frame (speech (pos 3)) ∷ [];
}

three_queued-IsQueueValid : IsQueueValid three_queued
three_queued-IsQueueValid = record { marked = tt; bounded = ground arith }

queue_stays_valid_example : IsQueueValid (
    operate three_queued
      (feeds (speech (pos 7)) ∷ drains ∷ feeds (speech (pos 8)) ∷ stops ∷ drains ∷ []))
queue_stays_valid_example =
    queue_stays_valid three_queued
      (feeds (speech (pos 7)) ∷ drains ∷ feeds (speech (pos 8)) ∷ stops ∷ drains ∷ [])
      three_queued-IsQueueValid

drain_keeps_newest_example : (drain three_queued).queue ≡ frame (speech (pos 3)) ∷ []
drain_keeps_newest_example = drain_keeps_newest three_queued three_queued-IsQueueValid refl

abbrev shown_turn : OpenTurn
shown_turn = record {
  ref = "a";
  handle = "a";
  start = pos 0;
  end = none;
  text = "hello";
  published = true;
  next_interim = pos 0;
}

abbrev shown_stream : Stream
shown_stream = record idle_stream {
  turns = ("a", shown_turn) ∷ [];
  order = "a" ∷ [];
  settled = false;
  published =
      record {
        session_id = "";
        source = "vendor";
        text = "hello";
        words = [];
        speaker = none;
        start_ts = pos 0;
        end_ts = pos 0;
        is_final = false;
        turn_id = some "vendor:0:a";
      }
      ∷ [];
}

blank_restatement_stays_dimmed_example :
    dimmed_after "vendor:0:a" (apply shown_stream (pos 5) (turn_partial "" "a" false)) ≡ true
unfolding awaits is_closed lookup
blank_restatement_stays_dimmed_example =
    blank_restatement_stays_dimmed shown_stream (pos 5) "a" "vendor:0:a" shown_turn refl refl refl
      refl refl
