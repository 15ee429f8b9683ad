-- ===== src/SessionExamples.antt =====
-- Concrete sessions, and the theorems of the session path and the slot at them.
use loreline.Prelude.{
  ◌++◌, ◌≡◌, ◌+◌, refl, true, false, Option, none, some, [], ◌∷◌, if◌then◌else◌, str_eq, length,
}
use loreline.Prelude.Int.{pos}
use loreline.Prelude.Dict.{lookup, put}
use loreline.Diarize.Merge.{off}
use loreline.Stream.Model.{default_config}
use loreline.Stream.Model
use loreline.Stream.Rows.{awaits}
use loreline.Stream.Run.{Attempt, refused}
use loreline.Stream.Run
use loreline.Stream.Gaps.{gap_event}
use loreline.Router.Model.{Role, failed, Request}
use loreline.Session.Path.{Vendor, StreamPath, new_path, Streamed, run, PathEnd, handed_over}
use loreline.Session.Path.{
  run_streams, streamable, stream_with, publish_all, handoff, retire, notify_failover, close_gap,
  drain_labelling, land,
}
use loreline.Session.Path
use loreline.Session.Live.{LiveConfig, start_live_path}
use loreline.Session.Reasons.{Says, live_path_gives_its_reason}
use loreline.Session.Feed.{IsSettled, path_leaves_none_dimmed}
use loreline.Session.Ends.{IsClosed, run-IsClosed}
use loreline.Session.Manager.{
  capturing, Provider, World, StartRequest, Runtime, Manager, new_manager, current_session_id,
  check_live_capable, check_inline_diarization, resolve_providers, build_backends, check_start,
  start, clean, crashed, all_steps, stop, live_finished, end_unattended, start_asked, stop_asked,
  live_died, Reach, here, next,
}
use loreline.Session.Slot.{active, capturing_row_is_current}
use loreline.Session.Ledger.{started_in, captured, torn, AllFull, slot_balance}
use loreline.Session.Once.{one_teardown}
use loreline.Tests.{dropping_attempt}

abbrev streaming_vendor : Vendor
streaming_vendor = record { id = "aai"; name = "AssemblyAI"; streams = true; calls = false }

abbrev called_vendor : Vendor
called_vendor = record { id = "whisper"; name = "Whisper"; streams = false; calls = true }

abbrev pub fresh_path : StreamPath
fresh_path = new_path streaming_vendor (some called_vendor) default_config off false true 16000

abbrev failing_attempt : Attempt
failing_attempt = record { before = []; during = []; connect = refused }

abbrev always_refused : Role → Streamed
always_refused role = record {
  script = failing_attempt ∷ failing_attempt ∷ failing_attempt ∷ failing_attempt ∷ [];
  stopped = false;
  last_frame_ts = pos 0;
  window = λ e. none;
  answers = λ e l. none;
}

abbrev no_label : Path.Labelling → Option Path.Diarized
no_label l = none

abbrev closed : StreamPath × Option PathEnd
closed = run fresh_path always_refused no_label

closed-handed_over : closed ≡ (closed.0, some handed_over)
unfolding run new_path run_streams streamable stream_with publish_all handoff retire notify_failover
    close_gap drain_labelling land Run.run Run.attempt Model.new_stream gap_event put lookup
closed-handed_over = refl

run-IsClosed_example : IsClosed closed.0 handed_over
run-IsClosed_example =
    run-IsClosed fresh_path closed.0 always_refused no_label handed_over closed-handed_over

-- A connection that drops in the middle of a turn, and then four that are refused.
abbrev dropping : Role → Streamed
dropping role = record (always_refused role) {
  script = dropping_attempt ∷ (always_refused role).script;
}

fresh_path-IsSettled : IsSettled fresh_path
unfolding new_path awaits
fresh_path-IsSettled = record { rows = λ t. refl; finals = tt }

path_leaves_none_dimmed_example : awaits "t1" (run fresh_path dropping no_label).0.bus ≡ false
path_leaves_none_dimmed_example =
    path_leaves_none_dimmed fresh_path dropping no_label "t1" fresh_path-IsSettled
      (λ role. ((tt, (tt, (refl, (tt, tt)))), (tt, (tt, (tt, (tt, tt))))))

abbrev deepgram : Provider
deepgram = record { name = "main"; kind = "deepgram"; enabled = true }

abbrev healthy_world : World
healthy_world = record {
  providers = λ name. if str_eq name "main" then some deepgram else none;
  supports_live = λ kind. true;
  supports_inline = λ kind model. false;
  preflight_error = none;
  backend_error = λ kind model. none;
  diarizer_error = none;
  can_store = true;
}

abbrev request : StartRequest
request = record {
  primary_provider = "main";
  fallback_provider = "";
  model = "nova";
  fallback_model = "";
  mode = off;
}

abbrev busy : Manager
busy = (start healthy_world new_manager request "s1").0

abbrev ran : Manager
ran = (stop (live_finished busy 0) crashed (λ step. false)).0

busy-Reach : Reach true new_manager busy
busy-Reach = next here (start_asked healthy_world request "s1")

ran-Reach : Reach true new_manager ran
ran-Reach = next (next busy-Reach (live_died 0)) (stop_asked crashed (λ step. false) refl)

slot_balance_example :
    (ran.live_view ≡ current_session_id ran)
    × (started_in ran-Reach ≡ captured ran.runtime ++ torn ran.teardowns)
    × AllFull ran.teardowns
    × (length ran.teardowns + active ran ≡ ran.next_task)
slot_balance_example = slot_balance true ran ran-Reach

busy_row : lookup "s1" busy.rows ≡ some capturing
unfolding start check_start resolve_providers check_live_capable check_inline_diarization
    build_backends new_manager lookup put
busy_row = refl

capturing_row_is_current_example : current_session_id busy ≡ some "s1"
capturing_row_is_current_example = capturing_row_is_current busy "s1" busy-Reach busy_row

busy-live_view : busy.live_view ≡ some "s1"
unfolding start check_start resolve_providers check_live_capable check_inline_diarization
    build_backends new_manager
busy-live_view = refl

abbrev the_session : Runtime
the_session = record { session = record { id = "s1"; status = capturing }; task = 0 }

busy-runtime : busy.runtime ≡ some the_session
unfolding start check_start resolve_providers check_live_capable check_inline_diarization
    build_backends new_manager
busy-runtime = refl

abbrev again : Manager
again = (start healthy_world (stop busy clean (λ step. true)).0 request "s2").0

again-Reach : Reach true (stop busy clean (λ step. true)).0 again
again-Reach = next here (start_asked healthy_world request "s2")

-- Every step of the teardown fails, and another session has been started before the old task ends.
one_teardown_example :
    ((stop busy clean (λ step. true)).0.teardowns ≡ ("s1", all_steps) ∷ busy.teardowns)
    × (end_unattended busy 0 clean (λ step. true) ≡ (stop busy clean (λ step. true)).0)
    × (stop (stop busy clean (λ step. true)).0 crashed (λ step. false)
        ≡ ((stop busy clean (λ step. true)).0, none))
    × (end_unattended again 0 crashed (λ step. false) ≡ again)
one_teardown_example =
    one_teardown true busy again the_session clean crashed (λ step. true) (λ step. false) busy-Reach
      busy-runtime again-Reach

abbrev live_config : LiveConfig
live_config = record { mode = off; has_diarizer = false; alerting = true }

abbrev refusing : Request
refusing = record {
  now = pos 0;
  start = pos 0;
  ask = λ role. failed (record { terminal = true; detail = "no credits" });
  diarized = none;
}

live_path_gives_its_reason_example :
    Says (start_live_path live_config fresh_path always_refused no_label (refusing ∷ []))
live_path_gives_its_reason_example =
    live_path_gives_its_reason live_config fresh_path always_refused no_label (refusing ∷ [])
