-- ===== src/Session/Live.antt =====
-- src/loreline/session/manager.py: the live path of a session, from `_start_live_path` to `_stt_exhausted`:
-- a streaming path, a router, or one after the other. The requests of a router are the utterances that
-- reach it.
use loreline.Prelude.{String, concat, Bool, Option, none, some, List, [], ◌∷◌, if◌then◌else◌}
use loreline.Diarize.Merge.{DiarizationMode}
use loreline.Router.Model.{Role, Backend, Router, new_router, Request}
use loreline.Router.Model
use loreline.Session.Path.{
  Vendor, StreamPath, Streamed, Labelling, Diarized, PathEnd, session_ended, handed_over, exhausted,
  handoff, hand_off, notify_failover,
}
use loreline.Session.Path

pub record LiveConfig : Type 0 where
  pub mode : DiarizationMode
  pub has_diarizer : Bool
  pub alerting : Bool

-- `alerts` are the notices that transcription has stopped, newest first.
pub record Live : Type 0 where
  pub path : Option StreamPath
  pub router : Option Router
  pub alerts : List String

-- How the live path goes on, or has ended. `unanswered` is a hand-over with nobody to hand over to.
pub data LiveRest : Type 0 where
  running input_ended recording_only unanswered : LiveRest

abbrev pub backend_of : Vendor → Backend
backend_of v = record { id = v.id; name = v.name }

abbrev pub second_of : Option Vendor → Option Backend
second_of none = none
second_of (some v) = some (backend_of v)

-- `_build_router`
unfoldable pub build_router : LiveConfig → Vendor → Option Vendor → Router
unfolding new_router
build_router cfg primary second =
    new_router (backend_of primary) (second_of second) cfg.mode cfg.has_diarizer cfg.alerting

abbrev pub stopped_message : String → String
stopped_message error =
    concat "Live transcription stopped ("
      (concat error "). Audio keeps recording; the session can be re-transcribed later.")

-- `_stt_exhausted`, which then takes and drops what is queued until the capture ends.
unfoldable pub stt_exhausted : Live → String → Live × LiveRest
stt_exhausted live error =
    (record live { alerts = stopped_message error ∷ live.alerts }, recording_only)

abbrev pub settle_router : Live → Router × Option String → Live × LiveRest
settle_router live (r, none) = (record live { router = some r }, input_ended)
settle_router live (r, some message) = stt_exhausted (record live { router = some r }) message

-- `_drive_router`
unfoldable pub drive_router : List Request → Router → Live → Live × LiveRest
unfolding stt_exhausted Model.run
drive_router requests r live = settle_router live (Model.run requests r)

abbrev pub handoff_message : Vendor → String
handoff_message v = concat "Live transcription is running through " (
    concat v.name
      " one utterance at a time: text arrives after each sentence rather than while it is spoken.")

abbrev pub hand_to :
    LiveConfig → List Request → StreamPath → Option (Vendor × Option Vendor) → Live × LiveRest
hand_to cfg requests p none = (record { path = some p; router = none; alerts = [] }, unanswered)
hand_to cfg requests p (some (primary, second)) =
    drive_router requests (build_router cfg primary second) (record {
      path = some (notify_failover (hand_off p) (handoff_message primary));
      router = none;
      alerts = [];
    })

abbrev pub or_blank : Option String → String
or_blank none = ""
or_blank (some s) = s

-- `_run_stream`, once its path has returned, with `_hand_off`.
unfoldable pub after_path :
    LiveConfig → List Request → StreamPath × Option PathEnd → Live × LiveRest
unfolding drive_router build_router handoff hand_off notify_failover Path.terminal_error
after_path cfg requests (p, none) = (record { path = some p; router = none; alerts = [] }, running)
after_path cfg requests (p, some session_ended) =
    (record { path = some p; router = none; alerts = [] }, input_ended)
after_path cfg requests (p, some handed_over) = hand_to cfg requests p (handoff p)
after_path cfg requests (p, some exhausted) =
    stt_exhausted (record { path = some p; router = none; alerts = [] })
      (or_blank (Path.terminal_error p))

-- `_start_live_path`, with the `_run_stream` or `_run_router` that it starts; `p` is the session's new path.
unfoldable pub start_live_path :
    LiveConfig
    → StreamPath
    → (Role → Streamed)
    → (Labelling → Option Diarized)
    → List Request
    → Live × LiveRest
unfolding after_path drive_router build_router Path.run
start_live_path cfg p play late requests =
    if p.first.streams
    then after_path cfg requests (Path.run p play late)
    else drive_router requests (build_router cfg p.first p.second)
        (record { path = none; router = none; alerts = [] })

abbrev pub path_error : Option StreamPath → Option String
path_error none = none
path_error (some p) = Path.terminal_error p

-- `SessionManager.stt_error`, of a running session.
unfoldable pub stt_error : Live → Option String
unfolding Path.terminal_error Model.terminal_error
stt_error live = elim live.router [ none ↦ path_error live.path | some r ↦ Model.terminal_error r ]
