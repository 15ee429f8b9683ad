-- ===== src/Session/Manager.antt =====
-- src/loreline/session/manager.py: `SessionManager`, the slot of the one active session. `start`, `stop`
-- and `_end_unattended` each hold the lock from their first line to their last, so each is one step.
-- Databases, devices and factories are what a `World` answers; a live task is a number.
use loreline.Prelude.{
  ℕ, suc, ◌≡◌, String, concat, is_blank, Bool, true, false, not, ◌&&◌, Option, none, some, List, [],
  ◌∷◌, ◌++◌, ◌==◌, if◌then◌else◌, str_eq,
}
use loreline.Prelude.Int.{ℤ}
use loreline.Prelude.Dict.{Dict, put}
use loreline.Diarize.Merge.{DiarizationMode, inline}

pub data SessionStatus : Type 0 where
  idle capturing stopping completed error : SessionStatus

pub record Provider : Type 0 where
  pub name : String
  pub kind : String
  pub enabled : Bool

pub record StartRequest : Type 0 where
  pub primary_provider : String
  pub fallback_provider : String
  pub model : String
  pub fallback_model : String
  pub mode : DiarizationMode

-- What the collaborators answer to one start: the tables, the error with which the microphone, a backend
-- or the diarizer refuses, and whether the session's row can be created.
pub record World : Type 0 where
  pub providers : String → Option Provider
  pub supports_live : String → Bool
  pub supports_inline : String → String → Bool
  pub preflight_error : Option String
  pub backend_error : String → String → Option String
  pub diarizer_error : Option String
  pub can_store : Bool

pub data StartError : Type 0 where
  session_active : StartError
  provider_not_found : String → StartError
  provider_disabled : String → StartError
  session_config : String → StartError
  storage_failed : StartError

-- What a check of `start` comes to: a value, or the exception it raises.
pub data Checked {ℓ} (A : Type ℓ) : Type ℓ where
  turned_down : StartError → Checked A
  passed : A → Checked A

infixl 5 ◌>>=◌ ◌>>◌
abbrev pub ◌>>=◌ {ℓ κ} : {A : Type ℓ} → {B : Type κ} → Checked A → (A → Checked B) → Checked B
turned_down why >>= rest = turned_down why
passed a >>= rest = rest a

abbrev pub ◌>>◌ {ℓ} : {B : Type ℓ} → Checked (Unit {0}) → Checked B → Checked B
turned_down why >> rest = turned_down why
passed u >> rest = rest

abbrev pub require : Bool → StartError → Checked (Unit {0})
require false why = turned_down why
require true why = passed tt

abbrev pub found : Option Provider → String → Checked Provider
found none message = turned_down (provider_not_found message)
found (some p) message = passed p

abbrev pub refused : Option String → Checked (Unit {0})
refused none = passed tt
refused (some message) = turned_down (session_config message)

-- `_check_live_capable`
unfoldable pub check_live_capable : World → Provider → String → Checked (Unit {0})
check_live_capable w p role = require (w.supports_live p.kind) (
    session_config (
      concat role (
        concat " provider '" (
          concat p.name (
            concat "' (" (
              concat p.kind
                ") cannot drive a live capture - it is available for post-session re-processing only"))))))

abbrev pub is_inline : DiarizationMode → Bool
is_inline inline = true
is_inline _ = false

-- `_check_inline_diarization`
unfoldable pub check_inline_diarization : World → Provider → StartRequest → Checked (Unit {0})
check_inline_diarization w p req =
    require (not (is_inline req.mode && not (w.supports_inline p.kind req.model))) (
      session_config (
        concat "model '" (
          concat req.model (
            concat "' on '" (
              concat p.name
                "' returns no speaker labels - inline diarization would produce an unlabelled transcript")))))

abbrev pub quoted : String → String → String → String
quoted before name after = concat before (concat "'" (concat name (concat "'" after)))

abbrev pub resolve_fallback : World → StartRequest → Checked (Option Provider)
resolve_fallback w req = if is_blank req.fallback_provider then passed none else (do
  let name = req.fallback_provider
  p ← found (w.providers name) (quoted "unknown fallback provider " name "")
  require p.enabled (provider_disabled (quoted "fallback provider " name " is disabled"))
  check_live_capable w p "fallback"
  passed (some p))

-- `_resolve_providers`
unfoldable pub resolve_providers : World → StartRequest → Checked (Provider × Option Provider)
unfolding check_live_capable check_inline_diarization
resolve_providers w req = do
  let name = req.primary_provider
  p ← found (w.providers name) (quoted "unknown primary provider " name "")
  require p.enabled (provider_disabled (quoted "primary provider " name " is disabled"))
  check_live_capable w p "primary"
  check_inline_diarization w p req
  second ← resolve_fallback w req
  passed (p, second)

abbrev pub build_fallback : World → StartRequest → Option Provider → Checked (Unit {0})
build_fallback w req none = passed tt
build_fallback w req (some p) = refused (w.backend_error p.kind req.fallback_model)

-- `_build_backends`, for its errors.
unfoldable pub build_backends :
    World → StartRequest → Provider → Option Provider → Checked (Unit {0})
build_backends w req p second = do
  refused (w.backend_error p.kind req.model)
  build_fallback w req second

pub record Session : Type 0 where
  pub id : String
  pub status : SessionStatus

pub record Runtime : Type 0 where
  pub session : Session
  pub task : ℕ

-- A step of the teardown that may fail, in the order of `_finish`. Before them it stops the source and
-- closes the bus, which do not raise.
pub data TeardownStep : Type 0 where
  persist delete_interims close_audio close_backends close_diarizer finish_row : TeardownStep

pub data Alert : Type 0 where
  disk_full_alert : ℤ → Alert
  session_error_alert : String → Alert

-- `rows` is the table of sessions; `teardowns` and `alerts` are histories, newest first.
pub record Manager : Type 0 where
  pub runtime : Option Runtime
  pub live_view : Option String
  pub rows : Dict SessionStatus
  pub next_task : ℕ
  pub ending : List ℕ
  pub teardowns : List (String × List TeardownStep)
  pub alerts : List Alert

unfoldable pub new_manager : Manager
new_manager = record {
  runtime = none;
  live_view = none;
  rows = [];
  next_task = 0;
  ending = [];
  teardowns = [];
  alerts = [];
}

unfoldable pub status : Manager → SessionStatus
status m = elim m.runtime [ none ↦ idle | some r ↦ capturing ]

unfoldable pub current_session_id : Manager → Option String
current_session_id m = elim m.runtime [ none ↦ none | some r ↦ some r.session.id ]

abbrev pub is_idle : Manager → Bool
is_idle m = elim m.runtime [ none ↦ true | some r ↦ false ]

-- The checks of `start`, before it creates anything.
abbrev pub check_request : World → StartRequest → Checked (Unit {0})
check_request w req = do
  (p, second) ← resolve_providers w req
  refused w.preflight_error
  build_backends w req p second
  refused w.diarizer_error
  require w.can_store storage_failed

unfoldable pub check_start : World → Manager → StartRequest → Checked (Unit {0})
unfolding resolve_providers build_backends
check_start w m req = do require (is_idle m) session_active; check_request w req

abbrev pub started : Manager → String → Manager × Checked Session
started m id =
    let session : Session = record { id = id; status = capturing } in
    (
      record m {
        rows = put id capturing m.rows;
        runtime = some (record { session = session; task = m.next_task });
        live_view = some id;
        next_task = suc m.next_task;
      },
      passed session,
    )

abbrev pub start_if : Checked (Unit {0}) → Manager → String → Manager × Checked Session
start_if (turned_down e) m id = (m, turned_down e)
start_if (passed u) m id = started m id

-- `start`, with the id that the session is given.
unfoldable pub start : World → Manager → StartRequest → String → Manager × Checked Session
unfolding check_start
start w m req id = start_if (check_start w m req) m id

-- How the live task ended, once it is awaited.
pub data LiveEnd : Type 0 where
  clean : LiveEnd
  drain_timeout : LiveEnd
  disk_full : ℤ → LiveEnd
  crashed : LiveEnd

abbrev pub final_status : LiveEnd → SessionStatus
final_status crashed = error
final_status _ = completed

abbrev pub final_alerts : LiveEnd → String → List Alert
final_alerts (disk_full saved) id = disk_full_alert saved ∷ []
final_alerts crashed id = session_error_alert id ∷ []
final_alerts clean id = []
final_alerts drain_timeout id = []

abbrev pub all_steps : List TeardownStep
all_steps =
    persist ∷ delete_interims ∷ close_audio ∷ close_backends ∷ close_diarizer ∷ finish_row ∷ []

abbrev pub write_row : Bool → String → SessionStatus → Manager → Manager
write_row fails id status m = if fails then m else record m { rows = put id status m.rows }

abbrev pub take_step :
    (TeardownStep → Bool) → String → SessionStatus → TeardownStep → Manager → Manager
take_step fails id status finish_row m = write_row (fails finish_row) id status m
take_step fails id status _ m = m

-- Steps taken one after another: one that fails is logged, and the next is taken.
unfoldable pub take_steps :
    (TeardownStep → Bool)
    → String
    → SessionStatus
    → List TeardownStep
    → Manager
    → Manager × List TeardownStep
take_steps fails id status [] m = (m, [])
take_steps fails id status (step ∷ rest) m =
    let (m', taken) = take_steps fails id status rest (take_step fails id status step m) in
    (m', step ∷ taken)

abbrev pub note_teardown : Runtime → LiveEnd → Manager × List TeardownStep → Manager × Session
note_teardown r end (m, taken) = (
  record m {
    teardowns = (r.session.id, taken) ∷ m.teardowns;
    alerts = final_alerts end r.session.id ++ m.alerts;
  },
  record { id = r.session.id; status = final_status end },
)

-- `_finish`, less what its steps write outside the table of sessions.
unfoldable pub finish : Manager → Runtime → LiveEnd → (TeardownStep → Bool) → Manager × Session
unfolding take_steps
finish m r end fails =
    note_teardown r end (take_steps fails r.session.id (final_status end) all_steps m)

abbrev pub shows : Option String → String → Bool
shows none id = false
shows (some live) id = str_eq live id

-- `_tearing_down`, on its way out.
abbrev pub drop_view : String → Manager → Manager
drop_view id m = record m { live_view = if shows m.live_view id then none else m.live_view }

abbrev pub end_session : Manager → Runtime → LiveEnd → (TeardownStep → Bool) → Manager × Session
end_session m r end fails =
    let (m', session) = finish (record m { runtime = none }) r end fails in
    (drop_view r.session.id m', session)

abbrev pub stopped : Manager × Session → Manager × Option Session
stopped (m, session) = (m, some session)

abbrev pub stop_running :
    Option Runtime → LiveEnd → (TeardownStep → Bool) → Manager → Manager × Option Session
stop_running none end fails m = (m, none)
stop_running (some r) end fails m = stopped (end_session m r end fails)

unfoldable pub stop : Manager → LiveEnd → (TeardownStep → Bool) → Manager × Option Session
unfolding finish
stop m end fails = stop_running m.runtime end fails m

abbrev pub runs : Option Runtime → ℕ → Bool
runs none task = false
runs (some r) task = r.task == task

-- `_live_finished`, of a task that raised: the teardown is scheduled.
unfoldable pub live_finished : Manager → ℕ → Manager
live_finished m task = if runs m.runtime task then record m { ending = task ∷ m.ending } else m

abbrev pub end_running : Option Runtime → ℕ → LiveEnd → (TeardownStep → Bool) → Manager → Manager
end_running none task end fails m = m
end_running (some r) task end fails m = if r.task == task then (end_session m r end fails).0 else m

-- `_end_unattended`
unfoldable pub end_unattended : Manager → ℕ → LiveEnd → (TeardownStep → Bool) → Manager
unfolding finish
end_unattended m task end fails = end_running m.runtime task end fails m

-- What may happen to a manager, between two holders of the lock; `kept` is whether every write of a
-- session's final row succeeds.
pub data Step (kept : Bool) (m : Manager) : Manager → Type 0 where
  start_asked : (w : World) (req : StartRequest) (id : String) → Step kept m (start w m req id).0
  stop_asked :
      (end : LiveEnd) (fails : TeardownStep → Bool)
      → (kept && fails finish_row) ≡ false
      → Step kept m (stop m end fails).0
  live_died : (task : ℕ) → Step kept m (live_finished m task)
  unattended :
      (task : ℕ) (end : LiveEnd) (fails : TeardownStep → Bool)
      → (kept && fails finish_row) ≡ false
      → Step kept m (end_unattended m task end fails)

pub data Reach (kept : Bool) (m : Manager) : Manager → Type 0 where
  here : Reach kept m m
  next : {n o : Manager} → Reach kept m n → Step kept n o → Reach kept m o
