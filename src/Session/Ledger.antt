-- ===== src/Session/Ledger.antt =====
-- src/loreline/session/manager.py: which sessions `start` begins, and `stop` and `_end_unattended` tear down.
use loreline.Prelude.{
  ℕ, ◌+◌, ◌<◌, String, ◌≡◌, refl, sym, ap, ◌∙◌, subst, Bool, true, false, Option, none, some, List,
  [], ◌∷◌, ◌++◌, arith, ◌==◌, length, if_ind,
}
use loreline.Session.Manager.{
  SessionStatus, Checked, passed, turned_down, Session, Runtime, TeardownStep, finish_row, Manager,
  new_manager, check_start, start_if, start, LiveEnd, final_status, write_row, stop_running,
  all_steps, take_steps, finish, stop, runs, live_finished, end_running, end_unattended, Step,
  start_asked, stop_asked, live_died, unattended, Reach, here, next, is_idle, current_session_id,
}
use loreline.Session.Slot.{active, Reach-IsManaged, new-IsManaged, free_when_checked}

-- The id of a session that a call of `start` began, before those of earlier calls.
abbrev noted : String → Checked Session → List String → List String
noted id (turned_down e) ids = ids
noted id (passed session) ids = id ∷ ids

abbrev begun : {kept : Bool} → {m n : Manager} → Step kept m n → List String → List String
begun {kept} {m} (start_asked w req id) ids = noted id (start w m req id).1 ids
begun (stop_asked end fails q) ids = ids
begun (live_died task) ids = ids
begun (unattended task end fails q) ids = ids

-- The ids of the sessions that were begun on the way, newest first: read off the answers of `start`.
abbrev pub started_in : {kept : Bool} → {m n : Manager} → Reach kept m n → List String
started_in here = []
started_in (next before step) = begun step (started_in before)

abbrev pub captured : Option Runtime → List String
captured none = []
captured (some r) = r.session.id ∷ []

abbrev pub torn : List (String × List TeardownStep) → List String
torn [] = []
torn ((id, taken) ∷ past) = id ∷ torn past

-- Every teardown took every step, in order.
abbrev pub AllFull : List (String × List TeardownStep) → Type 0
AllFull [] = Unit
AllFull ((id, taken) ∷ past) = (taken ≡ all_steps) × AllFull past

abbrev pub TaskBelow : Option Runtime → ℕ → Type 0
TaskBelow none n = Unit
TaskBelow (some r) n = r.task < n

pub record IsAccounted (ids : List String) (m : Manager) : Type 0 where
  ids_lem : ids ≡ captured m.runtime ++ torn m.teardowns
  full : AllFull m.teardowns
  pub below : TaskBelow m.runtime m.next_task

idle-runtime : (m : Manager) → is_idle m ≡ true → m.runtime ≡ none
idle-runtime m h = ground (arith, h)

written_parts :
    (lost : Bool) (m : Manager) (id : String) (final : SessionStatus)
    → ((write_row lost id final m).runtime ≡ m.runtime)
      × ((write_row lost id final m).teardowns ≡ m.teardowns)
      × ((write_row lost id final m).next_task ≡ m.next_task)
written_parts true m id final = (refl, refl, refl)
written_parts false m id final = (refl, refl, refl)

-- What one teardown of the running session does.
pub record IsTornDown (r : Runtime) (m n : Manager) : Type 0 where
  pub idle_lem : n.runtime ≡ none
  pub past : n.teardowns ≡ (r.session.id, all_steps) ∷ m.teardowns
  pub tasks : n.next_task ≡ m.next_task

pub torn_down :
    (m : Manager) (running : Option Runtime) (r : Runtime) (end : LiveEnd)
    (fails : TeardownStep → Bool)
    → running ≡ some r
    → IsTornDown r m (stop_running running end fails m).0
unfolding finish take_steps
torn_down m none r end fails e = cc
torn_down m (some r') r end fails e =
    let (idle, past, tasks) =
      written_parts (fails finish_row) (record m { runtime = none }) r'.session.id
        (final_status end) in
    record { idle_lem = idle; past = ground (arith, past, e); tasks = tasks }

torn-IsAccounted :
    (ids : List String) (r : Runtime) (m n : Manager)
    → m.runtime ≡ some r
    → IsTornDown r m n
    → IsAccounted ids m
    → IsAccounted ids n
torn-IsAccounted ids r m n e t v = record {
  ids_lem =
      v.ids_lem
      ∙ ap (λ x. captured x ++ torn m.teardowns) e
      ∙ sym (ap torn t.past)
      ∙ sym (ap (λ x. captured x ++ torn n.teardowns) t.idle_lem);
  full = subst AllFull (sym t.past) (refl, v.full);
  below = subst (λ x. TaskBelow x n.next_task) (sym t.idle_lem) tt;
}

start-IsAccounted :
    (ids : List String) (m : Manager) (id : String) (checked : Checked (Unit {0}))
    → (checked ≡ passed tt → is_idle m ≡ true)
    → IsAccounted ids m
    → IsAccounted (noted id (start_if checked m id).1 ids) (start_if checked m id).0
start-IsAccounted ids m id (turned_down e) free v = v
start-IsAccounted ids m id (passed u) free v = record {
  ids_lem =
      ap (λ l. id ∷ l)
        (v.ids_lem ∙ ap (λ x. captured x ++ torn m.teardowns) (idle-runtime m (free refl)));
  full = v.full;
  below = omega arith;
}

stop-IsAccounted :
    (ids : List String) (m : Manager) (running : Option Runtime) (end : LiveEnd)
    (fails : TeardownStep → Bool)
    → m.runtime ≡ running
    → IsAccounted ids m
    → IsAccounted ids (stop_running running end fails m).0
stop-IsAccounted ids m none end fails e v = v
stop-IsAccounted ids m (some r) end fails e v =
    torn-IsAccounted ids r m (stop_running (some r) end fails m).0 e
      (torn_down m (some r) r end fails refl) v

unattended-IsAccounted :
    (ids : List String) (m : Manager) (running : Option Runtime) (task : ℕ) (end : LiveEnd)
    (fails : TeardownStep → Bool)
    → m.runtime ≡ running
    → IsAccounted ids m
    → IsAccounted ids (end_running running task end fails m)
unattended-IsAccounted ids m none task end fails e v = v
unattended-IsAccounted ids m (some r) task end fails e v =
    if_ind (λ (x : Manager). IsAccounted ids x) (r.task == task)
      (λ _. stop-IsAccounted ids m (some r) end fails e v) (λ _. v)

Step-IsAccounted :
    {kept : Bool} {m n : Manager} (step : Step kept m n) (ids : List String)
    → IsAccounted ids m
    → IsAccounted (begun step ids) n
unfolding start stop live_finished end_unattended
Step-IsAccounted {kept} {m} (start_asked w req id) ids v =
    start-IsAccounted ids m id (check_start w m req) (free_when_checked w m req) v
Step-IsAccounted {kept} {m} (stop_asked end fails q) ids v =
    stop-IsAccounted ids m m.runtime end fails refl v
Step-IsAccounted {kept} {m} (live_died task) ids v =
    if_ind (λ (x : Manager). IsAccounted ids x) (runs m.runtime task)
      (λ _. record { ids_lem = v.ids_lem; full = v.full; below = v.below }) (λ _. v)
Step-IsAccounted {kept} {m} (unattended task end fails q) ids v =
    unattended-IsAccounted ids m m.runtime task end fails refl v

pub Reach-IsAccounted :
    {kept : Bool} {m : Manager} (path : Reach kept new_manager m) → IsAccounted (started_in path) m
unfolding new_manager
Reach-IsAccounted here = record { ids_lem = refl; full = tt; below = tt }
Reach-IsAccounted (next before step) =
    Step-IsAccounted step (started_in before) (Reach-IsAccounted before)

-- Whatever sequence of starts, stops and deaths of the live task has run since the process started, with
-- or without failing teardown steps: the session on view is exactly the one that is captured, and the
-- sessions that calls of `start` returned are, in order and each once, the one that is captured, if any,
-- and those torn down, each of them with every step of the teardown taken; their number is the number of
-- live tasks that were made.
pub slot_balance :
    (kept : Bool) (m : Manager) (path : Reach kept new_manager m)
    → (m.live_view ≡ current_session_id m)
      × (started_in path ≡ captured m.runtime ++ torn m.teardowns)
      × AllFull m.teardowns
      × (length m.teardowns + active m ≡ m.next_task)
slot_balance kept m path =
    let v = Reach-IsManaged path (new-IsManaged kept) in
    let w = Reach-IsAccounted path in (v.view_lem, w.ids_lem, w.full, v.balance)
