-- ===== src/Session/Slot.antt =====
-- src/loreline/session/manager.py: the one slot, over any sequence of starts, stops and deaths.
use loreline.Prelude.{
  ℕ, ◌+◌, String, str_eq_refl, eq_iff, ◌≡◌, ◌≢◌, refl, sym, ◌∙◌, Bool, true, false, ◌&&◌, Option,
  none, some, List, ◌∷◌, arith, ◌==◌, if◌then◌else◌, length, if_ind,
}
use loreline.Prelude.Dict.{lookup, lookup-put}
use loreline.Session.Manager.{
  capturing, World, StartRequest, StartError, session_active, require, ◌>>◌, check_request, Checked,
  passed, turned_down, Runtime, TeardownStep, finish_row, Manager, new_manager, check_start,
  start_if, start, LiveEnd, clean, drain_timeout, disk_full, crashed, final_status, write_row,
  stop_running, all_steps, take_steps, note_teardown, finish, drop_view, end_session, stop, runs,
  live_finished, end_running, end_unattended, Step, start_asked, stop_asked, live_died, unattended,
  Reach, here, next, is_idle, current_session_id,
}

abbrev pub active : Manager → ℕ
active m = if is_idle m then 0 else 1

-- The session that is captured is the one on view, and each start has had one teardown or is active.
-- Where the final rows are kept, a row says `capturing` only of the session on view, and it does.
pub record IsManaged (kept : Bool) (m : Manager) : Type 0 where
  pub view_lem : m.live_view ≡ current_session_id m
  pub balance : length m.teardowns + active m ≡ m.next_task
  row_lem : (k : String) → kept ≡ true → lookup k m.rows ≡ some capturing → m.live_view ≡ some k

final-ne-capturing : (end : LiveEnd) → final_status end ≢ capturing
final-ne-capturing clean = cc
final-ne-capturing drain_timeout = cc
final-ne-capturing (disk_full saved) = cc
final-ne-capturing crashed = cc

idle-current : (m : Manager) → is_idle m ≡ true → current_session_id m ≡ none
unfolding current_session_id
idle-current m h = ground (arith, h)

running-current :
    (m : Manager) (r : Runtime) → m.runtime ≡ some r → current_session_id m ≡ some r.session.id
unfolding current_session_id
running-current m r e = ground (arith, e)

start-IsManaged :
    (kept : Bool) (m : Manager) (id : String) (checked : Checked (Unit {0}))
    → (checked ≡ passed tt → is_idle m ≡ true)
    → IsManaged kept m
    → IsManaged kept (start_if checked m id).0
unfolding current_session_id
start-IsManaged kept m id (turned_down e) free v = v
start-IsManaged kept m id (passed u) free v =
    let nobody = idle-current m (free refl) in
    record {
      view_lem = refl;
      balance = ground (arith, free refl, v.balance);
      row_lem = λ k whole h. ground (
        arith,
        lookup-put id k capturing m.rows,
        eq_iff id k,
        v.row_lem k whole,
        v.view_lem,
        nobody,
      );
    }

module _ (kept : Bool) (m : Manager) (r : Runtime) (end : LiveEnd)
    (view : m.live_view ≡ some r.session.id) where
  -- What the teardown leaves in the table, where the final row may be lost.
  abbrev left : Bool → Manager
  left lost =
      (drop_view r.session.id
        (note_teardown r end (
          write_row lost r.session.id (final_status end) (record m { runtime = none }),
          all_steps,
        )).0)

  row-left :
      (lost : Bool) (k : String)
      → (kept && lost) ≡ false
      → kept ≡ true
      → (lookup k m.rows ≡ some capturing → m.live_view ≡ some k)
      → lookup k (left lost).rows ≢ some capturing
  row-left true k q whole h e = ground (arith, q, whole)
  row-left false k q whole h e = ground (
    arith,
    final-ne-capturing end,
    lookup-put r.session.id k (final_status end) m.rows,
    eq_iff r.session.id k,
    h,
    view,
    e,
  )

  left-IsManaged :
      (lost : Bool)
      → m.runtime ≡ some r
      → (kept && lost) ≡ false
      → IsManaged kept m
      → IsManaged kept (left lost)
  unfolding current_session_id
  left-IsManaged true e q v = record {
    view_lem = ground (arith, view, str_eq_refl r.session.id);
    balance = ground (arith, e, v.balance);
    row_lem = λ k whole h. ground (arith, whole, q);
  }
  left-IsManaged false e q v = record {
    view_lem = ground (arith, view, str_eq_refl r.session.id);
    balance = ground (arith, e, v.balance);
    row_lem = λ k whole h. elim (row-left false k q whole (v.row_lem k whole) h) [ ];
  }

end-IsManaged :
    (kept : Bool) (m : Manager) (r : Runtime) (end : LiveEnd) (fails : TeardownStep → Bool)
    → m.runtime ≡ some r
    → (kept && fails finish_row) ≡ false
    → IsManaged kept m
    → IsManaged kept (end_session m r end fails).0
unfolding finish take_steps
end-IsManaged kept m r end fails e q v =
    left-IsManaged kept m r end (v.view_lem ∙ running-current m r e) (fails finish_row) e q v

stop-IsManaged :
    (kept : Bool) (m : Manager) (running : Option Runtime) (end : LiveEnd)
    (fails : TeardownStep → Bool)
    → m.runtime ≡ running
    → (kept && fails finish_row) ≡ false
    → IsManaged kept m
    → IsManaged kept (stop_running running end fails m).0
stop-IsManaged kept m none end fails e q v = v
stop-IsManaged kept m (some r) end fails e q v = end-IsManaged kept m r end fails e q v

unattended-IsManaged :
    (kept : Bool) (m : Manager) (running : Option Runtime) (task : ℕ) (end : LiveEnd)
    (fails : TeardownStep → Bool)
    → m.runtime ≡ running
    → (kept && fails finish_row) ≡ false
    → IsManaged kept m
    → IsManaged kept (end_running running task end fails m)
unattended-IsManaged kept m none task end fails e q v = v
unattended-IsManaged kept m (some r) task end fails e q v =
    if_ind (λ (x : Manager). IsManaged kept x) (r.task == task)
      (λ _. end-IsManaged kept m r end fails e q v) (λ _. v)

ending-IsManaged :
    (kept : Bool) (m : Manager) (tasks : List ℕ)
    → IsManaged kept m
    → IsManaged kept (record m { ending = tasks })
unfolding current_session_id
ending-IsManaged kept m tasks v = record {
  view_lem = v.view_lem;
  balance = v.balance;
  row_lem = v.row_lem;
}

require_lem :
    (free : Bool) (e : StartError) (rest : Checked (Unit {0}))
    → (require free e >> rest) ≡ passed tt
    → free ≡ true
require_lem true e rest h = refl
require_lem false e rest h = cc

pub free_when_checked :
    (w : World) (m : Manager) (req : StartRequest)
    → check_start w m req ≡ passed tt
    → is_idle m ≡ true
unfolding check_start
free_when_checked w m req e = require_lem (is_idle m) session_active (check_request w req) e

Step-IsManaged : {kept : Bool} {m n : Manager} → Step kept m n → IsManaged kept m → IsManaged kept n
unfolding start stop live_finished end_unattended
Step-IsManaged {kept} {m} (start_asked w req id) v =
    start-IsManaged kept m id (check_start w m req) (free_when_checked w m req) v
Step-IsManaged {kept} {m} (stop_asked end fails q) v =
    stop-IsManaged kept m m.runtime end fails refl q v
Step-IsManaged {kept} {m} (live_died task) v =
    if_ind (λ (x : Manager). IsManaged kept x) (runs m.runtime task)
      (λ _. ending-IsManaged kept m (task ∷ m.ending) v) (λ _. v)
Step-IsManaged {kept} {m} (unattended task end fails q) v =
    unattended-IsManaged kept m m.runtime task end fails refl q v

pub Reach-IsManaged :
    {kept : Bool} {m n : Manager} → Reach kept m n → IsManaged kept m → IsManaged kept n
Reach-IsManaged here v = v
Reach-IsManaged (next before step) v = Step-IsManaged step (Reach-IsManaged before v)

pub new-IsManaged : (kept : Bool) → IsManaged kept new_manager
unfolding new_manager current_session_id lookup
new-IsManaged kept = record { view_lem = refl; balance = refl; row_lem = λ k whole h. cc }

-- Where every write of a final row succeeds, a stored row says `capturing` only while its session is the
-- one being captured, after any sequence of starts, stops and deaths of the live task.
pub capturing_row_is_current :
    (m : Manager) (id : String)
    → Reach true new_manager m
    → lookup id m.rows ≡ some capturing
    → current_session_id m ≡ some id
capturing_row_is_current m id path e =
    let v = Reach-IsManaged path (new-IsManaged true) in sym v.view_lem ∙ v.row_lem id refl e

busy_if :
    (running : Option Runtime) (id : String)
    → (elim running [ none ↦ none | some r ↦ some r.session.id ]) ≡ some id
    → (elim running [ none ↦ true | some r ↦ false ]) ≡ false
busy_if none id h = cc
busy_if (some r) id h = refl

-- After any sequence of starts, stops and deaths, while a session is on view every start is refused as
-- `session_active`, whatever it asks for, and changes nothing.
pub start-while_shown :
    (kept : Bool) (w : World) (m : Manager) (req : StartRequest) (id shown : String)
    → Reach kept new_manager m
    → m.live_view ≡ some shown
    → start w m req id ≡ (m, turned_down session_active)
unfolding start check_start current_session_id
start-while_shown kept w m req id shown path h =
    let busy : is_idle m ≡ false =
      busy_if m.runtime shown (sym (Reach-IsManaged path (new-IsManaged kept)).view_lem ∙ h) in
    rw busy refl
