-- ===== src/Session/Once.antt =====
-- src/loreline/session/manager.py: a session is torn down once, whoever ends it.
use loreline.Prelude.{
  ℕ, ◌<◌, String, ◌≡◌, refl, sym, ap, subst, Bool, Option, none, some, ◌∷◌, arith, ◌==◌, if_ind,
}
use loreline.Session.Manager.{
  Checked, passed, turned_down, Runtime, TeardownStep, Manager, new_manager, check_start, start_if,
  start, LiveEnd, stop_running, all_steps, stop, runs, live_finished, end_running, end_unattended,
  Step, start_asked, stop_asked, live_died, unattended, Reach, here, next,
}
use loreline.Session.Ledger.{TaskBelow, IsTornDown, torn_down, Reach-IsAccounted}

-- The session that runs, if any, is of a later task, and so will be the ones to come.
abbrev Later : ℕ → Option Runtime → Type 0
Later task none = Unit
Later task (some r) = task < r.task

abbrev IsPast : ℕ → Manager → Type 0
IsPast task m = Later task m.runtime × (task < m.next_task)

torn-IsPast :
    (task : ℕ) (r : Runtime) (m n : Manager) → IsTornDown r m n → task < m.next_task → IsPast task n
torn-IsPast task r m n t h =
    (subst (Later task) (sym t.idle_lem) tt, subst (λ (x : ℕ). task < x) (sym t.tasks) h)

start-IsPast :
    (task : ℕ) (m : Manager) (id : String) (checked : Checked (Unit {0}))
    → IsPast task m
    → IsPast task (start_if checked m id).0
start-IsPast task m id (turned_down e) v = v
start-IsPast task m id (passed u) v = (v.1, omega (arith, v.1))

stop-IsPast :
    (task : ℕ) (m : Manager) (running : Option Runtime) (end : LiveEnd)
    (fails : TeardownStep → Bool)
    → IsPast task m
    → IsPast task (stop_running running end fails m).0
stop-IsPast task m none end fails v = v
stop-IsPast task m (some r) end fails v =
    torn-IsPast task r m (stop_running (some r) end fails m).0
      (torn_down m (some r) r end fails refl) v.1

unattended-IsPast :
    (task : ℕ) (m : Manager) (running : Option Runtime) (other : ℕ) (end : LiveEnd)
    (fails : TeardownStep → Bool)
    → IsPast task m
    → IsPast task (end_running running other end fails m)
unattended-IsPast task m none other end fails v = v
unattended-IsPast task m (some r) other end fails v =
    if_ind (λ (x : Manager). IsPast task x) (r.task == other)
      (λ _. stop-IsPast task m (some r) end fails v) (λ _. v)

Step-IsPast :
    {kept : Bool} {m n : Manager} → Step kept m n → (task : ℕ) → IsPast task m → IsPast task n
unfolding start stop live_finished end_unattended
Step-IsPast {kept} {m} (start_asked w req id) task v =
    start-IsPast task m id (check_start w m req) v
Step-IsPast {kept} {m} (stop_asked end fails q) task v = stop-IsPast task m m.runtime end fails v
Step-IsPast {kept} {m} (live_died other) task v =
    if_ind (λ (x : Manager). IsPast task x) (runs m.runtime other) (λ _. v) (λ _. v)
Step-IsPast {kept} {m} (unattended other end fails q) task v =
    unattended-IsPast task m m.runtime other end fails v

Reach-IsPast :
    {kept : Bool} {m n : Manager} → Reach kept m n → (task : ℕ) → IsPast task m → IsPast task n
Reach-IsPast here task v = v
Reach-IsPast (next before step) task v = Step-IsPast step task (Reach-IsPast before task v)

late_end :
    (n : Manager) (running : Option Runtime) (task : ℕ) (late : LiveEnd)
    (fails : TeardownStep → Bool)
    → Later task running
    → end_running running task late fails n ≡ n
late_end n none task late fails v = refl
late_end n (some q) task late fails v =
    if_ind (λ (x : Manager). x ≡ n) (q.task == task) (λ e. absurd (ground (arith, e, v)))
      (λ _. refl)

own_task :
    (m : Manager) (running : Option Runtime) (r : Runtime) (end : LiveEnd)
    (fails : TeardownStep → Bool)
    → running ≡ some r
    → end_running running r.task end fails m ≡ (stop_running running end fails m).0
own_task m none r end fails e = cc
own_task m (some r') r end fails e = ground (arith, e)

-- A session that runs, after any sequence of starts, stops and deaths, is torn down once, by whichever
-- comes first: the unattended end of its live task does what a stop does, a second stop changes nothing,
-- and whatever has been started, stopped or torn down since then, a late end of its task changes nothing,
-- so that it never tears down the session of a later start.
pub one_teardown :
    (kept : Bool) (m n : Manager) (r : Runtime) (end late : LiveEnd)
    (fails fails' : TeardownStep → Bool)
    → Reach kept new_manager m
    → m.runtime ≡ some r
    → Reach kept (stop m end fails).0 n
    → ((stop m end fails).0.teardowns ≡ (r.session.id, all_steps) ∷ m.teardowns)
      × (end_unattended m r.task end fails ≡ (stop m end fails).0)
      × (stop (stop m end fails).0 late fails' ≡ ((stop m end fails).0, none))
      × (end_unattended n r.task late fails' ≡ n)
unfolding stop end_unattended
one_teardown kept m n r end late fails fails' path e since =
    let after = (stop_running m.runtime end fails m).0 in
    let t = torn_down m m.runtime r end fails e in
    let below = subst (λ x. TaskBelow x m.next_task) e (Reach-IsAccounted path).below in
    let past = Reach-IsPast since r.task (torn-IsPast r.task r m after t below) in
    (
      t.past,
      own_task m m.runtime r end fails e,
      ap (λ x. stop_running x late fails' after) t.idle_lem,
      late_end n n.runtime r.task late fails' past.0,
    )
