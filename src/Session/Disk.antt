-- ===== src/Session/Disk.antt =====
-- src/loreline/session/manager.py: `_DiskWatch`, the low-disk alert of a recording.
use loreline.Prelude.{
  ℕ, suc, ◌+◌, ◌*◌, ◌≤◌, ltb, leb, Bool, true, false, not, ◌&&◌, List, [], ◌∷◌, if◌then◌else◌,
  length, arith, subst, ◌≡◌,
}
use loreline.Prelude.Int.{ℤ, pos, ◌+ℤ◌, ltb_ℤ}

-- `low` are the readings that were alerted, newest first; instants are microseconds.
pub record DiskWatch : Type 0 where
  pub threshold_bytes : ℕ
  pub interval : ℤ
  pub next_check : ℤ
  pub alerted : Bool
  pub low : List ℕ

abbrev pub new_watch : ℕ → DiskWatch
new_watch threshold = record {
  threshold_bytes = threshold;
  interval = pos 30000000;
  next_check = pos 0;
  alerted = false;
  low = [];
}

abbrev pub read_free : DiskWatch → ℕ → DiskWatch
read_free w free =
    if leb (w.threshold_bytes * 11) (free * 10)
    then record w { alerted = false }
    else if ltb free w.threshold_bytes && not w.alerted
    then record w { alerted = true; low = free ∷ w.low }
    else w

unfoldable pub check_disk : DiskWatch → ℤ → ℕ → DiskWatch
check_disk w now free =
    if ltb_ℤ now w.next_check
    then w
    else read_free (record w { next_check = now +ℤ w.interval }) free

-- A reading of the disk, and a run of them.
pub record Reading : Type 0 where
  pub now : ℤ
  pub free_bytes : ℕ

unfoldable pub check_all : DiskWatch → List Reading → DiskWatch
unfolding check_disk
check_all w [] = w
check_all w (r ∷ rest) = check_all (check_disk w r.now r.free_bytes) rest

-- The readings at which the disk has recovered.
abbrev pub recoveries : ℕ → List Reading → ℕ
recoveries threshold [] = 0
recoveries threshold (r ∷ rest) =
    (if leb (threshold * 11) (r.free_bytes * 10) then 1 else 0) + recoveries threshold rest

abbrev pub can_alert : DiskWatch → ℕ
can_alert w = if w.alerted then 0 else 1

check-threshold :
    (w : DiskWatch) (r : Reading)
    → (check_disk w r.now r.free_bytes).threshold_bytes ≡ w.threshold_bytes
unfolding check_disk
check-threshold w r = ground arith

check-alerts :
    (w : DiskWatch) (r : Reading)
    → length (check_disk w r.now r.free_bytes).low + can_alert (check_disk w r.now r.free_bytes)
      ≤ length w.low
        + can_alert w
        + (if leb (w.threshold_bytes * 11) (r.free_bytes * 10) then 1 else 0)
unfolding check_disk
check-alerts w r = ground arith

check_all-alerts :
    (w : DiskWatch) (readings : List Reading)
    → length (check_all w readings).low + can_alert (check_all w readings)
      ≤ length w.low + can_alert w + recoveries w.threshold_bytes readings
unfolding check_all
check_all-alerts w [] = omega arith
check_all-alerts w (r ∷ rest) =
    let w' = check_disk w r.now r.free_bytes in
    let later =
      subst
        (λ (t : ℕ).
          length (check_all w' rest).low + can_alert (check_all w' rest)
          ≤ length w'.low + can_alert w' + recoveries t rest)
        (check-threshold w r) (check_all-alerts w' rest) in
    omega (arith, check-alerts w r, later)

-- However often the disk is read, and however its free space moves around the floor, a recording alerts
-- at most once, and once more for each reading at which the disk had recovered by a tenth.
pub alerts-le-recoveries :
    (threshold : ℕ) (readings : List Reading)
    → length (check_all (new_watch threshold) readings).low ≤ suc (recoveries threshold readings)
alerts-le-recoveries threshold readings =
    omega (arith, check_all-alerts (new_watch threshold) readings)
