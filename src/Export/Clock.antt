-- ===== src/Export/Clock.antt =====
-- src/loreline/export.py: `_clock` and `_ts`, the times of a line and of a cue.
use loreline.Prelude.{
  ℕ, ◌+◌, ◌*◌, ◌/◌, ◌%◌, ◌≤◌, ◌<◌, ◌≡◌, arith, String, concat, show_nat, ltb, if◌then◌else◌,
}
use loreline.Prelude.Int.{ℤ, pos_part, round_nat}

-- `:02d` and `:03d` of a number.
abbrev pad2 : ℕ → String
pad2 n = if ltb n 10 then concat "0" (show_nat n) else show_nat n

abbrev pad3 : ℕ → String
pad3 n = if ltb n 100 then concat "0" (pad2 n) else show_nat n

-- `_clock`, from microseconds.
unfoldable pub clock : ℤ → String
clock instant =
    let total = pos_part instant / 1000000 in
    concat (pad2 (total / 60)) (concat ":" (pad2 (total % 60)))

pub record Stamp : Type 0 where
  pub hours : ℕ
  pub minutes : ℕ
  pub secs : ℕ
  pub ms : ℕ

-- The `divmod`s of `_ts`, on whole milliseconds.
unfoldable pub stamp : ℕ → Stamp
stamp total =
    let after_hours = total % 3600000 in
    let after_minutes = after_hours % 60000 in
    record {
      hours = total / 3600000;
      minutes = after_hours / 60000;
      secs = after_minutes / 1000;
      ms = after_minutes % 1000;
    }

-- `round(seconds * 1000)` of what is left of an instant at 0.
abbrev pub milliseconds : ℤ → ℕ
milliseconds instant = round_nat (pos_part instant) 1000

abbrev pub show_stamp : Stamp → String → String
show_stamp s separator = concat (pad2 s.hours) (
    concat ":"
      (concat (pad2 s.minutes) (concat ":" (concat (pad2 s.secs) (concat separator (pad3 s.ms))))))

unfoldable pub ts : ℤ → String → String
unfolding stamp
ts instant separator = show_stamp (stamp (milliseconds instant)) separator

-- What a player reads a stamp as.
abbrev pub read_stamp : Stamp → ℕ
read_stamp s = s.hours * 3600000 + s.minutes * 60000 + s.secs * 1000 + s.ms

back_lem : (n : ℕ) → read_stamp (stamp n) ≡ n
unfolding stamp
back_lem n = omega arith

fields_lem : (n : ℕ) → ((stamp n).minutes < 60) × ((stamp n).secs < 60) × ((stamp n).ms < 1000)
unfolding stamp
fields_lem n = (omega arith, omega arith, omega arith)

near_lem :
    (n : ℕ)
    → (2 * (round_nat n 1000 * 1000) ≤ 2 * n + 1000)
      × (2 * n ≤ 2 * (round_nat n 1000 * 1000) + 1000)
near_lem n = (ground arith, ground arith)

-- The time that a player reads back.
abbrev pub shown_ms : ℤ → ℕ
shown_ms instant = read_stamp (stamp (milliseconds instant))

-- The minutes, the seconds and the milliseconds of a stamp stay within the digits that a subtitle has for
-- them, and the time a player reads back from it is the instant's, or 0 for an earlier one, to the nearest
-- millisecond. Nothing is said of the digits of the hours.
pub read_stamp-stamp :
    (instant : ℤ)
    → ((stamp (milliseconds instant)).minutes < 60)
      × ((stamp (milliseconds instant)).secs < 60)
      × ((stamp (milliseconds instant)).ms < 1000)
      × (2 * (shown_ms instant * 1000) ≤ 2 * pos_part instant + 1000)
      × (2 * pos_part instant ≤ 2 * (shown_ms instant * 1000) + 1000)
read_stamp-stamp instant =
    let n = milliseconds instant in
    let (minutes, secs, ms) = fields_lem n in
    let (below, above) = near_lem (pos_part instant) in
    rw (back_lem n) (minutes, secs, ms, below, above)
