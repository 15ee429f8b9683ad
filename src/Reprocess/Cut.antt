-- ===== src/Reprocess/Cut.antt =====
-- src/loreline/reprocess/jobs.py: what the loop of `_diarize_session` has written where it is cut short.
use loreline.Prelude.{
  ℕ, zero, suc, ◌+◌, Bool, true, false, Option, none, some, [], ◌∷◌, take, any, length, ◌≡◌, ◌≢◌,
  refl, arith,
}
use loreline.Transcript.{TranscriptEvent}
use loreline.Persistence.Segments.{Segments, is_revision, add}
use loreline.Persistence.Order.{AllFrom, IsOrdered}
use loreline.Persistence.Sorted.{All}
use loreline.Persistence.Turns.{OneRowPerTurn, or_parts}
use loreline.Reprocess.Work.{Raised, exception, torn_down, Cut, write_copies}

abbrev pub is_exception : Option Raised → Bool
is_exception none = false
is_exception (some torn_down) = false
is_exception (some (exception why)) = true

abbrev pub cut_by : Option Cut → Option Raised
cut_by none = none
cut_by (some (n, stored, why)) = some why

abbrev reach : ℕ → Bool → ℕ
reach n false = n
reach n true = suc n

-- How many rows are stored when a statement raises.
abbrev pub rows_before : Option Cut → ℕ
rows_before none = 0
rows_before (some (n, stored, why)) = reach n stored

-- A loop that nothing cut short is the loop that meets nothing.
pub write_copies_uncut :
    (cut : Option Cut) (count : ℕ) (rows events : Segments)
    → (write_copies cut count rows events).2 ≡ none
    → ((write_copies cut count rows events).0 ≡ (write_copies none count rows events).0)
      × ((write_copies cut count rows events).1 ≡ count + length events)
unfolding write_copies
write_copies_uncut cut count rows [] h = (refl, omega arith)
write_copies_uncut (some (zero, false, why)) count rows (e ∷ events) h = cc
write_copies_uncut (some (zero, true, why)) count rows (e ∷ events) h = cc
write_copies_uncut (some (suc n, stored, why)) count rows (e ∷ events) h =
    let rest = write_copies_uncut (some (n, stored, why)) (suc count) (add rows e) events h in
    (rest.0, omega (arith, rest.1))
write_copies_uncut none count rows (e ∷ events) h =
    let rest = write_copies_uncut none (suc count) (add rows e) events h in
    (refl, omega (arith, rest.1))

none_lem :
    (count : ℕ) (rows events : Segments)
    → is_exception (write_copies none count rows events).2 ≢ true
unfolding write_copies
none_lem count rows [] h = cc
none_lem count rows (e ∷ events) h = none_lem (suc count) (add rows e) events h

-- One that an exception cut short met it where it says, and has written the rows before that.
pub write_copies_cut :
    (cut : Option Cut) (count : ℕ) (rows events : Segments)
    → is_exception (write_copies cut count rows events).2 ≡ true
    → (is_exception (cut_by cut) ≡ true)
      × ((write_copies cut count rows events).0
          ≡ (write_copies none count rows (take (rows_before cut) events)).0)
unfolding write_copies
write_copies_cut cut count rows [] h = cc
write_copies_cut (some (zero, false, why)) count rows (e ∷ events) h = (h, refl)
write_copies_cut (some (zero, true, why)) count rows (e ∷ events) h = (h, refl)
write_copies_cut (some (suc n, false, why)) count rows (e ∷ events) h =
    write_copies_cut (some (n, false, why)) (suc count) (add rows e) events h
write_copies_cut (some (suc n, true, why)) count rows (e ∷ events) h =
    write_copies_cut (some (n, true, why)) (suc count) (add rows e) events h
write_copies_cut none count rows (e ∷ events) h =
    absurd (none_lem (suc count) (add rows e) events h)

pub take-All :
    (p : TranscriptEvent → Bool) (n : ℕ) (events : Segments) → All p events → All p (take n events)
take-All p zero events v = tt
take-All p (suc n) [] v = tt
take-All p (suc n) (e ∷ events) v = (v.0, take-All p n events v.1)

any-take :
    (p : TranscriptEvent → Bool) (n : ℕ) (events : Segments)
    → any p events ≡ false
    → any p (take n events) ≡ false
any-take p zero events h = refl
any-take p (suc n) [] h = refl
any-take p (suc n) (e ∷ events) h =
    let parts = or_parts (p e) (any p events) h in rw parts.0 (any-take p n events parts.1)

pub take-OneRowPerTurn :
    (n : ℕ) (events : Segments) → OneRowPerTurn events → OneRowPerTurn (take n events)
take-OneRowPerTurn zero events v = tt
take-OneRowPerTurn (suc n) [] v = tt
take-OneRowPerTurn (suc n) (e ∷ events) v =
    (any-take (is_revision e) n events v.0, take-OneRowPerTurn n events v.1)

take-AllFrom :
    (e : TranscriptEvent) (n : ℕ) (events : Segments) → AllFrom e events → AllFrom e (take n events)
take-AllFrom e zero events v = tt
take-AllFrom e (suc n) [] v = tt
take-AllFrom e (suc n) (row ∷ events) v = (v.0, take-AllFrom e n events v.1)

pub take-IsOrdered : (n : ℕ) (events : Segments) → IsOrdered events → IsOrdered (take n events)
take-IsOrdered zero events v = tt
take-IsOrdered (suc n) [] v = tt
take-IsOrdered (suc n) (e ∷ events) v = (take-AllFrom e n events v.0, take-IsOrdered n events v.1)
