-- ===== src/Reprocess/Copies.antt =====
-- src/loreline/reprocess/jobs.py: the rows that a diarize job writes, which are new to the table.
use loreline.Prelude.{
  ℕ, suc, String, str_eq, eq_iff, Bool, true, false, ◌&&◌, none, [], ◌∷◌, ◌++◌, select, any,
  Bool-cases, ◌≡◌, refl, sym, ap, ap₂, ◌∙◌, inl, inr, arith,
}
use mathlib.Core.List.{append_assoc, append-nil}
use loreline.Transcript.{TranscriptEvent}
use loreline.Persistence.Segments.{Segments, is_revision, add, is_of, delete_source}
use loreline.Persistence.Sorted.{All}
use loreline.Persistence.Turns.{OneRowPerTurn, or_parts}
use loreline.Reprocess.Work.{write_copies}

-- No row of the one list is revised by a row of the other.
abbrev pub Unrelated : Segments → Segments → Type 0
Unrelated [] events = Unit
Unrelated (row ∷ rows) events = (any (is_revision row) events ≡ false) × Unrelated rows events

add_new :
    (rows : Segments) (e : TranscriptEvent) (events : Segments)
    → Unrelated rows (e ∷ events)
    → add rows e ≡ rows ++ e ∷ []
unfolding add
add_new [] e events v = refl
add_new (row ∷ rows) e events v =
    let parts = or_parts (is_revision row e) (any (is_revision row) events) v.0 in
    rw parts.0 (ap (◌∷◌ row) (add_new rows e events v.1))

Unrelated-tail :
    (rows : Segments) (e : TranscriptEvent) (events : Segments)
    → Unrelated rows (e ∷ events)
    → Unrelated rows events
Unrelated-tail [] e events v = tt
Unrelated-tail (row ∷ rows) e events v = (
  (or_parts (is_revision row e) (any (is_revision row) events) v.0).1,
  Unrelated-tail rows e events v.1,
)

Unrelated-snoc :
    (rows : Segments) (e : TranscriptEvent) (events : Segments)
    → Unrelated rows events
    → any (is_revision e) events ≡ false
    → Unrelated (rows ++ e ∷ []) events
Unrelated-snoc [] e events v h = (h, tt)
Unrelated-snoc (row ∷ rows) e events v h = (v.0, Unrelated-snoc rows e events v.1 h)

-- Written to the end, the loop appends.
pub write_copies_new :
    (count : ℕ) (rows events : Segments)
    → Unrelated rows events
    → OneRowPerTurn events
    → (write_copies none count rows events).0 ≡ rows ++ events
unfolding write_copies
write_copies_new count rows [] v h = sym (append-nil rows)
write_copies_new count rows (e ∷ events) v h =
    ap (λ r. (write_copies none (suc count) r events).0) (add_new rows e events v)
    ∙ write_copies_new (suc count) (rows ++ e ∷ []) events
        (Unrelated-snoc rows e events (Unrelated-tail rows e events v) h.0) h.1
    ∙ append_assoc rows (e ∷ []) events

revised-is_of :
    (session source : String) (row e : TranscriptEvent)
    → is_revision row e ≡ true
    → is_of session source row ≡ is_of session source e
revised-is_of session source row e h =
    let same_session : row.session_id ≡ e.session_id =
      (eq_iff row.session_id e.session_id).0 (ground (arith, h)) in
    let same_source : row.source ≡ e.source = (eq_iff row.source e.source).0 (ground (arith, h)) in
    ap₂ (λ a b. str_eq a session && str_eq b source) same_session same_source

-- A row that is not of a session and a source is no revision of one that is.
not-revised :
    (session source : String) (row : TranscriptEvent) (events : Segments)
    → All (is_of session source) events
    → is_of session source row ≡ false
    → any (is_revision row) events ≡ false
not-revised session source row [] v h = refl
not-revised session source row (e ∷ events) v h = elim (Bool-cases (is_revision row e)) [
  | inl same ↦ let both = revised-is_of session source row e same in cc
  | inr other ↦ rw other (not-revised session source row events v.1 h)
]

emptied-Unrelated :
    (session source : String) (rows events : Segments)
    → All (is_of session source) events
    → Unrelated (delete_source rows session source) events
unfolding delete_source
emptied-Unrelated session source [] events v = tt
emptied-Unrelated session source (row ∷ rows) events v =
    elim (Bool-cases (is_of session source row)) [
      | inl gone ↦ rw gone (emptied-Unrelated session source rows events v)
      | inr kept ↦ rw kept (
        not-revised session source row events v kept,
        emptied-Unrelated session source rows events v,
      )
    ]

pub select-append :
    (p : TranscriptEvent → Bool) (rows events : Segments)
    → select p (rows ++ events) ≡ select p rows ++ select p events
select-append p [] events = refl
select-append p (row ∷ rows) events = elim (Bool-cases (p row)) [
  | inl h ↦ rw h (ap (◌∷◌ row) (select-append p rows events))
  | inr h ↦ rw h (select-append p rows events)
]

pub select_of_All :
    (p : TranscriptEvent → Bool) (events : Segments) → All p events → select p events ≡ events
select_of_All p [] v = refl
select_of_All p (e ∷ events) v = rw v.0 (ap (◌∷◌ e) (select_of_All p events v.1))

pub select-delete_source :
    (session source : String) (rows : Segments)
    → select (is_of session source) (delete_source rows session source) ≡ []
unfolding delete_source
select-delete_source session source [] = refl
select-delete_source session source (row ∷ rows) = elim (Bool-cases (is_of session source row)) [
  | inl gone ↦ rw gone (select-delete_source session source rows)
  | inr kept ↦ rw (kept, kept) (select-delete_source session source rows)
]

-- After a source is emptied and its copies are written, its rows are the copies.
pub select-copies :
    (session source : String) (count : ℕ) (rows events : Segments)
    → All (is_of session source) events
    → OneRowPerTurn events
    → select
        (is_of session source)
        (write_copies none count (delete_source rows session source) events).0
      ≡ events
select-copies session source count rows events v h =
    ap (select (is_of session source)) (
      write_copies_new count (delete_source rows session source) events
        (emptied-Unrelated session source rows events v) h)
    ∙ select-append (is_of session source) (delete_source rows session source) events
    ∙ ap (λ l. l ++ select (is_of session source) events) (select-delete_source session source rows)
    ∙ select_of_All (is_of session source) events v
