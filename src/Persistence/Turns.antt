-- ===== src/Persistence/Turns.antt =====
-- src/loreline/persistence/repositories.py: a turn is one row, however often it is revised.
use loreline.Prelude.{
  String, eq_iff, ◌≡◌, refl, sym, ◌∙◌, arith, Bool, true, false, ◌||◌, Option, none, some, List, [],
  ◌∷◌, select, any, Bool-cases, inl, inr,
}
use mathlib.Core.List.{Mem, mem-cons_self, mem-cons_of_mem}
use loreline.Transcript.{TranscriptEvent}
use loreline.Persistence.Segments.{
  Segments, same_turn, is_revision, add, delete_interims, delete_source, delete_session,
}

-- A statement of the repository.
pub data Statement : Type 0 where
  adds : TranscriptEvent → Statement
  deletes_interims : String → Statement
  deletes_source : String → String → Statement
  deletes_session : String → Statement

unfoldable pub execute : Segments → Statement → Segments
unfolding add delete_interims delete_source delete_session
execute rows (adds e) = add rows e
execute rows (deletes_interims session) = delete_interims rows session
execute rows (deletes_source session source) = delete_source rows session source
execute rows (deletes_session session) = delete_session rows session

unfoldable pub execute_all : Segments → List Statement → Segments
unfolding execute
execute_all rows [] = rows
execute_all rows (s ∷ rest) = execute_all (execute rows s) rest

-- No row is a revision of a later one.
abbrev pub OneRowPerTurn : Segments → Type 0
OneRowPerTurn [] = Unit
OneRowPerTurn (row ∷ rows) = (any (is_revision row) rows ≡ false) × OneRowPerTurn rows

any-select :
    (p q : TranscriptEvent → Bool) (rows : Segments)
    → any q rows ≡ false
    → any q (select p rows) ≡ false
any-select p q [] h = refl
any-select p q (row ∷ rows) h = ground (arith, h, any-select p q rows)

select-OneRowPerTurn :
    (p : TranscriptEvent → Bool) (rows : Segments)
    → OneRowPerTurn rows
    → OneRowPerTurn (select p rows)
select-OneRowPerTurn p [] v = tt
select-OneRowPerTurn p (row ∷ rows) v =
    ground (arith, v, any-select p (is_revision row) rows, select-OneRowPerTurn p rows v.1)

same_turn_trans : (t u w : Option String) → same_turn t u ≡ true → same_turn t w ≡ same_turn u w
same_turn_trans none u w h = cc
same_turn_trans (some t) none w h = cc
same_turn_trans (some t) (some u) none h = refl
same_turn_trans (some t) (some u) (some w) h = ground (arith, h, eq_iff t u)

-- Rows that are revisions of one another have the same revisions.
same_revisions :
    (row e other : TranscriptEvent)
    → is_revision row e ≡ true
    → is_revision row other ≡ is_revision e other
same_revisions row e other h = ground (
  arith,
  h,
  eq_iff row.session_id e.session_id,
  eq_iff row.source e.source,
  same_turn_trans row.turn_id e.turn_id other.turn_id,
)

any_same :
    (p q : TranscriptEvent → Bool) (rows : Segments)
    → ((e : TranscriptEvent) → p e ≡ q e)
    → any p rows ≡ any q rows
any_same p q [] h = refl
any_same p q (row ∷ rows) h = ground (arith, h row, any_same p q rows h)

pub or_parts : (a b : Bool) → (a || b) ≡ false → (a ≡ false) × (b ≡ false)
or_parts true b h = ground (arith, h)
or_parts false b h = (refl, h)

pub any-add :
    (q : TranscriptEvent → Bool) (e : TranscriptEvent) (rows : Segments)
    → q e ≡ false
    → any q rows ≡ false
    → any q (add rows e) ≡ false
unfolding add
any-add q e [] h k = rw h refl
any-add q e (r ∷ rows) h k =
    let parts = or_parts (q r) (any q rows) k in
    elim (Bool-cases (is_revision r e)) [
      | inl same ↦ rw (same, h) parts.1
      | inr other ↦ rw (other, parts.0) (any-add q e rows h parts.1)
    ]

add-OneRowPerTurn :
    (rows : Segments) (e : TranscriptEvent) → OneRowPerTurn rows → OneRowPerTurn (add rows e)
unfolding add
add-OneRowPerTurn [] e v = ground arith
add-OneRowPerTurn (row ∷ rows) e v = elim (Bool-cases (is_revision row e)) [
  | inl same ↦ rw same (
    any_same (is_revision e) (is_revision row) rows (λ other. sym (same_revisions row e other same))
        ∙ v.0,
    v.1,
  )
  | inr other ↦ rw other (any-add (is_revision row) e rows other v.0, add-OneRowPerTurn rows e v.1)
]

execute-OneRowPerTurn :
    (rows : Segments) (s : Statement) → OneRowPerTurn rows → OneRowPerTurn (execute rows s)
unfolding execute delete_interims delete_source delete_session
execute-OneRowPerTurn rows (adds e) v = add-OneRowPerTurn rows e v
execute-OneRowPerTurn rows (deletes_interims session) v = select-OneRowPerTurn _ rows v
execute-OneRowPerTurn rows (deletes_source session source) v = select-OneRowPerTurn _ rows v
execute-OneRowPerTurn rows (deletes_session session) v = select-OneRowPerTurn _ rows v

execute_all-OneRowPerTurn :
    (rows : Segments) (l : List Statement) → OneRowPerTurn rows → OneRowPerTurn (execute_all rows l)
unfolding execute_all
execute_all-OneRowPerTurn rows [] v = v
execute_all-OneRowPerTurn rows (s ∷ rest) v =
    execute_all-OneRowPerTurn (execute rows s) rest (execute-OneRowPerTurn rows s v)

mem-add : (rows : Segments) (e : TranscriptEvent) → Mem e (add rows e)
unfolding add
mem-add [] e = mem-cons_self
mem-add (row ∷ rows) e = elim (Bool-cases (is_revision row e)) [
  | inl same ↦ rw same mem-cons_self
  | inr other ↦ rw other (mem-cons_of_mem row (mem-add rows e))
]

-- After any statements on the table of segments, in any order and over any sessions, the table has at
-- most one row for a turn of a session and a source; and the row that was added last is there, as it
-- was added.
pub turns_are_rows :
    (statements : List Statement) (e : TranscriptEvent)
    → OneRowPerTurn (add (execute_all [] statements) e) × Mem e (add (execute_all [] statements) e)
turns_are_rows statements e =
    let rows = execute_all [] statements in
    (add-OneRowPerTurn rows e (execute_all-OneRowPerTurn [] statements tt), mem-add rows e)
