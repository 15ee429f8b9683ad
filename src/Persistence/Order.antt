-- ===== src/Persistence/Order.antt =====
-- src/loreline/persistence/repositories.py: reading a session in order commutes with selecting rows.
use loreline.Prelude.{
  ◌≡◌, refl, ap, ◌∙◌, arith, Bool, true, false, ◌&&◌, [], ◌∷◌, if◌then◌else◌, select, Bool-cases,
  inl, inr, String,
}
use loreline.Prelude.Int.{◌≤ℤ◌, ltb_ℤ}
use loreline.Transcript.{TranscriptEvent}
use loreline.Persistence.Segments.{Segments, place, ordered, for_session, in_session}

abbrev pub AllFrom : TranscriptEvent → Segments → Type 0
AllFrom e [] = Unit
AllFrom e (row ∷ rows) = (e.start_ts ≤ℤ row.start_ts) × AllFrom e rows

abbrev pub IsOrdered : Segments → Type 0
IsOrdered [] = Unit
IsOrdered (row ∷ rows) = AllFrom row rows × IsOrdered rows

AllFrom-trans :
    (d e : TranscriptEvent) (rows : Segments)
    → d.start_ts ≤ℤ e.start_ts
    → AllFrom e rows
    → AllFrom d rows
AllFrom-trans d e [] h v = tt
AllFrom-trans d e (row ∷ rows) h v = ground (arith, h, v.0, AllFrom-trans d e rows h v.1)

AllFrom-place :
    (d e : TranscriptEvent) (rows : Segments)
    → d.start_ts ≤ℤ e.start_ts
    → AllFrom d rows
    → AllFrom d (place e rows)
unfolding place
AllFrom-place d e [] h v = (h, tt)
AllFrom-place d e (row ∷ rows) h v = ground (arith, h, v, AllFrom-place d e rows h v.1)

pub AllFrom-select :
    (p : TranscriptEvent → Bool) (d : TranscriptEvent) (rows : Segments)
    → AllFrom d rows
    → AllFrom d (select p rows)
AllFrom-select p d [] v = tt
AllFrom-select p d (row ∷ rows) v = ground (arith, v, AllFrom-select p d rows v.1)

pub place-IsOrdered :
    (e : TranscriptEvent) (rows : Segments) → IsOrdered rows → IsOrdered (place e rows)
unfolding place
place-IsOrdered e [] v = (tt, tt)
place-IsOrdered e (row ∷ rows) v = elim (Bool-cases (ltb_ℤ e.start_ts row.start_ts)) [
  | inl first ↦
      let ahead : e.start_ts ≤ℤ row.start_ts = ground (arith, first) in
      rw first ((ahead, AllFrom-trans e row rows ahead v.0), v)
  | inr later ↦
      let behind : row.start_ts ≤ℤ e.start_ts = ground (arith, later) in
      rw later (AllFrom-place row e rows behind v.0, place-IsOrdered e rows v.1)
]

place_first :
    (e row : TranscriptEvent) (rows : Segments)
    → ltb_ℤ e.start_ts row.start_ts ≡ true
    → AllFrom row rows
    → place e rows ≡ e ∷ rows
unfolding place
place_first e row [] h v = refl
place_first e row (r ∷ rows) h v = ground (arith, h, v.0)

select-place :
    (p : TranscriptEvent → Bool) (e : TranscriptEvent) (rows : Segments)
    → IsOrdered rows
    → select p (place e rows) ≡ (if p e then place e (select p rows) else select p rows)
unfolding place
select-place p e [] v = ground arith
select-place p e (row ∷ rows) v = ground (
  arith,
  select-place p e rows v.1,
  place_first e row (select p rows),
  AllFrom-select p row rows v.0,
)

take_or_leave :
    (b : Bool) (e : TranscriptEvent) (done rows : Segments)
    → ordered (if b then place e done else done) rows ≡ ordered done (if b then e ∷ rows else rows)
unfolding ordered
take_or_leave true e done rows = refl
take_or_leave false e done rows = refl

pub select-ordered :
    (p : TranscriptEvent → Bool) (done rows : Segments)
    → IsOrdered done
    → select p (ordered done rows) ≡ ordered (select p done) (select p rows)
unfolding ordered
select-ordered p done [] v = refl
select-ordered p done (e ∷ rows) v =
    select-ordered p (place e done) rows (place-IsOrdered e done v)
    ∙ ap (λ l. ordered l (select p rows)) (select-place p e done v)
    ∙ take_or_leave (p e) e (select p done) (select p rows)

pub select-select :
    (p q : TranscriptEvent → Bool) (rows : Segments)
    → select p (select q rows) ≡ select (λ e. q e && p e) rows
select-select p q [] = refl
select-select p q (row ∷ rows) = ground (arith, select-select p q rows)

-- What is selected of a session, as a selection of the table.
pub select-for_session :
    (p : TranscriptEvent → Bool) (rows : Segments) (session : String)
    → select p (for_session rows session)
      ≡ ordered [] (select (λ e. in_session session e && p e) rows)
unfolding for_session
select-for_session p rows session =
    select-ordered p [] (select (in_session session) rows) tt
    ∙ ap (ordered []) (select-select p (in_session session) rows)
