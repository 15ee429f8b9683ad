-- ===== src/Persistence/Sorted.antt =====
-- src/loreline/persistence/repositories.py: what a reading of a session in order is sure to be, and that
-- rows in order read back as they are.
use loreline.Prelude.{
  ◌≡◌, refl, subst, sym, ◌∙◌, arith, Bool, true, [], ◌∷◌, ◌++◌, map, if_ind, select, String,
}
use mathlib.Core.List.{append-nil, append_assoc}
use loreline.Prelude.Int.{◌≤ℤ◌, ltb_ℤ}
use loreline.Transcript.{TranscriptEvent}
use loreline.Persistence.Segments.{Segments, place, ordered, for_session, in_session}
use loreline.Persistence.Order.{AllFrom, AllFrom-select, IsOrdered, place-IsOrdered}

pub select-IsOrdered :
    (p : TranscriptEvent → Bool) (rows : Segments) → IsOrdered rows → IsOrdered (select p rows)
select-IsOrdered p [] v = tt
select-IsOrdered p (row ∷ rows) v =
    if_ind IsOrdered (p row) (λ _. (AllFrom-select p row rows v.0, select-IsOrdered p rows v.1))
      (λ _. select-IsOrdered p rows v.1)

ordered-IsOrdered : (done rows : Segments) → IsOrdered done → IsOrdered (ordered done rows)
unfolding ordered
ordered-IsOrdered done [] v = v
ordered-IsOrdered done (e ∷ rows) v =
    ordered-IsOrdered (place e done) rows (place-IsOrdered e done v)

pub for_session-IsOrdered :
    (p : TranscriptEvent → Bool) (rows : Segments) (session : String)
    → IsOrdered (select p (for_session rows session))
unfolding for_session
for_session-IsOrdered p rows session =
    select-IsOrdered p (for_session rows session)
      (ordered-IsOrdered [] (select (in_session session) rows) tt)

module _ (f : TranscriptEvent → TranscriptEvent)
    (keeps : (e : TranscriptEvent) → (f e).start_ts ≡ e.start_ts) where
  map-AllFrom :
      (e : TranscriptEvent) (rows : Segments) → AllFrom e rows → AllFrom (f e) (map f rows)
  map-AllFrom e [] v = tt
  map-AllFrom e (row ∷ rows) v = (rw (keeps e, keeps row) v.0, map-AllFrom e rows v.1)

  pub map-IsOrdered : (rows : Segments) → IsOrdered rows → IsOrdered (map f rows)
  map-IsOrdered [] v = tt
  map-IsOrdered (row ∷ rows) v = (map-AllFrom row rows v.0, map-IsOrdered rows v.1)

AllFrom-middle :
    (row e : TranscriptEvent) (done rows : Segments)
    → AllFrom row (done ++ e ∷ rows)
    → row.start_ts ≤ℤ e.start_ts
AllFrom-middle row e [] rows v = v.0
AllFrom-middle row e (d ∷ done) rows v = AllFrom-middle row e done rows v.1

place_last :
    (e : TranscriptEvent) (done rows : Segments)
    → IsOrdered (done ++ e ∷ rows)
    → place e done ≡ done ++ e ∷ []
unfolding place
place_last e [] rows v = refl
place_last e (d ∷ done) rows v =
    let behind = AllFrom-middle d e done rows v.0 in
    ground (arith, behind, place_last e done rows v.1)

pub ordered_in_order :
    (done rows : Segments) → IsOrdered (done ++ rows) → ordered done rows ≡ done ++ rows
unfolding ordered
ordered_in_order done [] v = sym (append-nil done)
ordered_in_order done (e ∷ rows) v = rw (place_last e done rows v) (
    ordered_in_order (done ++ e ∷ []) rows
      (subst IsOrdered (sym (append_assoc done (e ∷ []) rows)) v)
    ∙ append_assoc done (e ∷ []) rows)

-- A test that every row passes.
abbrev pub All : (TranscriptEvent → Bool) → Segments → Type 0
All p [] = Unit
All p (row ∷ rows) = (p row ≡ true) × All p rows

pub All-select :
    (p q : TranscriptEvent → Bool) (rows : Segments) → All q rows → All q (select p rows)
All-select p q [] v = tt
All-select p q (row ∷ rows) v =
    if_ind (All q) (p row) (λ _. (v.0, All-select p q rows v.1)) (λ _. All-select p q rows v.1)

select-All : (p : TranscriptEvent → Bool) (rows : Segments) → All p (select p rows)
select-All p [] = tt
select-All p (row ∷ rows) =
    if_ind (All p) (p row) (λ h. (h, select-All p rows)) (λ _. select-All p rows)

place-All :
    (p : TranscriptEvent → Bool) (e : TranscriptEvent) (rows : Segments)
    → p e ≡ true
    → All p rows
    → All p (place e rows)
unfolding place
place-All p e [] h v = (h, tt)
place-All p e (row ∷ rows) h v =
    if_ind (All p) (ltb_ℤ e.start_ts row.start_ts) (λ _. (h, v))
      (λ _. (v.0, place-All p e rows h v.1))

ordered-All :
    (p : TranscriptEvent → Bool) (done rows : Segments)
    → All p done
    → All p rows
    → All p (ordered done rows)
unfolding ordered
ordered-All p done [] v u = v
ordered-All p done (e ∷ rows) v u = ordered-All p (place e done) rows (place-All p e done u.0 v) u.1

pub for_session-All :
    (p : TranscriptEvent → Bool) (rows : Segments) (session : String)
    → All (in_session session) (select p (for_session rows session))
unfolding for_session
for_session-All p rows session = All-select p (in_session session) (for_session rows session) (
    ordered-All (in_session session) [] (select (in_session session) rows) tt
      (select-All (in_session session) rows))
