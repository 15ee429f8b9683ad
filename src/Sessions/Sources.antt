-- ===== src/Sessions/Sources.antt =====
-- src/loreline/web/routes/sessions.py: the order of the sources of a merge.
use loreline.Prelude.{List, [], ◌∷◌, ◌++◌, if_ind, sym, subst, Bool-cases, inl, inr, arith}
use mathlib.Core.List.{Perm, append-nil}
use mathlib.Core.List.Perm
use loreline.Prelude.Int.{◌≤ℤ◌, ltb_ℤ}
use loreline.Sessions.Merge.{Session, place_source, sort_sources}

abbrev NoneBefore : Session → List Session → Type 0
NoneBefore s [] = Unit
NoneBefore s (t ∷ sources) = (s.started_at ≤ℤ t.started_at) × NoneBefore s sources

abbrev pub OldestFirst : List Session → Type 0
OldestFirst [] = Unit
OldestFirst (s ∷ sources) = NoneBefore s sources × OldestFirst sources

NoneBefore-trans :
    (r s : Session) (sources : List Session)
    → r.started_at ≤ℤ s.started_at
    → NoneBefore s sources
    → NoneBefore r sources
NoneBefore-trans r s [] h v = tt
NoneBefore-trans r s (t ∷ sources) h v = ground (arith, h, v.0, NoneBefore-trans r s sources h v.1)

NoneBefore-place :
    (r s : Session) (sources : List Session)
    → r.started_at ≤ℤ s.started_at
    → NoneBefore r sources
    → NoneBefore r (place_source s sources)
unfolding place_source
NoneBefore-place r s [] h v = (h, tt)
NoneBefore-place r s (t ∷ sources) h v = ground (arith, h, v, NoneBefore-place r s sources h v.1)

place_source-OldestFirst :
    (s : Session) (sources : List Session)
    → OldestFirst sources
    → OldestFirst (place_source s sources)
unfolding place_source
place_source-OldestFirst s [] v = (tt, tt)
place_source-OldestFirst s (t ∷ sources) v = elim (Bool-cases (ltb_ℤ s.started_at t.started_at)) [
  | inl older ↦
      let ahead : s.started_at ≤ℤ t.started_at = ground (arith, older) in
      rw older ((ahead, NoneBefore-trans s t sources ahead v.0), v)
  | inr later ↦
      let behind : t.started_at ≤ℤ s.started_at = ground (arith, later) in
      rw later (NoneBefore-place t s sources behind v.0, place_source-OldestFirst s sources v.1)
]

pub sort_sources-OldestFirst :
    (sorted sources : List Session) → OldestFirst sorted → OldestFirst (sort_sources sorted sources)
unfolding sort_sources
sort_sources-OldestFirst sorted [] v = v
sort_sources-OldestFirst sorted (s ∷ sources) v =
    sort_sources-OldestFirst (place_source s sorted) sources (place_source-OldestFirst s sorted v)

place_source-perm :
    (s : Session) (sources : List Session) → Perm (place_source s sources) (s ∷ sources)
unfolding place_source
place_source-perm s [] = Perm.rfl
place_source-perm s (t ∷ sources) =
    if_ind (λ l. Perm l (s ∷ t ∷ sources)) (ltb_ℤ s.started_at t.started_at) (λ _. Perm.rfl)
      (λ _. Perm.trans (Perm.cons t (place_source-perm s sources)) (Perm.swap s t sources))

brought_in :
    (s : Session) (sorted sources : List Session)
    → Perm (s ∷ sorted ++ sources) (sorted ++ s ∷ sources)
brought_in s [] sources = Perm.rfl
brought_in s (t ∷ sorted) sources =
    Perm.trans (Perm.swap t s (sorted ++ sources)) (Perm.cons t (brought_in s sorted sources))

pub sort_sources-perm :
    (sorted sources : List Session) → Perm (sort_sources sorted sources) (sorted ++ sources)
unfolding sort_sources
sort_sources-perm sorted [] = subst (Perm sorted) (sym (append-nil sorted)) Perm.rfl
sort_sources-perm sorted (s ∷ sources) =
    Perm.trans (sort_sources-perm (place_source s sorted) sources) (
      Perm.trans (Perm.append_right sources (place_source-perm s sorted))
        (brought_in s sorted sources))
