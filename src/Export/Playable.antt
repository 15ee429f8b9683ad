-- ===== src/Export/Playable.antt =====
-- src/loreline/export.py: what a player may rely on in a list of cues.
use loreline.Prelude.{
  ◌≡◌, refl, ap, sym, arith, subst, Option, none, some, List, [], ◌∷◌, map, if_ind,
}
use loreline.Prelude.Int.{ℤ, ◌≤ℤ◌, ◌+ℤ◌}
use mathlib.Core.List.{Perm}
use mathlib.Core.List.Perm
use loreline.Export.Spans.{Row, Cue, min_cue}
use loreline.Export.Cues.{concat_map, cues_for}
use loreline.Export.Layout.{
  is_before, insert_cue, sort_cues, laid, lay_from, lay_out, subtitle_cues,
}

-- Each cue is shown for at least the shortest time, and from the end of the one before at the earliest.
abbrev pub Follows : Option ℤ → Cue → Type 0
Follows none c = Unit
Follows (some end) c = end ≤ℤ c.start

abbrev pub PlayableAfter : Option ℤ → List Cue → Type 0
PlayableAfter last [] = Unit
PlayableAfter last (c ∷ cues) =
    Follows last c × ((c.start +ℤ min_cue) ≤ℤ c.end) × PlayableAfter (some c.end) cues

laid-Follows : (last : Option ℤ) (c : Cue) (cues : List Cue) → Follows last (laid last c cues)
laid-Follows none c cues = tt
laid-Follows (some end) c cues = ground arith

lay_from-PlayableAfter :
    (last : Option ℤ) (cues : List Cue) → PlayableAfter last (lay_from last cues)
unfolding lay_from
lay_from-PlayableAfter last [] = tt
lay_from-PlayableAfter last (c ∷ cues) = (
  laid-Follows last c cues,
  ground arith,
  lay_from-PlayableAfter (some (laid last c cues).end) cues,
)

lay_from-text :
    (last : Option ℤ) (cues : List Cue)
    → map (λ (c : Cue). c.text) (lay_from last cues) ≡ map (λ (c : Cue). c.text) cues
unfolding lay_from
lay_from-text last [] = refl
lay_from-text last (c ∷ cues) = ap (◌∷◌ c.text) (lay_from-text (some (laid last c cues).end) cues)

insert-perm :
    (c : Cue) (cues : List Cue)
    → Perm (map (λ (c : Cue). c.text) (insert_cue c cues)) (c.text ∷ map (λ (c : Cue). c.text) cues)
unfolding insert_cue
insert-perm c [] = Perm.rfl
insert-perm c (d ∷ cues) =
    if_ind
      (λ (l : List Cue).
        Perm (map (λ (c : Cue). c.text) l) (c.text ∷ d.text ∷ map (λ (c : Cue). c.text) cues))
      (is_before c d) (λ _. Perm.rfl)
      (λ _.
        Perm.trans (Perm.cons d.text (insert-perm c cues))
          (Perm.swap c.text d.text (map (λ (c : Cue). c.text) cues)))

sort-perm :
    (cues : List Cue)
    → Perm (map (λ (c : Cue). c.text) (sort_cues cues)) (map (λ (c : Cue). c.text) cues)
unfolding sort_cues
sort-perm [] = Perm.rfl
sort-perm (c ∷ cues) =
    Perm.trans (insert-perm c (sort_cues cues)) (Perm.cons c.text (sort-perm cues))

-- Whatever rows a transcript has, its subtitles are in order of time, no cue begins before the one before it
-- has ended, each lasts a tenth of a second at least, and their texts are those of the rows' cues: none is
-- dropped, repeated or cut by the layout.
pub subtitles_are_playable :
    (events : List Row)
    → PlayableAfter none (subtitle_cues events)
      × Perm
          (map (λ (c : Cue). c.text) (subtitle_cues events))
          (map (λ (c : Cue). c.text) (concat_map cues_for events))
unfolding subtitle_cues lay_out
subtitles_are_playable events =
    let cues = concat_map cues_for events in
    (
      lay_from-PlayableAfter none (sort_cues cues),
      subst (λ l. Perm l (map (λ (c : Cue). c.text) cues))
          (sym (lay_from-text none (sort_cues cues))) (sort-perm cues),
    )
