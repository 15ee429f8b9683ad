-- ===== src/Export/Layout.antt =====
-- src/loreline/export.py: `_lay_out` and `subtitle_cues`.
use loreline.Prelude.{Bool, ◌&&◌, ◌||◌, Option, none, some, List, [], ◌∷◌, if◌then◌else◌}
use loreline.Prelude.Int.{ℤ, ◌+ℤ◌, ltb_ℤ, leb_ℤ, max_ℤ, min_ℤ}
use loreline.Export.Spans.{Row, Cue, min_cue}
use loreline.Export.Cues.{concat_map, cues_for}

-- Whether a cue may stand before another: `(c.start, c.end)` compared.
abbrev pub is_before : Cue → Cue → Bool
is_before c d = ltb_ℤ c.start d.start || (leb_ℤ c.start d.start && leb_ℤ c.end d.end)

-- `sorted`, which leaves equal cues in their order.
unfoldable pub insert_cue : Cue → List Cue → List Cue
insert_cue c [] = c ∷ []
insert_cue c (d ∷ cues) = if is_before c d then c ∷ d ∷ cues else d ∷ insert_cue c cues

unfoldable pub sort_cues : List Cue → List Cue
unfolding insert_cue
sort_cues [] = []
sort_cues (c ∷ cues) = insert_cue c (sort_cues cues)

abbrev pub start_after : Option ℤ → Cue → ℤ
start_after none c = c.start
start_after (some end) c = max_ℤ c.start end

abbrev pub end_before : Cue → List Cue → ℤ
end_before c [] = c.end
end_before c (next ∷ cues) = min_ℤ c.end next.start

abbrev pub laid : Option ℤ → Cue → List Cue → Cue
laid last c cues =
    let start = start_after last c in
    record { start = start; end = max_ℤ (end_before c cues) (start +ℤ min_cue); text = c.text }

-- The loop of `_lay_out`: `last` is the end of the cue before.
unfoldable pub lay_from : Option ℤ → List Cue → List Cue
lay_from last [] = []
lay_from last (c ∷ cues) = let placed = laid last c cues in placed ∷ lay_from (some placed.end) cues

unfoldable pub lay_out : List Cue → List Cue
unfolding sort_cues lay_from
lay_out cues = lay_from none (sort_cues cues)

unfoldable pub subtitle_cues : List Row → List Cue
unfolding lay_out cues_for
subtitle_cues events = lay_out (concat_map cues_for events)
