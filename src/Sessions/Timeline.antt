-- ===== src/Sessions/Timeline.antt =====
-- src/loreline/web/routes/sessions.py: the rows of a merged session, on the clock of the whole.
use loreline.Prelude.{
  String, true, Option, List, [], ◌∷◌, ◌++◌, map, if_ind, ◌≡◌, refl, ap, ap₂, ◌∙◌, arith,
}
use loreline.Prelude.Int.{
  ℤ, pos, pos_part, neg_part, ◌+ℤ◌, ◌-ℤ◌, ◌≤ℤ◌, +ℤ_parts, -ℤ_parts, eq_of_parts,
}
use loreline.Transcript.{TranscriptEvent}
use loreline.Persistence.Segments.{Segments}
use loreline.Persistence.Order.{AllFrom, IsOrdered}
use loreline.Reprocess.Table.{Jobs}
use loreline.Reprocess.Work.{rebase_transcript, is_zero}
use loreline.Sessions.Merge.{Session, BestRows, merged_row, parts_of}
use loreline.Sessions.Best.{best-IsOrdered}

-- Every row of a part begins within its span.
abbrev pub Within : ℤ → Segments → Type 0
Within span [] = Unit
Within span (e ∷ rows) = (pos 0 ≤ℤ e.start_ts) × (e.start_ts ≤ℤ span) × Within span rows

abbrev pub AllWithin : List (BestRows × ℤ) → Type 0
AllWithin [] = Unit
AllWithin ((part, span) ∷ parts) = (pos 0 ≤ℤ span) × Within span part.rows × AllWithin parts

-- The texts of the parts, each with when it begins: a part begins where the spans before it end.
abbrev pub laid : ℤ → List (BestRows × ℤ) → List (String × ℤ)
laid offset [] = []
laid offset ((part, span) ∷ parts) =
    map (λ e. (e.text, e.start_ts +ℤ offset)) part.rows ++ laid (offset +ℤ span) parts

-- The rows that a merge writes.
abbrev pub merged_rows : String → ℤ → List (BestRows × ℤ) → Segments
merged_rows id offset [] = []
merged_rows id offset ((part, span) ∷ parts) =
    map (merged_row id offset part.provider_id) part.rows ++ merged_rows id (offset +ℤ span) parts

abbrev AllOrdered : List (BestRows × ℤ) → Type 0
AllOrdered [] = Unit
AllOrdered ((part, span) ∷ parts) = IsOrdered part.rows × AllOrdered parts

is_zero-parts : (d : ℤ) → is_zero d ≡ true → d ≡ pos 0
is_zero-parts d h = ground (arith, h)

shift_lem : (start offset : ℤ) → start -ℤ (pos 0 -ℤ offset) ≡ start +ℤ offset
shift_lem start offset = eq_of_parts _ _ (
    omega (arith, -ℤ_parts start (pos 0 -ℤ offset), -ℤ_parts (pos 0) offset, +ℤ_parts start offset))

stay_lem : (start offset : ℤ) → pos 0 -ℤ offset ≡ pos 0 → start ≡ start +ℤ offset
stay_lem start offset h =
    eq_of_parts _ _
      (omega (arith, ap pos_part h, ap neg_part h, -ℤ_parts (pos 0) offset, +ℤ_parts start offset))

merged_row-start :
    (id : String) (offset : ℤ) (provider : String) (e : TranscriptEvent)
    → (merged_row id offset provider e).start_ts ≡ e.start_ts +ℤ offset
unfolding merged_row rebase_transcript
merged_row-start id offset provider e =
    if_ind (λ (x : TranscriptEvent). x.start_ts ≡ e.start_ts +ℤ offset) (is_zero (pos 0 -ℤ offset))
      (λ h. stay_lem e.start_ts offset (is_zero-parts (pos 0 -ℤ offset) h))
      (λ _. shift_lem e.start_ts offset)

pub merged_row-text :
    (id : String) (offset : ℤ) (provider : String) (e : TranscriptEvent)
    → (merged_row id offset provider e).text ≡ e.text
unfolding merged_row rebase_transcript
merged_row-text id offset provider e =
    if_ind (λ (x : TranscriptEvent). x.text ≡ e.text) (is_zero (pos 0 -ℤ offset)) (λ _. refl)
      (λ _. refl)

abbrev pub shown : TranscriptEvent → String × ℤ
shown e = (e.text, e.start_ts)

map-append : (xs ys : Segments) → map shown (xs ++ ys) ≡ map shown xs ++ map shown ys
map-append [] ys = refl
map-append (x ∷ xs) ys = ap (◌∷◌ (shown x)) (map-append xs ys)

part-laid :
    (id : String) (offset : ℤ) (provider : String) (rows : Segments)
    → map shown (map (merged_row id offset provider) rows)
      ≡ map (λ e. (e.text, e.start_ts +ℤ offset)) rows
part-laid id offset provider [] = refl
part-laid id offset provider (e ∷ rows) =
    ap₂ (◌∷◌)
      (ap₂ (λ t s. (t, s)) (merged_row-text id offset provider e)
        (merged_row-start id offset provider e))
      (part-laid id offset provider rows)

pub merged_rows-laid :
    (id : String) (offset : ℤ) (parts : List (BestRows × ℤ))
    → map shown (merged_rows id offset parts) ≡ laid offset parts
merged_rows-laid id offset [] = refl
merged_rows-laid id offset ((part, span) ∷ parts) =
    map-append (map (merged_row id offset part.provider_id) part.rows)
      (merged_rows id (offset +ℤ span) parts)
    ∙ ap₂ (◌++◌) (part-laid id offset part.provider_id part.rows)
        (merged_rows-laid id (offset +ℤ span) parts)

-- Every row begins no earlier than an instant.
abbrev Since : ℤ → Segments → Type 0
Since at [] = Unit
Since at (e ∷ rows) = (at ≤ℤ e.start_ts) × Since at rows

Since-AllFrom :
    (e : TranscriptEvent) (at : ℤ) (rows : Segments)
    → e.start_ts ≤ℤ at
    → Since at rows
    → AllFrom e rows
Since-AllFrom e at [] h v = tt
Since-AllFrom e at (row ∷ rows) h v = (omega (arith, h, v.0), Since-AllFrom e at rows h v.1)

Since-mono : (at later : ℤ) (rows : Segments) → at ≤ℤ later → Since later rows → Since at rows
Since-mono at later [] h v = tt
Since-mono at later (row ∷ rows) h v = (omega (arith, h, v.0), Since-mono at later rows h v.1)

AllFrom-append :
    (e : TranscriptEvent) (xs ys : Segments) → AllFrom e xs → AllFrom e ys → AllFrom e (xs ++ ys)
AllFrom-append e [] ys v w = w
AllFrom-append e (x ∷ xs) ys v w = (v.0, AllFrom-append e xs ys v.1 w)

span_lem : (offset span : ℤ) → pos 0 ≤ℤ span → offset ≤ℤ offset +ℤ span
span_lem offset span h = omega (arith, +ℤ_parts offset span, h)

module _ (id : String) (offset : ℤ) (provider : String) where
  abbrev row : TranscriptEvent → TranscriptEvent
  row = merged_row id offset provider

  row-AllFrom :
      (e : TranscriptEvent) (rows : Segments) → AllFrom e rows → AllFrom (row e) (map row rows)
  row-AllFrom e [] v = tt
  row-AllFrom e (d ∷ rows) v = (
    rw (merged_row-start id offset provider e, merged_row-start id offset provider d)
        (omega (arith, +ℤ_parts e.start_ts offset, +ℤ_parts d.start_ts offset, v.0)),
    row-AllFrom e rows v.1,
  )

  part-IsOrdered :
      (span : ℤ) (rows after : Segments)
      → IsOrdered rows
      → Within span rows
      → Since (offset +ℤ span) after
      → IsOrdered after
      → IsOrdered (map row rows ++ after)
  part-IsOrdered span [] after v w s o = o
  part-IsOrdered span (e ∷ rows) after v w s o = (
    AllFrom-append (row e) (map row rows) after (row-AllFrom e rows v.0) (
        Since-AllFrom (row e) (offset +ℤ span) after
          (rw (merged_row-start id offset provider e)
            (omega (arith, +ℤ_parts e.start_ts offset, +ℤ_parts offset span, w.1)))
          s),
    part-IsOrdered span rows after v.1 w.2 s o,
  )

  part-Since :
      (span : ℤ) (rows after : Segments)
      → Within span rows
      → Since offset after
      → Since offset (map row rows ++ after)
  part-Since span [] after w s = s
  part-Since span (e ∷ rows) after w s = (
    rw (merged_row-start id offset provider e) (omega (arith, +ℤ_parts e.start_ts offset, w.0)),
    part-Since span rows after w.2 s,
  )

merged_rows-Since :
    (id : String) (offset : ℤ) (parts : List (BestRows × ℤ))
    → AllWithin parts
    → Since offset (merged_rows id offset parts)
merged_rows-Since id offset [] w = tt
merged_rows-Since id offset ((part, span) ∷ parts) w =
    part-Since id offset part.provider_id span part.rows (merged_rows id (offset +ℤ span) parts) w.1
      (Since-mono offset (offset +ℤ span) (merged_rows id (offset +ℤ span) parts)
        (span_lem offset span w.0) (merged_rows-Since id (offset +ℤ span) parts w.2))

merged_rows-IsOrdered :
    (id : String) (offset : ℤ) (parts : List (BestRows × ℤ))
    → AllOrdered parts
    → AllWithin parts
    → IsOrdered (merged_rows id offset parts)
merged_rows-IsOrdered id offset [] v w = tt
merged_rows-IsOrdered id offset ((part, span) ∷ parts) v w =
    part-IsOrdered id offset part.provider_id span part.rows (merged_rows id (offset +ℤ span) parts)
      v.0 w.1 (merged_rows-Since id (offset +ℤ span) parts w.2)
      (merged_rows-IsOrdered id (offset +ℤ span) parts v.1 w.2)

parts_of-ordered :
    (rows : Segments) (jobs : Jobs) (durations : Option (String → ℤ)) (sources : List Session)
    → AllOrdered (parts_of rows jobs durations sources)
parts_of-ordered rows jobs durations [] = tt
parts_of-ordered rows jobs durations (s ∷ sources) =
    (best-IsOrdered rows jobs s, parts_of-ordered rows jobs durations sources)

-- What is laid after one another is in order.
pub laid-IsOrdered :
    (id : String) (rows : Segments) (jobs : Jobs) (durations : Option (String → ℤ))
    (sources : List Session)
    → AllWithin (parts_of rows jobs durations sources)
    → IsOrdered (merged_rows id (pos 0) (parts_of rows jobs durations sources))
laid-IsOrdered id rows jobs durations sources w =
    merged_rows-IsOrdered id (pos 0) (parts_of rows jobs durations sources)
      (parts_of-ordered rows jobs durations sources) w
