-- ===== src/Sessions/Merged.antt =====
-- src/loreline/web/routes/sessions.py: no row is lost in a merge, and no source is touched.
use loreline.Prelude.{
  String, str_eq_refl, str_eq_of_ne, Bool, true, false, Option, List, [], ◌∷◌, ◌++◌, map,
  if◌then◌else◌, select, any, length, ltb, ◌≡◌, ◌≢◌, refl, sym, ap, ◌∙◌,
}
use mathlib.Core.List.{append_assoc, append-nil}
use loreline.Prelude.Int.{ℤ, pos, ◌+ℤ◌}
use loreline.Prelude.Dict.{Dict}
use loreline.Transcript.{TranscriptEvent}
use loreline.Persistence.Segments.{Segments, add, in_session, ordered, for_session}
use loreline.Reprocess.Table.{Jobs}
use loreline.Reprocess.Copies.{select-append}
use loreline.Reprocess.Stored.{is_settled_once, add_appends}
use loreline.Persistence.Order.{IsOrdered}
use loreline.Persistence.Sorted.{ordered_in_order}
use loreline.Sessions.Timeline.{
  AllWithin, laid, shown, merged_rows, merged_rows-laid, laid-IsOrdered,
}
use loreline.Sessions.Sources.{OldestFirst, sort_sources-OldestFirst, sort_sources-perm}
use mathlib.Core.List.{Perm}
use loreline.Sessions.Merge.{
  Session, BestRows, sort_sources, keep_found, merged_row, add_rows, merge_parts, parts_of,
  is_current, conflict, made, merge_sessions,
}

merged_row-settled :
    (id : String) (offset : ℤ) (provider : String) (e : TranscriptEvent)
    → is_settled_once id (merged_row id offset provider e) ≡ true
unfolding merged_row
merged_row-settled id offset provider e = rw (str_eq_refl id) refl

module _ (id : String) (offset : ℤ) (provider : String) where
  abbrev row : TranscriptEvent → TranscriptEvent
  row = merged_row id offset provider

  rows-add :
      (rows : Segments) (e : TranscriptEvent)
      → select (in_session id) (add rows (row e)) ≡ select (in_session id) rows ++ row e ∷ []
  unfolding merged_row
  rows-add rows e =
      ap (select (in_session id))
        (add_appends id rows (row e) (merged_row-settled id offset provider e))
      ∙ select-append (in_session id) rows (row e ∷ [])
      ∙ rw (str_eq_refl id) refl

  rows-add_rows :
      (rows events : Segments)
      → select (in_session id) (add_rows rows (map row events))
        ≡ select (in_session id) rows ++ map row events
  unfolding add_rows
  rows-add_rows rows [] = sym (append-nil (select (in_session id) rows))
  rows-add_rows rows (e ∷ events) =
      rows-add_rows (add rows (row e)) events
      ∙ ap (λ l. l ++ map row events) (rows-add rows e)
      ∙ append_assoc (select (in_session id) rows) (row e ∷ []) (map row events)

  other-add_rows :
      (other : String) (rows events : Segments)
      → id ≢ other
      → select (in_session other) (add_rows rows (map row events)) ≡ select (in_session other) rows
  unfolding add_rows merged_row
  other-add_rows other rows [] h = refl
  other-add_rows other rows (e ∷ events) h =
      other-add_rows other (add rows (row e)) events h
      ∙ ap (select (in_session other))
          (add_appends id rows (row e) (merged_row-settled id offset provider e))
      ∙ select-append (in_session other) rows (row e ∷ [])
      ∙ rw (str_eq_of_ne id other h) (append-nil (select (in_session other) rows))

rows-merge_parts :
    (id : String) (offset : ℤ) (rows : Segments) (parts : List (BestRows × ℤ))
    → select (in_session id) (merge_parts id offset rows parts)
      ≡ select (in_session id) rows ++ merged_rows id offset parts
unfolding merge_parts
rows-merge_parts id offset rows [] = sym (append-nil (select (in_session id) rows))
rows-merge_parts id offset rows ((part, span) ∷ parts) =
    rows-merge_parts id (offset +ℤ span)
      (add_rows rows (map (merged_row id offset part.provider_id) part.rows)) parts
    ∙ ap (λ l. l ++ merged_rows id (offset +ℤ span) parts)
        (rows-add_rows id offset part.provider_id rows part.rows)
    ∙ append_assoc (select (in_session id) rows)
        (map (merged_row id offset part.provider_id) part.rows)
        (merged_rows id (offset +ℤ span) parts)

other-merge_parts :
    (id other : String) (offset : ℤ) (rows : Segments) (parts : List (BestRows × ℤ))
    → id ≢ other
    → select (in_session other) (merge_parts id offset rows parts) ≡ select (in_session other) rows
unfolding merge_parts
other-merge_parts id other offset rows [] h = refl
other-merge_parts id other offset rows ((part, span) ∷ parts) h =
    other-merge_parts id other (offset +ℤ span)
      (add_rows rows (map (merged_row id offset part.provider_id) part.rows)) parts h
    ∙ other-add_rows id offset part.provider_id other rows part.rows h

made-from :
    (few busy : Bool) (why because : String) (rows after : Segments) (names names' : Dict String)
    → (if few then conflict why else if busy then conflict because else made rows names)
      ≡ made after names'
    → (rows ≡ after) × (few ≡ false) × (busy ≡ false)
made-from true busy why because rows after names names' h = cc
made-from false true why because rows after names names' h = cc
made-from false false why because rows after names names' h = (cc, refl, refl)

-- What the readers get of a merge whose parts are these rows, laid after one another in order.
merged-shown :
    (id : String) (segments : Segments) (parts : List (BestRows × ℤ))
    → select (in_session id) segments ≡ []
    → IsOrdered (merged_rows id (pos 0) parts)
    → map shown (for_session (merge_parts id (pos 0) segments parts) id) ≡ laid (pos 0) parts
unfolding for_session
merged-shown id segments parts new v =
    ap (λ l. map shown (ordered [] l))
      (rows-merge_parts id (pos 0) segments parts ∙ ap (λ l. l ++ merged_rows id (pos 0) parts) new)
    ∙ ap (map shown) (ordered_in_order [] (merged_rows id (pos 0) parts) v)
    ∙ merged_rows-laid id (pos 0) parts

-- A merge that is made under a new id, of sources whose best rows each begin within their source's span,
-- reads, in the order of its readers, as the texts of the sources' best rows, each once: all of the
-- sources from the oldest to the newest, a source's rows as its best version has them, and each with the
-- instant at which it began in its source, moved by the spans of the sources before it. No source is under
-- capture, and every other session reads as before.
pub merge_loses_nothing :
    (segments after : Segments) (jobs : Jobs) (found : List (Option Session))
    (current : Option String) (merged_id other : String) (durations : Option (String → ℤ))
    (names : Dict String)
    → merge_sessions segments jobs found current merged_id durations ≡ made after names
    → select (in_session merged_id) segments ≡ []
    → merged_id ≢ other
    → AllWithin (parts_of segments jobs durations (sort_sources [] (keep_found found)))
    → (map shown (for_session after merged_id)
        ≡ laid (pos 0) (parts_of segments jobs durations (sort_sources [] (keep_found found))))
      × (for_session after other ≡ for_session segments other)
      × (any (is_current current) (keep_found found) ≡ false)
      × OldestFirst (sort_sources [] (keep_found found))
      × Perm (sort_sources [] (keep_found found)) (keep_found found)
unfolding merge_sessions for_session
merge_loses_nothing segments after jobs found current merged_id other durations names h new apart
      w =
    let sources = sort_sources [] (keep_found found) in
    let parts = parts_of segments jobs durations sources in
    let result =
      made-from (ltb (length (keep_found found)) 2) (any (is_current current) (keep_found found)) _
        _ (merge_parts merged_id (pos 0) segments parts) after _ names h in
    (
      ap (λ rows. map shown (for_session rows merged_id)) (sym result.0)
          ∙ merged-shown merged_id segments parts new
              (laid-IsOrdered merged_id segments jobs durations sources w),
      ap (ordered []) (
          ap (select (in_session other)) (sym result.0)
          ∙ other-merge_parts merged_id other (pos 0) segments parts apart),
      result.2,
      sort_sources-OldestFirst [] (keep_found found) tt,
      sort_sources-perm [] (keep_found found),
    )
