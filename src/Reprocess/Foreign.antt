-- ===== src/Reprocess/Foreign.antt =====
-- src/loreline/reprocess/jobs.py and src/loreline/export.py: rows of one version change no other
-- version's view of a session.
use loreline.Prelude.{
  String, str_eq, eq_iff, concat, Bool, true, false, not, ◌&&◌, ◌||◌, List, [], ◌∷◌, if◌then◌else◌,
  select, Bool-cases, ◌≡◌, ◌≢◌, refl, sym, ap, ap₂, ◌∙◌, subst, inl, inr, ◌⊎◌, arith,
}
use loreline.Transcript.{TranscriptEvent}
use loreline.Export.Versions.{
  original_version, diarize_prefix, reprocess_prefix, is_tagged, is_untagged, variant_rows, or_rows,
  variant_view,
}
use loreline.Export.Views.{Shown, Shown-one, not-diarized, apart}
use loreline.Persistence.Segments.{
  Segments, is_revision, add, in_session, is_of, for_session, ordered, delete_source,
}
use loreline.Persistence.Order.{select-for_session, select-select}

-- Whether a row with this source is among a version's own rows, without the relabelled copy.
abbrev pub is_raw : String → TranscriptEvent → Bool
is_raw version e =
    if str_eq version original_version then is_untagged e else is_tagged reprocess_prefix version e

if_select :
    (b : Bool) (p q : TranscriptEvent → Bool) (events : List TranscriptEvent)
    → (if b then select p events else select q events) ≡ select (λ e. if b then p e else q e) events
if_select true p q events = refl
if_select false p q events = refl

pub variant_rows-select :
    (events : List TranscriptEvent) (version : String)
    → variant_rows events version ≡ select (is_raw version) events
unfolding variant_rows
variant_rows-select events version =
    if_select (str_eq version original_version) is_untagged (is_tagged reprocess_prefix version)
      events

is_raw-cases :
    (version : String) (e : TranscriptEvent)
    → is_raw version e ≡ true
    → ((version ≡ original_version) × (is_untagged e ≡ true))
      ⊎ ((version ≢ original_version) × (e.source ≡ concat reprocess_prefix version))
is_raw-cases version e h =
    let chosen : Bool → Type 0 =
      λ b. (if b then is_untagged e else is_tagged reprocess_prefix version e) ≡ true in
    elim (Bool-cases (str_eq version original_version)) [
      | inl same ↦ inl ((eq_iff version original_version).0 same, subst chosen same h)
      | inr other ↦ inr (
        (λ e. let same = (eq_iff version original_version).1 e in cc),
        (eq_iff e.source (concat reprocess_prefix version)).0 (subst chosen other h),
      )
    ]

raw_not_copy :
    (version : String) (e : TranscriptEvent)
    → e.source ≡ concat diarize_prefix version
    → ¬ (
        ((version ≡ original_version) × (is_untagged e ≡ true))
        ⊎ ((version ≢ original_version) × (e.source ≡ concat reprocess_prefix version)))
raw_not_copy version e own (inl untagged) = not-diarized e version untagged.1 own
raw_not_copy version e own (inr tagged) = apart version version (sym own ∙ tagged.1)

-- A source that is a version's own and no other's.
abbrev pub IsSourceOf : String → String → Type 0
IsSourceOf version source =
    (source ≡ concat diarize_prefix version)
    ⊎ ((version ≢ original_version) × (source ≡ concat reprocess_prefix version))

-- The rows that a version's view may read.
abbrev pub may_show : String → TranscriptEvent → Bool
may_show version e = is_tagged diarize_prefix version e || is_raw version e

may_show-Shown :
    (version : String) (e : TranscriptEvent) → may_show version e ≡ true → Shown version e
may_show-Shown version e h = elim (Bool-cases (is_tagged diarize_prefix version e)) [
  | inl tagged ↦ inl ((eq_iff e.source (concat diarize_prefix version)).0 tagged)
  | inr other ↦ inr (is_raw-cases version e (subst (λ b. (b || is_raw version e) ≡ true) other h))
]

IsSourceOf-Shown :
    (version : String) (e : TranscriptEvent) → IsSourceOf version e.source → Shown version e
IsSourceOf-Shown version e (inl d) = inl d
IsSourceOf-Shown version e (inr r) = inr (inr r)

pub foreign_hidden :
    (v w : String) (e : TranscriptEvent) → v ≢ w → IsSourceOf v e.source → may_show w e ≡ false
foreign_hidden v w e h s = elim (Bool-cases (may_show w e)) [
  | inl shown ↦ absurd (h (Shown-one v w e (IsSourceOf-Shown v e s) (may_show-Shown w e shown)))
  | inr hidden ↦ hidden
]

select_same :
    (p q : TranscriptEvent → Bool) (rows : Segments)
    → ((e : TranscriptEvent) → p e ≡ q e)
    → select p rows ≡ select q rows
select_same p q [] h = refl
select_same p q (row ∷ rows) h = ground (arith, h row, select_same p q rows h)

or_absorbs : (a b : Bool) → ((a || b) && a) ≡ a
or_absorbs a b = ground arith

or_absorbs_last : (a b : Bool) → ((a || b) && b) ≡ b
or_absorbs_last a b = ground arith

-- A view reads only the rows that it may show.
pub view-select :
    (events others : List TranscriptEvent) (w : String)
    → select (may_show w) events ≡ select (may_show w) others
    → variant_view events w ≡ variant_view others w
unfolding variant_view
view-select events others w h =
    ap₂ or_rows
      (only (is_tagged diarize_prefix w)
        (λ e. or_absorbs (is_tagged diarize_prefix w e) (is_raw w e)))
      (variant_rows-select events w
        ∙ only (is_raw w) (λ e. or_absorbs_last (is_tagged diarize_prefix w e) (is_raw w e))
        ∙ sym (variant_rows-select others w))
  where
    only :
        (p : TranscriptEvent → Bool)
        → ((e : TranscriptEvent) → (may_show w e && p e) ≡ p e)
        → select p events ≡ select p others
    only p k =
        sym (select_same (λ e. may_show w e && p e) p events k)
        ∙ sym (select-select p (may_show w) events)
        ∙ ap (select p) h
        ∙ select-select p (may_show w) others
        ∙ select_same (λ e. may_show w e && p e) p others k

-- Of the session, the rows that a version's view may show.
abbrev pub seen : String → String → TranscriptEvent → Bool
seen session w e = in_session session e && may_show w e

pub view-seen :
    (rows others : Segments) (session w : String)
    → select (seen session w) rows ≡ select (seen session w) others
    → variant_view (for_session rows session) w ≡ variant_view (for_session others session) w
view-seen rows others session w h =
    view-select (for_session rows session) (for_session others session) w (
      select-for_session (may_show w) rows session
      ∙ ap (ordered []) h
      ∙ sym (select-for_session (may_show w) others session))

revised-source : (row e : TranscriptEvent) → is_revision row e ≡ true → row.source ≡ e.source
revised-source row e h = (eq_iff row.source e.source).0 (ground (arith, h))

-- A selection of a session by something that no row of a source has.
abbrev pub HidesLike : (TranscriptEvent → Bool) → String → Type 0
HidesLike p source = (e : TranscriptEvent) → e.source ≡ source → p e ≡ false

select_cons :
    (p : TranscriptEvent → Bool) (e : TranscriptEvent) (rows others : Segments)
    → select p rows ≡ select p others
    → select p (e ∷ rows) ≡ select p (e ∷ others)
select_cons p e rows others h = ap (λ r. if p e then e ∷ r else r) h

and_false : (a b : Bool) → b ≡ false → (a && b) ≡ false
and_false a b h = ground (arith, h)

pub hidden-add :
    (p : TranscriptEvent → Bool) (session : String) (rows : Segments) (e : TranscriptEvent)
    → HidesLike p e.source
    → select (λ x. in_session session x && p x) (add rows e)
      ≡ select (λ x. in_session session x && p x) rows
unfolding add
hidden-add p session [] e h = rw (and_false (in_session session e) (p e) (h e refl)) refl
hidden-add p session (row ∷ rows) e h = elim (Bool-cases (is_revision row e)) [
  | inl same ↦
      rw
        (
          same,
          and_false (in_session session e) (p e) (h e refl),
          and_false (in_session session row) (p row) (h row (revised-source row e same)),
        )
        refl
  | inr other ↦ rw other (
      select_cons (λ x. in_session session x && p x) row (add rows e) rows
        (hidden-add p session rows e h))
]

pub hidden-delete_source :
    (p : TranscriptEvent → Bool) (session other source : String) (rows : Segments)
    → HidesLike p source
    → select (λ x. in_session session x && p x) (delete_source rows other source)
      ≡ select (λ x. in_session session x && p x) rows
unfolding delete_source
hidden-delete_source p session other source rows h =
    select-select (λ x. in_session session x && p x) (λ e. not (is_of other source e)) rows
    ∙ select_same (λ e. not (is_of other source e) && (in_session session e && p e))
        (λ x. in_session session x && p x) rows kept
  where
    kept :
        (e : TranscriptEvent)
        → (not (is_of other source e) && (in_session session e && p e))
          ≡ (in_session session e && p e)
    kept e = elim (Bool-cases (is_of other source e)) [
      | inl gone ↦
          let own = (eq_iff e.source source).0 (ground (arith, gone)) in
          rw (gone, and_false (in_session session e) (p e) (h e own)) refl
      | inr left ↦ rw left refl
    ]

foreign-HidesLike :
    (v w source : String) → v ≢ w → IsSourceOf v source → HidesLike (may_show w) source
foreign-HidesLike v w source h s e own = foreign_hidden v w e h (subst (IsSourceOf v) (sym own) s)

pub seen-add :
    (v w session : String) (rows : Segments) (e : TranscriptEvent)
    → v ≢ w
    → IsSourceOf v e.source
    → select (seen session w) (add rows e) ≡ select (seen session w) rows
seen-add v w session rows e h s =
    hidden-add (may_show w) session rows e (foreign-HidesLike v w e.source h s)

pub seen-delete_source :
    (v w session other source : String) (rows : Segments)
    → v ≢ w
    → IsSourceOf v source
    → select (seen session w) (delete_source rows other source) ≡ select (seen session w) rows
seen-delete_source v w session other source rows h s =
    hidden-delete_source (may_show w) session other source rows (foreign-HidesLike v w source h s)

-- A version's relabelled copy is none of its own rows.
pub copy-HidesLike : (version : String) → HidesLike (is_raw version) (concat diarize_prefix version)
copy-HidesLike version e own = elim (Bool-cases (is_raw version e)) [
  | inl raw ↦ absurd (raw_not_copy version e own (is_raw-cases version e raw))
  | inr hidden ↦ hidden
]
