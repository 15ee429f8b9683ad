-- ===== src/Export/Views.antt =====
-- src/loreline/export.py: versions never leak into each other, and a version exists when it has rows.
use loreline.Prelude.{
  String, str_eq, str_eq→eq, str_eq_of_ne, concat, starts_with, Bool, true, false, not, ◌||◌, List,
  [], ◌∷◌, ◌≡◌, ◌≢◌, refl, sym, ap, ◌∙◌, arith, select, any, is_nil, mem-select, Bool-cases, inl,
  inr, ◌⊎◌, if◌then◌else◌, eq_iff, subst,
}
use Prim.Native.Char.{code}
use mathlib.Core.List.{Mem}
use text.Mathlib.TextLemmas.{append_cancel_left, cons-append, head-eq_of_cons-eq}
use text.Mathlib.TextPositions.{starts_with-append}
use loreline.Transcript.{TranscriptEvent}
use loreline.Export.Versions.{
  original_version, diarize_prefix, reprocess_prefix, is_tagged, is_untagged, variant_rows, or_rows,
  variant_view, has_version,
}

-- What a row's source says when a version shows it.
abbrev pub Shown : String → TranscriptEvent → Type 0
Shown version e =
    (e.source ≡ concat diarize_prefix version)
    ⊎ (((version ≡ original_version) × (is_untagged e ≡ true))
        ⊎ ((version ≢ original_version) × (e.source ≡ concat reprocess_prefix version)))

mem-or_rows :
    {e : TranscriptEvent} (diarized raw : List TranscriptEvent)
    → Mem e (or_rows diarized raw)
    → (Mem e diarized ⊎ Mem e raw)
mem-or_rows [] raw m = inr m
mem-or_rows (e ∷ diarized) raw m = inl m

raw-Shown :
    (events : List TranscriptEvent) (version : String) {e : TranscriptEvent}
    → Mem e (variant_rows events version)
    → Shown version e
unfolding variant_rows
raw-Shown events version {e} m = elim (Bool-cases (str_eq version original_version)) [
  | inl original ↦ inr (
      inl (
        str_eq→eq version original_version original,
        mem-select is_untagged events (subst chosen original m),
      ))
  | inr other ↦ inr (
      inr (
        (λ same. let equal = (eq_iff version original_version).1 same in cc),
        str_eq→eq e.source (concat reprocess_prefix version)
            (mem-select (is_tagged reprocess_prefix version) events (subst chosen other m)),
      ))
]
  where
    chosen : Bool → Type 0
    chosen b = Mem e (
        if b then select is_untagged events else select (is_tagged reprocess_prefix version) events)

view-Shown :
    (events : List TranscriptEvent) (version : String) {e : TranscriptEvent}
    → Mem e (variant_view events version)
    → Shown version e
unfolding variant_view
view-Shown events version {e} m =
    elim (mem-or_rows (select (is_tagged diarize_prefix version) events)
      (variant_rows events version) m) [
        | inl diarized ↦ inl (
            str_eq→eq e.source (concat diarize_prefix version)
              (mem-select (is_tagged diarize_prefix version) events diarized))
        | inr raw ↦ raw-Shown events version raw
      ]

pub apart : (v w : String) → concat diarize_prefix v ≢ concat reprocess_prefix w
apart v w e =
    let d = cons-append "d" "iarize:" v in
    let r = cons-append "r" "eprocess:" w in
    let first : 100 ≡ 114 = ap code (head-eq_of_cons-eq (sym d ∙ e ∙ r)) in omega (arith, first)

pub not-diarized :
    (e : TranscriptEvent) (version : String)
    → is_untagged e ≡ true
    → e.source ≢ concat diarize_prefix version
not-diarized e version h same = ground (
  arith,
  h,
  ap (λ s. starts_with s diarize_prefix) same ∙ starts_with-append diarize_prefix version,
)

not-reprocessed :
    (e : TranscriptEvent) (version : String)
    → is_untagged e ≡ true
    → e.source ≢ concat reprocess_prefix version
not-reprocessed e version h same = ground (
  arith,
  h,
  ap (λ s. starts_with s reprocess_prefix) same ∙ starts_with-append reprocess_prefix version,
)

pub Shown-one : (v w : String) (e : TranscriptEvent) → Shown v e → Shown w e → v ≡ w
Shown-one v w e (inl a) (inl b) = append_cancel_left diarize_prefix v w (sym a ∙ b)
Shown-one v w e (inl a) (inr (inl b)) = absurd (not-diarized e v b.1 a)
Shown-one v w e (inl a) (inr (inr b)) = absurd (apart v w (sym a ∙ b.1))
Shown-one v w e (inr (inl a)) (inl b) = absurd (not-diarized e w a.1 b)
Shown-one v w e (inr (inl a)) (inr (inl b)) = a.0 ∙ sym b.0
Shown-one v w e (inr (inl a)) (inr (inr b)) = absurd (not-reprocessed e w a.1 b.1)
Shown-one v w e (inr (inr a)) (inl b) = absurd (apart w v (sym b ∙ a.1))
Shown-one v w e (inr (inr a)) (inr (inl b)) = absurd (not-reprocessed e v b.1 a.1)
Shown-one v w e (inr (inr a)) (inr (inr b)) =
    append_cancel_left reprocess_prefix v w (sym a.1 ∙ b.1)

-- Two versions never show the same row, whatever the sources of a session's rows and the versions' ids.
pub views_share_no_row :
    (events : List TranscriptEvent) (v w : String) (e : TranscriptEvent)
    → v ≢ w
    → Mem e (variant_view events v)
    → ¬ Mem e (variant_view events w)
views_share_no_row events v w e h m n =
    h (Shown-one v w e (view-Shown events v m) (view-Shown events w n))

or_rows-step :
    (b c found : Bool) (e : TranscriptEvent) (raw diarized : List TranscriptEvent)
    → found ≡ not (is_nil (or_rows diarized raw))
    → (b || c || found)
      ≡ not (is_nil (or_rows (if c then e ∷ diarized else diarized) (if b then e ∷ raw else raw)))
or_rows-step true true found e raw diarized h = refl
or_rows-step false true found e raw diarized h = refl
or_rows-step true false found e raw [] h = refl
or_rows-step true false found e raw (x ∷ diarized) h = refl
or_rows-step false false found e raw diarized h = h

or_rows-nil :
    (p q : TranscriptEvent → Bool) (events : List TranscriptEvent)
    → any (λ e. p e || q e) events ≡ not (is_nil (or_rows (select q events) (select p events)))
or_rows-nil p q [] = refl
or_rows-nil p q (e ∷ events) =
    or_rows-step (p e) (q e) (any (λ x. p x || q x) events) e (select p events) (select q events)
      (or_rows-nil p q events)

-- Of a version that is not the original, a session has it exactly when its view has a row.
pub has_version-view :
    (events : List TranscriptEvent) (version : String)
    → version ≢ original_version
    → has_version events version ≡ not (is_nil (variant_view events version))
unfolding has_version variant_view variant_rows
has_version-view events version h =
    rw (str_eq_of_ne version original_version h)
      (or_rows-nil (is_tagged reprocess_prefix version) (is_tagged diarize_prefix version) events)
