-- ===== src/Reprocess/Stored.antt =====
-- src/loreline/reprocess/jobs.py: what the loop that stores the events of a re-transcription comes to.
use loreline.Prelude.{
  ℕ, zero, suc, ◌+◌, String, str_eq_refl, concat, Bool, true, false, ◌&&◌, Option, none, some, List,
  [], ◌∷◌, ◌++◌, map, if_ind, select, take, ◌≡◌, refl, sym, ap, ◌∙◌, arith,
}
use mathlib.Core.List.{append_assoc, append-nil}
use loreline.Prelude.Int.{ℤ}
use loreline.Transcript.{TranscriptEvent}
use loreline.Export.Versions.{reprocess_prefix}
use loreline.Persistence.Segments.{Segments, same_turn, is_revision, add, in_session, is_of}
use loreline.Persistence.Sorted.{All}
use loreline.Reprocess.Copies.{select-append}
use loreline.Reprocess.Job.{ReprocessJob}
use loreline.Reprocess.Work.{Work, store, store_all, tagged, rebase_transcript, is_zero}

-- An event of the session that is no revision of another.
abbrev pub is_settled_once : String → TranscriptEvent → Bool
is_settled_once session e =
    in_session session e && (elim e.turn_id [ none ↦ true | some t ↦ false ])

no_turn :
    (t u : Option String)
    → (elim u as (λ x. Bool) [ none ↦ true | some t ↦ false ]) ≡ true
    → same_turn t u ≡ false
no_turn none u h = refl
no_turn (some t) none h = refl
no_turn (some t) (some u) h = cc

new_turn :
    (session : String) (row e : TranscriptEvent)
    → is_settled_once session e ≡ true
    → is_revision row e ≡ false
new_turn session row e h = ground (arith, no_turn row.turn_id e.turn_id (ground (arith, h)))

pub add_appends :
    (session : String) (rows : Segments) (e : TranscriptEvent)
    → is_settled_once session e ≡ true
    → add rows e ≡ rows ++ e ∷ []
unfolding add
add_appends session [] e h = refl
add_appends session (row ∷ rows) e h =
    rw (new_turn session row e h) (ap (◌∷◌ row) (add_appends session rows e h))

tagged-settled :
    (session : String) (job : ReprocessJob) (offset : ℤ) (e : TranscriptEvent)
    → is_settled_once session (tagged job offset e) ≡ is_settled_once session e
unfolding tagged rebase_transcript
tagged-settled session job offset e =
    if_ind (λ (x : TranscriptEvent). is_settled_once session x ≡ is_settled_once session e)
      (is_zero offset) (λ _. refl) (λ _. refl)

tagged-is_of :
    (session : String) (job : ReprocessJob) (offset : ℤ) (e : TranscriptEvent)
    → is_settled_once session e ≡ true
    → is_of session (concat reprocess_prefix job.id) (tagged job offset e) ≡ true
unfolding tagged
tagged-is_of session job offset e h =
    let own = tagged-settled session job offset e ∙ h in
    ground (arith, own, str_eq_refl (concat reprocess_prefix job.id))

-- How many events a loop takes that is torn down at `torn`.
abbrev pub reach : Option ℕ → List TranscriptEvent → ℕ
reach torn [] = 0
reach none (e ∷ events) = suc (reach none events)
reach (some zero) (e ∷ events) = 0
reach (some (suc n)) (e ∷ events) = suc (reach (some n) events)

-- What a stored list of events comes to: the version's rows, and the job's count.
module _ (session : String) (offset : ℤ) where
  abbrev pub Stored : Option ℕ → ℕ → Work → List TranscriptEvent → Work × ℕ × Bool → Type 0
  Stored torn count w events out =
      (select (is_of session (concat reprocess_prefix w.job.id)) out.0.segments
        ≡ select (is_of session (concat reprocess_prefix w.job.id)) w.segments
          ++ map (tagged w.job offset) (take (reach torn events) events))
      × (out.1 ≡ count + reach torn events)
      × (out.0.job.segments_added ≡ out.1)

  select-store :
      (count : ℕ) (w : Work) (e : TranscriptEvent)
      → is_settled_once session e ≡ true
      → select (is_of session (concat reprocess_prefix w.job.id)) (store count offset w e).segments
        ≡ select (is_of session (concat reprocess_prefix w.job.id)) w.segments
          ++ tagged w.job offset e ∷ []
  unfolding store
  select-store count w e h =
      let mine = is_of session (concat reprocess_prefix w.job.id) in
      ap (select mine) (
        add_appends session w.segments (tagged w.job offset e)
          (tagged-settled session w.job offset e ∙ h))
      ∙ select-append mine w.segments (tagged w.job offset e ∷ [])
      ∙ rw (tagged-is_of session w.job offset e h) refl

  nothing_stored :
      (count : ℕ) (w : Work) (events : List TranscriptEvent) (cut : Bool)
      → w.job.segments_added ≡ count
      → (select (is_of session (concat reprocess_prefix w.job.id)) w.segments
          ≡ select (is_of session (concat reprocess_prefix w.job.id)) w.segments ++ [])
        × (count ≡ count + 0)
        × (w.job.segments_added ≡ count)
  nothing_stored count w events cut h = (sym (append-nil _), omega arith, h)

  store_more :
      (torn more : Option ℕ) (count : ℕ) (w : Work) (e : TranscriptEvent)
      (events : List TranscriptEvent) (out : Work × ℕ × Bool)
      → is_settled_once session e ≡ true
      → Stored more (suc count) (store count offset w e) events out
      → reach torn (e ∷ events) ≡ suc (reach more events)
      → Stored torn count w (e ∷ events) out
  unfolding store tagged
  store_more torn more count w e events out h v r = (
    v.0
        ∙ ap (λ l. l ++ map (tagged w.job offset) (take (reach more events) events))
            (select-store count w e h)
        ∙ append_assoc _ (tagged w.job offset e ∷ [])
            (map (tagged w.job offset) (take (reach more events) events))
        ∙ ap
            (λ n.
              select (is_of session (concat reprocess_prefix w.job.id)) w.segments
              ++ map (tagged w.job offset) (take n (e ∷ events)))
            (sym r),
    omega (arith, v.1, r),
    v.2,
  )

  pub store_all-Stored :
      (torn : Option ℕ) (count : ℕ) (w : Work) (events : List TranscriptEvent)
      → All (is_settled_once session) events
      → w.job.segments_added ≡ count
      → Stored torn count w events (store_all torn count offset w events)
  unfolding store_all store
  store_all-Stored torn count w [] v h = nothing_stored count w [] false h
  store_all-Stored (some zero) count w (e ∷ events) v h = nothing_stored count w events true h
  store_all-Stored (some (suc n)) count w (e ∷ events) v h =
      store_more (some (suc n)) (some n) count w e events
        (store_all (some n) (suc count) offset (store count offset w e) events) v.0
        (store_all-Stored (some n) (suc count) (store count offset w e) events v.1 refl) refl
  store_all-Stored none count w (e ∷ events) v h =
      store_more none none count w e events
        (store_all none (suc count) offset (store count offset w e) events) v.0
        (store_all-Stored none (suc count) (store count offset w e) events v.1 refl) refl
