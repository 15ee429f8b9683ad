-- ===== src/Reprocess/Shown.antt =====
-- src/loreline/reprocess/jobs.py: what a table shows of the version that a diarize job copies.
use loreline.Prelude.{
  ℕ, zero, suc, String, str_eq, str_eq_refl, eq_iff, concat, Bool, true, false, not, ◌&&◌, Option,
  none, some, List, [], ◌∷◌, map, select, ◌≡◌, refl, sym, ap, ap₂, subst, ◌∙◌, arith,
}
use loreline.Transcript.{TranscriptEvent, gap_source}
use loreline.Diarize.Merge.{SpeakerSegment, assign_speakers}
use loreline.Export.Versions.{
  is_tagged, variant_rows, variant_view, or_rows, final_rows, diarize_prefix,
}
use loreline.Persistence.Segments.{Segments, add, in_session, is_of, for_session, ordered}
use loreline.Persistence.Order.{IsOrdered, select-select, select-for_session}
use loreline.Persistence.Sorted.{
  All, for_session-IsOrdered, for_session-All, map-IsOrdered, ordered_in_order,
}
use loreline.Reprocess.Work.{Cut, Work, copy_source, write_copies, relabelled}
use loreline.Reprocess.Foreign.{is_raw, variant_rows-select, hidden-add, copy-HidesLike, HidesLike}

-- A row's copy for a version.
abbrev copy_of : String → List SpeakerSegment → TranscriptEvent → TranscriptEvent
copy_of version found e = record (assign_speakers e found) {
  source = concat diarize_prefix version;
}

copy_of-start_ts :
    (version : String) (found : List SpeakerSegment) (e : TranscriptEvent)
    → (copy_of version found e).start_ts ≡ e.start_ts
unfolding assign_speakers
copy_of-start_ts version [] e = refl
copy_of-start_ts version (first ∷ rest) e = refl

copy_of-session_id :
    (version : String) (found : List SpeakerSegment) (e : TranscriptEvent)
    → (copy_of version found e).session_id ≡ e.session_id
unfolding assign_speakers
copy_of-session_id version [] e = refl
copy_of-session_id version (first ∷ rest) e = refl

abbrev is_text : TranscriptEvent → Bool
is_text e = e.is_final && not (str_eq e.source gap_source)

final_rows-select :
    (events : Segments) (version : String)
    → final_rows (variant_rows events version) ≡ select (λ e. is_raw version e && is_text e) events
unfolding final_rows
final_rows-select events version =
    ap (select is_text) (variant_rows-select events version)
    ∙ select-select is_text (is_raw version) events

pub relabelled-IsOrdered :
    (work : Work) (found : List SpeakerSegment) → IsOrdered (relabelled work found)
unfolding relabelled
relabelled-IsOrdered work found =
    map-IsOrdered (copy_of work.job.target found) (copy_of-start_ts work.job.target found) _ (
      subst IsOrdered
        (sym (final_rows-select (for_session work.segments work.job.session_id) work.job.target))
        (for_session-IsOrdered (λ e. is_raw work.job.target e && is_text e) work.segments
          work.job.session_id))

copies-All :
    (session version : String) (found : List SpeakerSegment) (events : Segments)
    → All (in_session session) events
    → All (is_of session (concat diarize_prefix version)) (map (copy_of version found) events)
copies-All session version found [] v = tt
copies-All session version found (e ∷ events) v = (
  rw (copy_of-session_id version found e, v.0, str_eq_refl (concat diarize_prefix version)) refl,
  copies-All session version found events v.1,
)

pub relabelled-All :
    (work : Work) (found : List SpeakerSegment)
    → All (is_of work.job.session_id (copy_source work.job)) (relabelled work found)
unfolding relabelled
relabelled-All work found = copies-All work.job.session_id work.job.target found _ (
    subst (All (in_session work.job.session_id))
      (sym (final_rows-select (for_session work.segments work.job.session_id) work.job.target))
      (for_session-All (λ e. is_raw work.job.target e && is_text e) work.segments
        work.job.session_id))

-- The rows of a session that are a version's own.
abbrev pub raw_of : String → String → TranscriptEvent → Bool
raw_of session version e = in_session session e && is_raw version e

copy-hidden :
    (session version : String) (e : TranscriptEvent)
    → is_of session (concat diarize_prefix version) e ≡ true
    → HidesLike (is_raw version) e.source
copy-hidden session version e h row own =
    let source : e.source ≡ concat diarize_prefix version =
      (eq_iff e.source (concat diarize_prefix version)).0 (ground (arith, h)) in
    copy-HidesLike version row (own ∙ source)

pub write_copies-raw :
    (session version : String) (cut : Option Cut) (count : ℕ) (rows events : Segments)
    → All (is_of session (concat diarize_prefix version)) events
    → select (raw_of session version) (write_copies cut count rows events).0
      ≡ select (raw_of session version) rows
unfolding write_copies
write_copies-raw session version cut count rows [] v = refl
write_copies-raw session version (some (zero, false, why)) count rows (e ∷ events) v = refl
write_copies-raw session version (some (zero, true, why)) count rows (e ∷ events) v =
    hidden-add (is_raw version) session rows e (copy-hidden session version e v.0)
write_copies-raw session version (some (suc n, stored, why)) count rows (e ∷ events) v =
    write_copies-raw session version (some (n, stored, why)) (suc count) (add rows e) events v.1
    ∙ hidden-add (is_raw version) session rows e (copy-hidden session version e v.0)
write_copies-raw session version none count rows (e ∷ events) v =
    write_copies-raw session version none (suc count) (add rows e) events v.1
    ∙ hidden-add (is_raw version) session rows e (copy-hidden session version e v.0)

-- What a table shows of a session's version, by what it has of the copy and of the version's own rows.
pub view_of_parts :
    (session version : String) (rows before copies : Segments)
    → select (is_of session (concat diarize_prefix version)) rows ≡ copies
    → IsOrdered copies
    → select (raw_of session version) rows ≡ select (raw_of session version) before
    → variant_view (for_session rows session) version
      ≡ or_rows copies (variant_rows (for_session before session) version)
unfolding variant_view
view_of_parts session version rows before copies h v k =
    ap₂ or_rows
      (select-for_session (is_tagged diarize_prefix version) rows session
        ∙ ap (ordered []) h
        ∙ ordered_in_order [] copies v)
      (variant_rows-select (for_session rows session) version
        ∙ select-for_session (is_raw version) rows session
        ∙ ap (ordered []) k
        ∙ sym (select-for_session (is_raw version) before session)
        ∙ sym (variant_rows-select (for_session before session) version))
