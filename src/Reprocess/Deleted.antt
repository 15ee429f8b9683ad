-- ===== src/Reprocess/Deleted.antt =====
-- src/loreline/reprocess/jobs.py: `delete_version`, what is gone after it and what stays, and the sweep
-- of the jobs that a restart interrupted.
use loreline.Prelude.{
  String, str_eq, eq_iff, str_eq_of_ne, concat, Bool, true, false, not, ◌&&◌, ◌||◌, [], ◌∷◌, select,
  any, is_nil, ◌≡◌, ◌≢◌, refl, sym, ap, ◌∙◌, inl, inr, arith,
}
use loreline.Export.Versions.{
  original_version, reprocess_prefix, diarize_prefix, is_tagged, variant_rows, variant_view,
  has_version,
}
use loreline.Export.Views.{apart, has_version-view}
use loreline.Persistence.Segments.{Segments, for_session, ordered, delete_source}
use loreline.Persistence.Order.{select-for_session}
use loreline.Reprocess.Job.{
  ReprocessJob, JobError, version_busy, version_not_found, original_version as original_is_kept,
}
use loreline.Reprocess.Table.{
  Jobs, jobs_of, place_job, newest_first, belongs_to, delete_version as delete_jobs, is_live,
}
use loreline.Reprocess.Foreign.{hidden-delete_source, seen-delete_source, view-seen, HidesLike}
use loreline.Reprocess.Copies.{select-delete_source}
use loreline.Reprocess.Manager.{Store, Result, ok, ◌>>◌, require, owns, is_writing, delete_version}

-- A check that was passed.
pub require-ok :
    {A : Type 0} (b : Bool) (why : JobError) (rest : Result A) (a : A)
    → (require b why >> rest) ≡ ok a
    → (b ≡ true) × (rest ≡ ok a)
require-ok true why rest a h = (refl, h)
require-ok false why rest a h = cc

pub ok-inj : {A : Type 0} (a b : A) → Path (Result A) (ok a) (ok b) → a ≡ b
ok-inj a b h = cc

abbrev without : Segments → String → String → Segments
without rows session version =
    delete_source (delete_source rows session (concat reprocess_prefix version)) session
      (concat diarize_prefix version)

-- What an accepted deletion was checked for, and what it leaves.
delete_version-ok :
    (store after : Store) (session version : String)
    → delete_version store session version ≡ ok after
    → (str_eq version original_version ≡ false)
      × (any (is_writing version) (jobs_of store.jobs session) ≡ false)
      × (after.segments ≡ without store.segments session version)
      × (after.jobs ≡ delete_jobs store.jobs session version)
unfolding delete_version
delete_version-ok store after session version h =
    let jobs = jobs_of store.jobs session in
    let kept = require-ok (not (str_eq version original_version)) original_is_kept _ after h in
    let known = require-ok (any (owns version) jobs) version_not_found _ after kept.1 in
    let idle = require-ok (not (any (is_writing version) jobs)) version_busy _ after known.1 in
    let left = ok-inj _ after idle.1 in
    (
      ground (arith, kept.0),
      ground (arith, idle.0),
      ap (λ (s : Store). s.segments) (sym left),
      ap (λ (s : Store). s.jobs) (sym left),
    )

reprocess-HidesLike :
    (version : String)
    → HidesLike (is_tagged reprocess_prefix version) (concat diarize_prefix version)
reprocess-HidesLike version e own =
    str_eq_of_ne e.source (concat reprocess_prefix version)
      (λ same. apart version version (sym own ∙ same))

variant_view-without :
    (rows : Segments) (session version : String)
    → str_eq version original_version ≡ false
    → variant_view (for_session (without rows session version) session) version ≡ []
unfolding variant_view variant_rows ordered
variant_view-without rows session version h =
    let emptied = delete_source rows session (concat reprocess_prefix version) in
    let copies : select (is_tagged diarize_prefix version)
          (for_session (without rows session version) session)
        ≡ [] =
      select-for_session (is_tagged diarize_prefix version) (without rows session version) session
      ∙ ap (ordered []) (select-delete_source session (concat diarize_prefix version) emptied) in
    let own : select (is_tagged reprocess_prefix version)
          (for_session (without rows session version) session)
        ≡ [] =
      select-for_session (is_tagged reprocess_prefix version) (without rows session version) session
      ∙ ap (ordered []) (
          hidden-delete_source (is_tagged reprocess_prefix version) session session
            (concat diarize_prefix version) emptied (reprocess-HidesLike version)
          ∙ select-delete_source session (concat reprocess_prefix version) rows) in
    rw (h, copies, own) refl

any-place_job :
    (p : ReprocessJob → Bool) (job : ReprocessJob) (jobs : Jobs)
    → any p (place_job job jobs) ≡ (p job || any p jobs)
unfolding place_job
any-place_job p job [] = refl
any-place_job p job (row ∷ jobs) = ground (arith, any-place_job p job jobs)

pub any-newest_first :
    (p : ReprocessJob → Bool) (jobs : Jobs) → any p (newest_first jobs) ≡ any p jobs
unfolding newest_first
any-newest_first p [] = refl
any-newest_first p (row ∷ jobs) =
    any-place_job p row (newest_first jobs) ∙ ap (λ b. p row || b) (any-newest_first p jobs)

-- With no live row among those that go, all the live rows stay.
live_left :
    (p q live : ReprocessJob → Bool) (jobs : Jobs)
    → any (λ row. live row && q row) (select p jobs) ≡ false
    → select live (select (λ row. not (p row && q row)) jobs) ≡ select live jobs
live_left p q live [] h = refl
live_left p q live (row ∷ jobs) h = ground (arith, h, live_left p q live jobs)

-- An accepted deletion of a version of a session: the session shows nothing of the version and does not
-- have it any more; every other version of every session shows what it showed; and no job that is queued
-- or running loses its row.
pub deletion_is_exact :
    (store after : Store) (session version other_session other : String)
    → delete_version store session version ≡ ok after
    → version ≢ other
    → (variant_view (for_session after.segments session) version ≡ [])
      × (has_version (for_session after.segments session) version ≡ false)
      × (variant_view (for_session after.segments other_session) other
          ≡ variant_view (for_session store.segments other_session) other)
      × (select (λ row. is_live row.status) after.jobs
          ≡ select (λ row. is_live row.status) store.jobs)
unfolding jobs_of delete_jobs
deletion_is_exact store after session version other_session other h k =
    let checked = delete_version-ok store after session version h in
    let new : version ≢ original_version =
      λ same. let e = (eq_iff version original_version).1 same in cc in
    let gone : variant_view (for_session after.segments session) version ≡ [] =
      ap (λ rows. variant_view (for_session rows session) version) checked.2
      ∙ variant_view-without store.segments session version checked.0 in
    (
      gone,
      has_version-view (for_session after.segments session) version new
          ∙ ap (λ rows. not (is_nil rows)) gone,
      ap (λ rows. variant_view (for_session rows other_session) other) checked.2
          ∙ view-seen (without store.segments session version) store.segments other_session other (
              seen-delete_source version other other_session session (concat diarize_prefix version)
                (delete_source store.segments session (concat reprocess_prefix version)) k
                (inl refl)
              ∙ seen-delete_source version other other_session session
                  (concat reprocess_prefix version) store.segments k (inr (new, refl))),
      ap (select (λ row. is_live row.status)) checked.3
          ∙ live_left (λ row. str_eq row.session_id session) (belongs_to version)
              (λ row. is_live row.status) store.jobs
              (sym (
                  any-newest_first (is_writing version)
                    (select (λ row. str_eq row.session_id session) store.jobs))
                ∙ checked.1),
    )
