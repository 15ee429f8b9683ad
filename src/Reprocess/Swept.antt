-- ===== src/Reprocess/Swept.antt =====
-- src/loreline/reprocess/jobs.py: after the startup sweep, `reconcile`, no job is under way.
use loreline.Prelude.{
  String, str_eq, Bool, true, false, ◌&&◌, Option, none, some, [], ◌∷◌, map, if_ind, select, any,
  ◌≡◌, ◌≢◌, refl, sym, ◌∙◌, inl, inr, ◌⊎◌, arith,
}
use mathlib.Core.Bool.{false≢true}
use loreline.Prelude.Int.{ℤ}
use loreline.Reprocess.Job.{
  ReprocessJob, job_not_found, job_not_cancellable, version_busy, version_not_found,
  original_version as original_is_kept,
}
use loreline.Reprocess.Table.{Jobs, get, mark_interrupted, interrupted, is_live, jobs_of}
use loreline.Reprocess.Manager.{
  Store, refused, ok, ◌>>◌, require, is_writing, delete_version, cancel, is_cancelled,
}
use loreline.Reprocess.Deleted.{any-newest_first}

interrupted-settled : (row : ReprocessJob) → is_live (interrupted row).status ≡ false
interrupted-settled row =
    if_ind (λ (r : ReprocessJob). is_live r.status ≡ false) (is_live row.status) (λ _. refl)
      (λ h. h)

any-swept :
    (p : ReprocessJob → Bool) (version : String) (jobs : Jobs)
    → any (is_writing version) (select p (map interrupted jobs)) ≡ false
any-swept p version [] = refl
any-swept p version (row ∷ jobs) = ground (arith, interrupted-settled row, any-swept p version jobs)

not_busy :
    (b c : Bool) (store : Store)
    → (require b original_is_kept
        >> (require c version_not_found >> (require true version_busy >> ok store)))
      ≢ refused version_busy
not_busy true true store e = cc
not_busy true false store e = cc
not_busy false c store e = cc

not_cancellable :
    (job : ReprocessJob) (now : ℤ)
    → is_live job.status ≡ false
    → cancel (some job) now none ≡ refused job_not_cancellable
unfolding cancel
not_cancellable job now h = rw h (
    if_ind (λ r. r ≡ refused job_not_cancellable) (is_cancelled job.status && false)
      (λ c. absurd (false≢true (sym (and_false (is_cancelled job.status)) ∙ c))) (λ _. refl))
  where
    and_false : (b : Bool) → (b && false) ≡ false
    and_false b = ground arith

-- Nobody's cancel is taken up.
abbrev pub IsTurnedDown : ℤ → Option ReprocessJob → Type 0
IsTurnedDown now row =
    (cancel row now none ≡ refused job_not_found)
    ⊎ (cancel row now none ≡ refused job_not_cancellable)

swept-IsTurnedDown :
    (jobs : Jobs) (id : String) (now : ℤ) → IsTurnedDown now (get (map interrupted jobs) id)
unfolding get cancel
swept-IsTurnedDown [] id now = inl refl
swept-IsTurnedDown (row ∷ jobs) id now =
    if_ind (IsTurnedDown now) (str_eq (interrupted row).id id)
      (λ _. inr (not_cancellable (interrupted row) now (interrupted-settled row)))
      (λ _. swept-IsTurnedDown jobs id now)

-- After the sweep of a process that runs no job yet, no job is under way: no version is refused deletion
-- because it is being written, and every cancel is turned down, as unknown or as finished.
pub sweep_ends_every_job :
    (store : Store) (session version id : String) (now : ℤ)
    → (delete_version (record store { jobs = mark_interrupted store.jobs }) session version
        ≢ refused version_busy)
      × IsTurnedDown now (get (mark_interrupted store.jobs) id)
unfolding mark_interrupted delete_version jobs_of
sweep_ends_every_job store session version id now =
    let jobs = map interrupted store.jobs in
    let idle : any (is_writing version) (jobs_of jobs session) ≡ false =
      any-newest_first (is_writing version) (select (λ row. str_eq row.session_id session) jobs)
      ∙ any-swept (λ row. str_eq row.session_id session) version store.jobs in
    (rw idle (not_busy _ _ _), swept-IsTurnedDown store.jobs id now)
