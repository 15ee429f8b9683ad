-- ===== src/Reprocess/Accepted.antt =====
-- src/loreline/reprocess/jobs.py: what `enqueue` has made sure of when it accepts a job.
use loreline.Prelude.{
  String, str_eq, str_eq_refl, eq_iff, is_blank, strip_text, Bool, true, false, not, ◌||◌, Option,
  none, some, [], ◌∷◌, if◌then◌else◌, is_nil, Bool-cases, ◌≡◌, refl, sym, ap, subst, ◌∙◌, inl, inr,
  ◌⊎◌,
}
use loreline.Export.Versions.{original_version, variant_rows}
use loreline.Persistence.Segments.{for_session}
use loreline.Reprocess.Job.{
  Operation, transcribe, diarize, DiarizationConfig, ReprocessJob, session_not_found, audio_missing,
  diarizer_endpoint_missing, diarizer_unreachable, target_not_found, present, or_empty,
}
use loreline.Reprocess.Table.{Jobs, create, get, is_diarize}
use loreline.Reprocess.Manager.{
  Store, Answers, ReprocessRequest, Result, refused, ok, ◌>>=◌, ◌>>◌, require, is_remote,
  names_endpoint, resolve_endpoint, refuse_an_unreachable_diarizer, check_subject, check_diarizer,
  new_job, enqueue,
}
use loreline.Reprocess.Deleted.{require-ok, ok-inj}

then-ok :
    {A : Type 0} (check : Result (Unit {0})) (rest : Result A) (a : A)
    → (check >> rest) ≡ ok a
    → (check ≡ ok tt) × (rest ≡ ok a)
then-ok (refused why) rest a h = cc
then-ok (ok u) rest a h = (refl, h)

bind-ok :
    {A B : Type 0} (first : Result A) (rest : A → Result B) (b : B)
    → (first >>= rest) ≡ ok b
    → (a : A) × (first ≡ ok a) × (rest a ≡ ok b)
bind-ok (refused why) rest b h = cc
bind-ok (ok a) rest b h = (a, refl, h)

-- A text of more than spaces is not empty.
names_endpoint-present :
    (endpoint : Option String) → names_endpoint endpoint ≡ true → present endpoint ≡ true
unfolding strip_text
names_endpoint-present none h = cc
names_endpoint-present (some text) h = elim (Bool-cases (is_blank text)) [
  | inl blank ↦
      let empty : text ≡ "" = (eq_iff text "").0 blank in
      let spaces : not (is_blank (strip_text "")) ≡ true =
        subst (λ t. not (is_blank (strip_text t)) ≡ true) empty h in
      cc
  | inr full ↦ rw full refl
]

-- A config that a remote diarizer can be reached with.
abbrev pub HasEndpoint : DiarizationConfig → Type 0
HasEndpoint config = (is_remote config.mode ≡ false) ⊎ (present config.endpoint ≡ true)

chosen :
    (far named stored : Bool) (asked default config : DiarizationConfig)
    → Path
        (Result DiarizationConfig)
        (if not far || named
          then ok asked
          else if stored
          then ok default
          else refused diarizer_endpoint_missing)
        (ok config)
    → ((far ≡ false) × (asked ≡ config))
      ⊎ ((named ≡ true) × (asked ≡ config))
      ⊎ ((stored ≡ true) × (default ≡ config))
chosen false named stored asked default config h = inl (refl, cc)
chosen true true stored asked default config h = inr (inl (refl, cc))
chosen true false true asked default config h = inr (inr (refl, cc))
chosen true false false asked default config h = cc

resolved-HasEndpoint :
    (a : Answers) (asked config : DiarizationConfig)
    → resolve_endpoint a asked ≡ ok config
    → HasEndpoint config
unfolding resolve_endpoint
resolved-HasEndpoint a asked config h =
    elim (chosen (is_remote asked.mode) (names_endpoint asked.endpoint) (present a.default_endpoint)
      asked (record asked { endpoint = a.default_endpoint }) config h) [
        | inl near ↦ inl (ap (λ (c : DiarizationConfig). is_remote c.mode) (sym near.1) ∙ near.0)
        | inr (inl named) ↦ inr (
            ap (λ (c : DiarizationConfig). present c.endpoint) (sym named.1)
            ∙ names_endpoint-present asked.endpoint named.0)
        | inr (inr stored) ↦
            inr (ap (λ (c : DiarizationConfig). present c.endpoint) (sym stored.1) ∙ stored.0)
      ]

get-create :
    (jobs : Jobs) (job : ReprocessJob)
    → get jobs job.id ≡ none
    → get (create jobs job) job.id ≡ some job
unfolding get create
get-create [] job h = rw (str_eq_refl job.id) refl
get-create (row ∷ jobs) job h = elim (Bool-cases (str_eq row.id job.id)) [
  | inl same ↦
      absurd (some≢none row (subst (λ b. (if b then some row else get jobs job.id) ≡ none) same h))
  | inr other ↦
      rw other (
        get-create jobs job (subst (λ b. (if b then some row else get jobs job.id) ≡ none) other h))
]
  where
    some≢none : (j : ReprocessJob) → Path (Option ReprocessJob) (some j) none → ⊥
    some≢none j e = cc

-- The diarizer of an accepted diarize job was not found unreachable.
abbrev pub IsReachable : Answers → ReprocessJob → Type 0
IsReachable a job =
    (is_diarize job.operation ≡ false)
    ⊎ (is_remote job.diarization.mode ≡ false)
    ⊎ (a.is_unreachable (or_empty job.diarization.endpoint) ≡ false)

-- The version that an accepted diarize job relabels is there.
abbrev pub HasTarget : Store → ReprocessJob → Type 0
HasTarget store job =
    (is_diarize job.operation ≡ false)
    ⊎ (job.target ≡ original_version)
    ⊎ (is_nil (variant_rows (for_session store.segments job.session_id) job.target) ≡ false)

probed :
    (far named down : Bool)
    → Path
        (Result (Unit {0}))
        (if not far || not named then ok tt else require (not down) diarizer_unreachable)
        (ok tt)
    → (far ≡ false) ⊎ (named ≡ false) ⊎ (down ≡ false)
probed false named down h = inl refl
probed true false down h = inr (inl refl)
probed true true false h = inr (inr refl)
probed true true true h = cc

checked-IsReachable :
    (o : Operation) (a : Answers) (config : DiarizationConfig)
    → HasEndpoint config
    → check_diarizer o a config ≡ ok tt
    → (is_diarize o ≡ false)
      ⊎ (is_remote config.mode ≡ false)
      ⊎ (a.is_unreachable (or_empty config.endpoint) ≡ false)
unfolding refuse_an_unreachable_diarizer
checked-IsReachable transcribe a config e h = inl refl
checked-IsReachable diarize a config (inl near) h = inr (inl near)
checked-IsReachable diarize a config (inr named) h =
    elim (probed (is_remote config.mode) (present config.endpoint)
      (a.is_unreachable (or_empty config.endpoint)) h) [
        | inl near ↦ inr (inl near)
        | inr (inl unnamed) ↦ cc
        | inr (inr up) ↦ inr (inr up)
      ]

targeted :
    (own missing : Bool)
    → Path
        (Result (Unit {0}))
        (if own then ok tt else require (not missing) target_not_found)
        (ok tt)
    → (own ≡ true) ⊎ (missing ≡ false)
targeted true missing h = inl refl
targeted false false h = inr refl
targeted false true h = cc

checked-HasTarget :
    (o : Operation) (a : Answers) (store : Store) (req : ReprocessRequest)
    (config : DiarizationConfig)
    → req.operation ≡ o
    → check_subject o a store req ≡ ok tt
    → HasTarget store (new_job a req config)
unfolding new_job
checked-HasTarget transcribe a store req config e h = inl (ap is_diarize e)
checked-HasTarget diarize a store req config e h =
    elim (targeted (str_eq req.target original_version)
      (is_nil (variant_rows (for_session store.segments req.session_id) req.target)) h) [
        | inl own ↦ inr (inl (rw e ((eq_iff req.target original_version).0 own)))
        | inr there ↦ inr (inr (rw e there))
      ]

-- A job that `enqueue` accepts under a new id is queued in the table, with the transcripts untouched; the
-- session's audio exists; a remote diarizer of it has an endpoint; and for a diarize job that endpoint
-- was not unreachable, and the target is the original or a version with rows.
pub accepted_job_can_start :
    (a : Answers) (store after : Store) (req : ReprocessRequest) (job : ReprocessJob)
    → enqueue a store req ≡ ok (after, job)
    → get store.jobs a.new_id ≡ none
    → (get after.jobs job.id ≡ some job)
      × (after.segments ≡ store.segments)
      × (a.audio_exists ≡ true)
      × HasEndpoint job.diarization
      × IsReachable a job
      × HasTarget store job
unfolding enqueue new_job
accepted_job_can_start a store after req job h new =
    let session = require-ok a.session_exists session_not_found _ (after, job) h in
    let audio = require-ok a.audio_exists audio_missing _ (after, job) session.1 in
    let subject = then-ok (check_subject req.operation a store req) _ (after, job) audio.1 in
    let bound = bind-ok (resolve_endpoint a req.diarization) _ (after, job) subject.1 in
    let config = bound.0 in
    let endpoint = resolved-HasEndpoint a req.diarization config bound.1 in
    let diarizer = then-ok (check_diarizer req.operation a config) _ (after, job) bound.2 in
    let made = ok-inj _ (after, job) diarizer.1 in
    let facts : (get (create store.jobs (new_job a req config)) a.new_id
          ≡ some (new_job a req config))
        × (store.segments ≡ store.segments)
        × (a.audio_exists ≡ true)
        × HasEndpoint config
        × IsReachable a (new_job a req config)
        × HasTarget store (new_job a req config) =
      (
        get-create store.jobs (new_job a req config) new,
        refl,
        audio.0,
        endpoint,
        checked-IsReachable req.operation a config endpoint diarizer.0,
        checked-HasTarget req.operation a store req config refl subject.0,
      ) in
    subst
      (λ (made : Store × ReprocessJob).
        (get made.0.jobs made.1.id ≡ some made.1)
        × (made.0.segments ≡ store.segments)
        × (a.audio_exists ≡ true)
        × HasEndpoint made.1.diarization
        × IsReachable a made.1
        × HasTarget store made.1)
      made facts
