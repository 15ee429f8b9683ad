-- ===== src/Router/Streaks.antt =====
-- src/loreline/stt/router.py: failing streaks, their alerts, and the utterances that are lost.
use loreline.Prelude.{
  ℕ, ◌+◌, ◌-◌, ◌*◌, ◌≤◌, String, ◌≡◌, subst, Bool, true, false, Option, none, some, List, [], ◌∷◌,
  arith, ltb, leb, if◌then◌else◌, length, Bool-cases, inl, inr,
}
use loreline.Prelude.Int.{ℤ}
use loreline.Transcript.{TranscriptEvent}
use loreline.Router.Model.{
  Backend, Role, Answer, answered, failed, RequestFailure, Router, note_backend_failed,
  note_transcribed, notify_failover, note_dropped, Tried, heard, gave_up, after_answer, note_asked,
  try_backends, conclude, transcribe_with_failover, viable, is_empty, reason_of, Request, publish,
  run_on, run,
}

abbrev pub is_some {ℓ} : {A : Type ℓ} → Option A → Bool
is_some none = false
is_some (some a) = true

-- The failures of a streak that no alert has been sent for.
abbrev pub unalerted : ℕ → ℕ
unalerted n = if ltb n 3 then n else n - 3

-- The session is degraded exactly during a streak of three failures or more, and three dropped
-- utterances stand behind each alert.
pub record IsStreak (r : Router) : Type 0 where
  pub degraded_lem : is_some r.degraded_since ≡ leb 3 r.consecutive_failures
  pub alerts_lem : 3 * length r.alerts + unalerted r.consecutive_failures ≤ r.dropped

transcribed-IsStreak : (r : Router) → IsStreak r → IsStreak (note_transcribed r)
unfolding note_transcribed
transcribed-IsStreak r v = ground arith

dropped-IsStreak :
    (r : Router) (now : ℤ) (error : String) → IsStreak r → IsStreak (note_dropped r now error)
unfolding note_dropped notify_failover
dropped-IsStreak r now error v = ground arith

failed-IsStreak :
    (r : Router) (b : Backend) (f : RequestFailure)
    → IsStreak r
    → IsStreak (note_backend_failed r b f)
unfolding note_backend_failed
failed-IsStreak r b f v = ground arith

asked-IsStreak : (r : Router) (b : Backend) → IsStreak r → IsStreak (note_asked r b)
asked-IsStreak r b v = ground arith

answer-IsStreak :
    (loop : Router → String → Router × Tried) (r : Router) (b : Backend) (a : Answer)
    → ((r' : Router) (error : String) → IsStreak r' → IsStreak (loop r' error).0)
    → IsStreak r
    → IsStreak (after_answer loop r b a).0
answer-IsStreak loop r b (answered e) k v = transcribed-IsStreak r v
answer-IsStreak loop r b (failed f) k v =
    k (note_backend_failed r b f) (reason_of b f) (failed-IsStreak r b f v)

try-IsStreak :
    (l : List (Backend × Role)) (ask : Role → Answer) (r : Router) (error : String)
    → IsStreak r
    → IsStreak (try_backends l ask r error).0
unfolding try_backends
try-IsStreak [] ask r error v = v
try-IsStreak ((b, role) ∷ rest) ask r error v =
    answer-IsStreak (try_backends rest ask) (note_asked r b) b (ask role)
      (λ r' error' w. try-IsStreak rest ask r' error' w) (asked-IsStreak r b v)

-- Nothing was raised.
abbrev pub GoesOn : Router × Option String → Type 0
GoesOn (r, none) = IsStreak r
GoesOn (r, some message) = Unit

publish-IsStreak :
    (r : Router) (q : Request) (e : Option TranscriptEvent) → IsStreak r → IsStreak (publish r q e)
publish-IsStreak r q none v = v
publish-IsStreak r q (some e) v = ground arith

conclude-GoesOn :
    (loop : Router → Router × Option String) (q : Request) (round : Router × Tried)
    → ((r : Router) → IsStreak r → GoesOn (loop r))
    → IsStreak round.0
    → GoesOn (run_on loop q (conclude q.now round))
conclude-GoesOn loop q (r, heard e) k v = k (publish r q e) (publish-IsStreak r q e v)
conclude-GoesOn loop q (r, gave_up error) k v = elim (Bool-cases (is_empty (viable r))) [
  | inl over ↦ rw over tt
  | inr left ↦ rw left (k (note_dropped r q.now error) (dropped-IsStreak r q.now error v))
]

run-GoesOn : (requests : List Request) (r : Router) → IsStreak r → GoesOn (run requests r)
unfolding run transcribe_with_failover
run-GoesOn [] r v = v
run-GoesOn (q ∷ rest) r v =
    conclude-GoesOn (run rest) q (try_backends (viable r) q.ask r "") (λ r' w. run-GoesOn rest r' w)
      (try-IsStreak (viable r) q.ask r "" v)

-- After any run that raises nothing, the session is degraded exactly during a streak of three failures
-- or more, and each alert stands for three utterances that were dropped, and so for one streak.
pub run-IsStreak :
    (requests : List Request) (r r' : Router)
    → IsStreak r
    → run requests r ≡ (r', none)
    → IsStreak r'
run-IsStreak requests r r' v e = subst GoesOn e (run-GoesOn requests r v)
