-- ===== src/Router/Exhaustion.antt =====
-- src/loreline/stt/router.py: how a run ends when no provider is left, and which are asked.
use loreline.Prelude.{
  String, ◌≡◌, refl, sym, subst, true, false, Option, none, some, List, [], ◌∷◌, Bool-cases, inl,
  inr,
}
use loreline.Prelude.Int.{ℤ}
use loreline.Prelude.Dict.{Dict, lookup}
use loreline.Router.Model.{
  Backend, Role, primary, fallback, mark_degraded, Router, note_dropped, Tried, heard, gave_up,
  try_backends, conclude, transcribe_with_failover, viable, is_empty, Request, publish, run_on, run,
  terminal_error, exhausted_message, not_retired,
}

some_retired :
    (retired : Dict String) (b : Backend) (role : Role) (rest : List (Backend × Role))
    → is_empty (not_retired retired ((b, role) ∷ rest)) ≡ true
    → is_empty retired ≡ false
unfolding lookup
some_retired [] b role rest h = sym h
some_retired (d ∷ ds) b role rest h = refl

-- How a run stands: a message is the terminal error, with nobody left to ask.
abbrev EndsExhausted : Router × Option String → Type 0
EndsExhausted (r, none) = Unit
EndsExhausted (r, some message) = (terminal_error r ≡ some message) × (is_empty (viable r) ≡ true)

mark_degraded-error :
    (r : Router) (now : ℤ)
    → is_empty (viable r) ≡ true
    → (terminal_error (mark_degraded r now) ≡ some (exhausted_message r))
      × (is_empty (viable (mark_degraded r now)) ≡ true)
unfolding terminal_error viable exhausted_message
mark_degraded-error r now over =
    let retired =
      some_retired r.retired r.first primary
        (elim r.second [ none ↦ [] | some b ↦ (b, fallback) ∷ [] ]) over in
    (rw (retired, over) refl, over)

conclude-EndsExhausted :
    (loop : Router → Router × Option String) (q : Request) (round : Router × Tried)
    → ((r : Router) → EndsExhausted (loop r))
    → EndsExhausted (run_on loop q (conclude q.now round))
conclude-EndsExhausted loop q (r, heard e) k = k (publish r q e)
conclude-EndsExhausted loop q (r, gave_up error) k = elim (Bool-cases (is_empty (viable r))) [
  | inl over ↦ rw over (mark_degraded-error r q.now over)
  | inr left ↦ rw left (k (note_dropped r q.now error))
]

run-EndsExhausted : (requests : List Request) (r : Router) → EndsExhausted (run requests r)
unfolding run transcribe_with_failover
run-EndsExhausted [] r = tt
run-EndsExhausted (q ∷ rest) r =
    conclude-EndsExhausted (run rest) q (try_backends (viable r) q.ask r "")
      (λ r'. run-EndsExhausted rest r')

-- A run that raises does so with the message that `terminal_error` then gives, and with no provider
-- left to ask.
pub run_raises_terminal_error :
    (requests : List Request) (r r' : Router) (message : String)
    → run requests r ≡ (r', some message)
    → (terminal_error r' ≡ some message) × (is_empty (viable r') ≡ true)
run_raises_terminal_error requests r r' message e =
    subst EndsExhausted e (run-EndsExhausted requests r)
