-- ===== src/Stream/Budget.antt =====
-- src/loreline/stt/streaming.py, `TranscriptStream.run`: the reconnect budget, and what every way out
-- of the loop leaves on screen.
use loreline.Prelude.{
  ℕ, suc, ◌+◌, ◌≤◌, ◌≡◌, ◌≢◌, ◌∙◌, refl, ap, false, Option, some, List, [], ◌∷◌, arith, ltb,
  if◌then◌else◌, length, Bool-cases, inl, inr,
}
use loreline.Prelude.Int.{ℤ}
use loreline.Stream.Model.{Stream}
use loreline.Stream.Queue.{feed, stop}
use loreline.Stream.Connection.{serve}
use loreline.Stream.Serve.{AllSettled, MomentsRestate, serve_leaves_none_dimmed}
use loreline.Stream.Run.{
  dead, Call, fed, stop_called, Connect, not_for_model, refused, opened, Attempt, capture, Turn,
  returned, raised, failures, count_failure, served, connect_with, attempt, go_on, run,
}

abbrev FramesOnly : List Call → Type 0
FramesOnly [] = Unit
FramesOnly (fed f ∷ rest) = FramesOnly rest
FramesOnly (stop_called ∷ rest) = ⊥

-- Attempts that fail to connect while the capture loop only feeds.
abbrev pub AllRefused : List Attempt → Type 0
AllRefused [] = Unit
AllRefused (a ∷ rest) =
    FramesOnly a.before × FramesOnly a.during × (a.connect ≡ refused) × AllRefused rest

capture-config : (s : Stream) (calls : List Call) → (capture s calls).config ≡ s.config
unfolding capture
capture-config s [] = refl
capture-config s (fed f ∷ rest) = capture-config (feed s f) rest ∙ (unfold feed in ground arith)
capture-config s (stop_called ∷ rest) = capture-config (stop s) rest ∙ (unfold stop in ground arith)

capture-stopped :
    (s : Stream) (calls : List Call) → FramesOnly calls → (capture s calls).stopped ≡ s.stopped
unfolding capture
capture-stopped s [] h = refl
capture-stopped s (fed f ∷ rest) h =
    capture-stopped (feed s f) rest h ∙ (unfold feed in ground arith)
capture-stopped s (stop_called ∷ rest) h = absurd h

abbrev fed_by : Stream → Attempt → Stream
fed_by s a = capture (capture s a.before) a.during

attempt-refused :
    (s : Stream) (attempts : ℕ) (a : Attempt)
    → s.stopped ≡ false
    → FramesOnly a.before
    → a.connect ≡ refused
    → attempt s attempts a ≡ count_failure (fed_by s a) (suc attempts)
unfolding attempt
attempt-refused s attempts a live before e =
    let still = capture-stopped s a.before before ∙ live in rw (still, e)

-- A provider that never connects is given up after exactly `max_reconnects` + 1 attempts in a row,
-- and until then the loop goes on and counts them, whatever the capture loop feeds meanwhile.
pub refused_until_dead :
    (script : List Attempt) (s : Stream) (attempts : ℕ)
    → s.stopped ≡ false
    → attempts ≤ s.config.max_reconnects
    → AllRefused script
    → (run script s attempts).1 ≡ (
        if ltb s.config.max_reconnects (attempts + length script)
        then returned dead
        else failures (attempts + length script))
unfolding run
refused_until_dead [] s attempts live h q = ground arith
refused_until_dead (a ∷ rest) s attempts live h (before, during, e, q) =
    let s' = fed_by s a in
    let same : s'.config ≡ s.config =
      capture-config (capture s a.before) a.during ∙ capture-config s a.before in
    let live' : s'.stopped ≡ false =
      capture-stopped (capture s a.before) a.during during
      ∙ capture-stopped s a.before before
      ∙ live in
    let limit : s'.config.max_reconnects ≡ s.config.max_reconnects =
      ap (λ c. c.max_reconnects) same in
    rw (attempt-refused s attempts a live before e)
      (elim (Bool-cases (ltb s.config.max_reconnects (suc attempts))) [
        | inl spent ↦
            let over : count_failure s' (suc attempts) ≡ (s', returned dead) = rw (limit, spent) in
            rw over (ground arith)
        | inr left ↦
            let kept : count_failure s' (suc attempts) ≡ (s', failures (suc attempts)) =
              rw (limit, left) in
            rw kept (
              ground (
                arith,
                refused_until_dead rest s' (suc attempts) live' (ground (arith, limit)) q,
                limit,
              ))
      ])

capture-AllSettled : (s : Stream) (calls : List Call) → AllSettled s → AllSettled (capture s calls)
unfolding capture
capture-AllSettled s [] v = v
capture-AllSettled s (fed f ∷ rest) v =
    capture-AllSettled (feed s f) rest (λ t. (unfold feed in ground (arith, v t)))
capture-AllSettled s (stop_called ∷ rest) v =
    capture-AllSettled (stop s) rest (λ t. (unfold stop in ground (arith, v t)))

-- Scripts in which no partial blanks a turn.
abbrev ConnectRestates : Connect → Type 0
ConnectRestates (opened now moments closed_at) = MomentsRestate moments
ConnectRestates _ = Unit

abbrev pub AllRestating : List Attempt → Type 0
AllRestating [] = Unit
AllRestating (a ∷ rest) = ConnectRestates a.connect × AllRestating rest

-- A round that did not raise, on a feed with no dimmed row.
abbrev Settles : Stream × Turn → Type 0
Settles (s, turn) = AllSettled s × (turn ≢ raised)

count_failure-Settles :
    (s : Stream) (attempts : ℕ) → AllSettled s → Settles (count_failure s attempts)
count_failure-Settles s attempts v = (v, ground arith)

served-Settles :
    (s : Stream) (attempts : ℕ) (closed_at : ℤ) (o : Option Stream) (s' : Stream)
    → o ≡ some s'
    → AllSettled s'
    → Settles (served s attempts closed_at o)
served-Settles s attempts closed_at o s' e w = rw e (elim (Bool-cases s'.stopped) [
  | inl over ↦ rw over (w, cc)
  | inr live ↦ rw live (count_failure-Settles s' _ w)
])

connect_with-Settles :
    (s : Stream) (attempts : ℕ) (c : Connect)
    → AllSettled s
    → ConnectRestates c
    → Settles (connect_with s attempts c)
connect_with-Settles s attempts not_for_model v q = (v, cc)
connect_with-Settles s attempts refused v q = count_failure-Settles s (suc attempts) v
connect_with-Settles s attempts (opened now moments closed_at) v q =
    let (s', done, w) = serve_leaves_none_dimmed s now moments v q in
    served-Settles s attempts closed_at (serve s now moments) s' done w

attempt-Settles :
    (s : Stream) (attempts : ℕ) (a : Attempt)
    → AllSettled s
    → ConnectRestates a.connect
    → Settles (attempt s attempts a)
unfolding attempt
attempt-Settles s attempts a v q = elim (Bool-cases (capture s a.before).stopped) [
  | inl over ↦ rw (over, attempt) (capture-AllSettled s a.before v, cc)
  | inr live ↦
      rw (live, attempt)
        (connect_with-Settles (fed_by s a) attempts a.connect
          (capture-AllSettled (capture s a.before) a.during (capture-AllSettled s a.before v)) q)
]

go_on-Settles :
    (loop : Stream → ℕ → Stream × Turn) (round : Stream × Turn)
    → Settles round
    → ((s : Stream) (attempts : ℕ) → AllSettled s → Settles (loop s attempts))
    → Settles (go_on loop round)
go_on-Settles loop (s, failures attempts) h k = k s attempts h.0
go_on-Settles loop (s, raised) h k = absurd (h.1 refl)
go_on-Settles loop (s, returned outcome) h k = h

-- However a provider's stream goes - attempts that fail, connections that drop, a stop at any moment,
-- a model that is refused - if no partial blanks a turn then the loop raises nothing and no row of the
-- feed is left dimmed when it returns or goes on.
pub run_leaves_none_dimmed :
    (script : List Attempt) (s : Stream) (attempts : ℕ)
    → AllSettled s
    → AllRestating script
    → AllSettled (run script s attempts).0 × ((run script s attempts).1 ≢ raised)
unfolding run
run_leaves_none_dimmed [] s attempts v q = (v, cc)
run_leaves_none_dimmed (a ∷ rest) s attempts v q =
    go_on-Settles (run rest) (attempt s attempts a) (attempt-Settles s attempts a v q.0)
      (λ s' attempts' w. run_leaves_none_dimmed rest s' attempts' w q.1)
