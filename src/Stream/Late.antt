-- ===== src/Stream/Late.antt =====
-- src/loreline/stt/streaming.py: what a vendor says about a turn after it was settled, and the text
-- that a blank restatement loses.
use loreline.Prelude.{
  String, ◌≡◌, Bool, true, false, Option, none, some, List, [], ◌∷◌, arith, trim, is_blank,
  str_eq_refl, Option-cases, inl, inr,
}
use loreline.Prelude.Int.{ℤ}
use loreline.Prelude.Dict.{lookup, put, lookup-trim-put}
use loreline.Transcript.{Word}
use loreline.Stream.Model.{turn_partial, turn_final, OpenTurn, Stream, max_closed_refs}
use loreline.Stream.Turns.{
  ◌>>=◌, emit, note_closed, resolve, is_closed, close, close_known, close_unknown, apply,
  settle_open, open_turn, publish_interim,
}
use loreline.Stream.Books.{IsValid}
use loreline.Stream.Rows.{awaits}

closed-known :
    (s : Stream) (key : String) (turn : OpenTurn) (text : String) (words : List Word)
    (at to : Option ℤ)
    → (close_known s key turn text words at to).closed ≡ (note_closed s key).closed
unfolding close_known emit note_closed
closed-known s key turn text words at to = ground arith

closed-unknown :
    (s : Stream) (key text : String) (words : List Word) (at to : Option ℤ)
    → (close_unknown s key text words at to).closed ≡ (note_closed s key).closed
unfolding close_unknown emit note_closed
closed-unknown s key text words at to = ground arith

closed-close :
    (s : Stream) (ref text : String) (words : List Word) (at to : Option ℤ)
    → (close s ref text words at to).closed ≡ (note_closed s (resolve s ref)).closed
unfolding close
closed-close s ref text words at to = elim (Option-cases (lookup (resolve s ref) s.turns)) [
  | inl new ↦ rw (new, close) (closed-unknown s (resolve s ref) text words at to)
  | inr (turn, old) ↦ rw (old, close) (closed-known s (resolve s ref) turn text words at to)
]

-- After the final of a named turn, a partial that names it changes nothing and publishes nothing.
pub partial-after_final :
    (s : Stream) (now then' : ℤ) (ref text : String) (words : List Word) (at to : Option ℤ)
    (late : String) (append : Bool)
    → IsValid s
    → is_blank ref ≡ false
    → (apply s now (turn_final text ref words at to) >>= λ s'.
        apply s' then' (turn_partial late ref append))
      ≡ apply s now (turn_final text ref words at to)
unfolding apply is_closed note_closed resolve
partial-after_final s now then' ref text words at to late append v named =
    let noted : lookup ref (trim max_closed_refs (put ref tt s.closed)) ≡ some tt =
      lookup-trim-put 127 ref tt s.closed v.few_closed in
    ground (arith, closed-close s ref text words at to, noted)

-- Whether a row is dimmed once what is open has been settled.
abbrev pub dimmed_after : String → Option Stream → Bool
dimmed_after t none = false
dimmed_after t (some s) = awaits t (settle_open s).published

blanked :
    (s : Stream) (now : ℤ) (ref : String) (turn : OpenTurn)
    → s.turns ≡ (ref, turn) ∷ []
    → turn.ref ≡ ref
    → is_blank ref ≡ false
    → is_closed s ref ≡ false
    → apply s now (turn_partial "" ref false)
      ≡ some (record s { turns = (ref, record turn { text = "" }) ∷ [] })
unfolding apply open_turn publish_interim resolve lookup put
blanked s now ref turn only keyed named live = ground (arith, str_eq_refl ref)

-- A vendor that restates the one open turn as blank leaves a row that was dimmed dimmed for good: the
-- settling has no text to publish.
pub blank_restatement_stays_dimmed :
    (s : Stream) (now : ℤ) (ref t : String) (turn : OpenTurn)
    → s.turns ≡ (ref, turn) ∷ []
    → turn.ref ≡ ref
    → is_blank ref ≡ false
    → is_closed s ref ≡ false
    → awaits t s.published ≡ true
    → dimmed_after t (apply s now (turn_partial "" ref false)) ≡ true
unfolding settle_open note_closed emit
blank_restatement_stays_dimmed s now ref t turn only keyed named live dim =
    rw (blanked s now ref turn only keyed named live) (ground arith)
