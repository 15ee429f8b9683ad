-- ===== src/Stream/Rows.antt =====
-- The rows that a live feed shows. A reader replaces a held event by an arriving one of the same
-- `turn_id`, so a row is dimmed while the newest event of its id is an interim.
use loreline.Prelude.{
  ℕ, String, ◌≡◌, Bool, true, false, not, ◌&&◌, ◌||◌, Option, none, some, List, [], ◌∷◌, arith,
  if◌then◌else◌, is_blank, str_eq, Bool-cases, inl, inr,
}
use loreline.Prelude.Int.{ℤ}
use loreline.Prelude.Dict.{Dict, lookup, put, remove}
use loreline.Transcript.{Word, TranscriptEvent}
use loreline.Stream.Model.{OpenTurn, Stream}
use loreline.Stream.Turns.{emit, emit_settled, turn_id}

abbrev pub has_id : String → TranscriptEvent → Bool
has_id t e = elim e.turn_id [ none ↦ false | some u ↦ str_eq u t ]

-- The row `t` is dimmed after the events of a history, newest first.
unfoldable pub awaits : String → List TranscriptEvent → Bool
awaits t [] = false
awaits t (e ∷ older) = if has_id t e then not e.is_final else awaits t older

-- An open turn with a row on screen under the id `t`.
abbrev pub owes : String → ℕ → String → OpenTurn → Bool
owes provider_id generation t turn =
    turn.published && str_eq (turn_id provider_id generation turn.handle) t

unfoldable pub owed : String → ℕ → String → Dict OpenTurn → Bool
owed p g t [] = false
owed p g t ((k, turn) ∷ d) = owes p g t turn || owed p g t d

-- A turn with a row on screen has text to settle it with.
abbrev pub TextShown : Dict OpenTurn → Type 0
TextShown [] = Unit
TextShown ((k, turn) ∷ d) = (turn.published ≡ true → is_blank turn.text ≡ false) × TextShown d

pub record RowsOwed (s : Stream) : Type 0 where
  pub owed_lem :
      (t : String) → awaits t s.published ≡ true → owed s.provider_id s.generation t s.turns ≡ true
  pub text_lem : TextShown s.turns

pub awaits-emit :
    (s : Stream) (t handle text : String) (start : ℤ) (end : Option ℤ) (final : Bool)
    (words : List Word)
    → awaits t (emit s handle text start end final words).published ≡ (
        if is_blank text
        then awaits t s.published
        else if str_eq (turn_id s.provider_id s.generation handle) t
        then not final
        else awaits t s.published)
unfolding emit awaits
awaits-emit s t handle text start end final words = ground arith

pub awaits-emit_settled :
    (s : Stream) (t : String) (turn : OpenTurn)
    → (turn.published ≡ true → is_blank turn.text ≡ false)
    → awaits t (emit_settled s turn).published
      ≡ (if owes s.provider_id s.generation t turn then false else awaits t s.published)
awaits-emit_settled s t turn h =
    ground (arith, awaits-emit s t turn.handle turn.text turn.start turn.end true [])

module _ (p : String) (g : ℕ) (t : String) where
  pub owed-put_new :
      (k : String) (turn : OpenTurn) (d : Dict OpenTurn)
      → lookup k d ≡ none
      → turn.published ≡ false
      → owed p g t (put k turn d) ≡ owed p g t d
  unfolding owed put lookup
  owed-put_new k turn [] h e = ground arith
  owed-put_new k turn ((j, w) ∷ d) h e = ground (arith, owed-put_new k turn d)

  pub owed-put_same :
      (k : String) (turn w : OpenTurn) (d : Dict OpenTurn)
      → lookup k d ≡ some w
      → turn.published ≡ w.published
      → turn.handle ≡ w.handle
      → owed p g t (put k turn d) ≡ owed p g t d
  unfolding owed put lookup
  owed-put_same k turn w [] h e e' = cc
  owed-put_same k turn w ((j, v) ∷ d) h e e' = ground (arith, owed-put_same k turn w d)

  pub owed-put_shown :
      (k : String) (turn w : OpenTurn) (d : Dict OpenTurn)
      → lookup k d ≡ some w
      → turn.published ≡ true
      → turn.handle ≡ w.handle
      → owed p g t (put k turn d) ≡ (str_eq (turn_id p g turn.handle) t || owed p g t d)
  unfolding owed put lookup
  owed-put_shown k turn w [] h e e' = cc
  owed-put_shown k turn w ((j, v) ∷ d) h e e' = ground (arith, owed-put_shown k turn w d)

  pub owed-remove :
      (k : String) (w : OpenTurn) (d : Dict OpenTurn)
      → lookup k d ≡ some w
      → owed p g t d ≡ (owes p g t w || owed p g t (remove k d))
  unfolding owed remove lookup
  owed-remove k w [] h = cc
  owed-remove k w ((j, v) ∷ d) h = ground (arith, owed-remove k w d)

pub text-put :
    (k : String) (turn : OpenTurn) (d : Dict OpenTurn)
    → (turn.published ≡ true → is_blank turn.text ≡ false)
    → TextShown d
    → TextShown (put k turn d)
unfolding put
text-put k turn [] h s = (h, tt)
text-put k turn ((j, v) ∷ d) h s = elim (Bool-cases (str_eq j k)) [
  | inl same ↦ rw same (h, s.1)
  | inr other ↦ rw other (s.0, text-put k turn d h s.1)
]

pub text-remove : (k : String) (d : Dict OpenTurn) → TextShown d → TextShown (remove k d)
unfolding remove
text-remove k [] s = tt
text-remove k ((j, v) ∷ d) s = elim (Bool-cases (str_eq j k)) [
  | inl same ↦ rw same s.1
  | inr other ↦ rw other (s.0, text-remove k d s.1)
]

pub text-lookup :
    (k : String) (turn : OpenTurn) (d : Dict OpenTurn)
    → TextShown d
    → lookup k d ≡ some turn
    → turn.published ≡ true
    → is_blank turn.text ≡ false
unfolding lookup
text-lookup k turn [] s h = cc
text-lookup k turn ((j, v) ∷ d) s h = ground (arith, s.0, text-lookup k turn d s.1)
