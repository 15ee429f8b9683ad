-- ===== src/Stream/Books.antt =====
-- src/loreline/stt/streaming.py: what the books of a `TranscriptStream` keep about its turns.
use loreline.Prelude.{
  ℕ, ◌≤◌, String, ◌≡◌, refl, sym, Bool, true, false, Option, some, List, [], ◌∷◌, arith, length,
  str_eq, length-trim-le, Bool-cases, inl, inr, str_eq→eq, eq_iff,
}
use loreline.Prelude.Int.{ℤ}
use loreline.Prelude.Dict.{Dict, Distinct, lookup, put, remove, keys}
use loreline.Transcript.{Word}
use loreline.Stream.Model.{OpenTurn, Stream, max_open_turns, max_pending_ends, max_closed_refs}
use loreline.Stream.Turns.{emit, emit_settled, note_closed}

-- A turn is kept under its own ref.
abbrev pub KeyedByRef : Dict OpenTurn → Type 0
KeyedByRef [] = Unit
KeyedByRef ((k, turn) ∷ d) = (turn.ref ≡ k) × KeyedByRef d

abbrev pub is_empty {ℓ} : {A : Type ℓ} → List A → Bool
is_empty [] = true
is_empty (x ∷ xs) = false

-- `limit` bounds the open turns: one more than `max_open_turns` between an opening and an eviction.
pub record IsBooked (limit : ℕ) (s : Stream) : Type 0 where
  pub listed : s.order ≡ keys s.turns
  pub distinct : Distinct s.order
  pub keyed : KeyedByRef s.turns
  pub few_turns : length s.order ≤ limit
  pub few_ends : length s.pending_end ≤ max_pending_ends
  pub few_closed : length s.closed ≤ max_closed_refs
  pub settled_lem : s.settled ≡ is_empty s.turns

abbrev pub IsValid : Stream → Type 0
IsValid s = IsBooked max_open_turns s

pub emit-IsBooked :
    {limit : ℕ} (s : Stream) (handle text : String) (start : ℤ) (end : Option ℤ) (final : Bool)
    (words : List Word)
    → IsBooked limit s
    → IsBooked limit (emit s handle text start end final words)
unfolding emit
emit-IsBooked s handle text start end final words v = ground arith

pub emit_settled-IsBooked :
    {limit : ℕ} (s : Stream) (turn : OpenTurn)
    → IsBooked limit s
    → IsBooked limit (emit_settled s turn)
emit_settled-IsBooked s turn v =
    ground (arith, emit-IsBooked s turn.handle turn.text turn.start turn.end true [] v)

pub note_closed-IsBooked :
    {limit : ℕ} (s : Stream) (key : String) → IsBooked limit s → IsBooked limit (note_closed s key)
unfolding note_closed
note_closed-IsBooked s key v = ground (arith, length-trim-le max_closed_refs (put key tt s.closed))

pub keyed-put_ref :
    (d : Dict OpenTurn) (turn : OpenTurn) → KeyedByRef d → KeyedByRef (put turn.ref turn d)
unfolding put
keyed-put_ref [] turn h = (refl, tt)
keyed-put_ref ((j, w) ∷ d) turn h = elim (Bool-cases (str_eq j turn.ref)) [
  | inl same ↦ rw same (sym (str_eq→eq j turn.ref same), h.1)
  | inr other ↦ rw other (h.0, keyed-put_ref d turn h.1)
]

pub keyed-remove : (k : String) (d : Dict OpenTurn) → KeyedByRef d → KeyedByRef (remove k d)
unfolding remove
keyed-remove k [] h = tt
keyed-remove k ((j, w) ∷ d) h = ground (arith, keyed-remove k d h.1)

pub keyed-lookup :
    (k : String) (d : Dict OpenTurn) (turn : OpenTurn)
    → KeyedByRef d
    → lookup k d ≡ some turn
    → turn.ref ≡ k
unfolding lookup
keyed-lookup k [] turn h e = cc
keyed-lookup k ((j, w) ∷ d) turn h e = ground (arith, eq_iff j k, keyed-lookup k d turn h.1)
