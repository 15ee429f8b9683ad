-- ===== src/Stream/Invariant.antt =====
-- src/loreline/stt/streaming.py: the books under `_open`, `_close` and `_apply`.
use loreline.Prelude.{
  suc, String, ◌≡◌, refl, ap, ◌∙◌, sym, subst, Bool, true, false, Option, none, some, List, [], ◌∷◌,
  ◌++◌, arith, if◌then◌else◌, length, is_blank, concat, ◌||◌, str_eq_refl, length-append,
  length-trim-le, Option-cases, Bool-cases, ◌⊎◌, inl, inr,
}
use loreline.Prelude.Int.{ℤ, ltb_ℤ}
use loreline.Prelude.Dict.{
  Dict, Distinct-list_remove, length-list_remove-le, list_remove, lookup, put, remove, keys,
  lookup-put, Distinct-snoc, has-mem-keys, length-remove-le, keys-remove, keys-put,
}
use loreline.Stream.Books.{
  IsBooked, IsValid, KeyedByRef, is_empty, emit-IsBooked, keyed-put_ref, keyed-remove, keyed-lookup,
}
use loreline.Stream.Evict.{IsEvicted, evict_over-IsValid}
use loreline.Transcript.{Word}
use loreline.Stream.Model.{
  StreamSignal, turn_started, turn_partial, turn_ended, turn_final, stream_alive, OpenTurn, Stream,
  max_open_turns, max_pending_ends, max_closed_refs,
}
use loreline.Stream.Turns.{
  emit, note_closed, opened, new_turn, shown, open_new, open_turn, publish_interim, close_known,
  close_unknown, close, end_turn, resolve, is_closed, clock, apply,
}

is_empty-put : (k : String) (turn : OpenTurn) (d : Dict OpenTurn) → is_empty (put k turn d) ≡ false
unfolding put
is_empty-put k turn [] = refl
is_empty-put k turn ((j, w) ∷ d) = ground arith

keyed-put :
    (k : String) (turn : OpenTurn) (d : Dict OpenTurn)
    → turn.ref ≡ k
    → KeyedByRef d
    → KeyedByRef (put k turn d)
keyed-put k turn d e h = subst (λ k. KeyedByRef (put k turn d)) e (keyed-put_ref d turn h)

keys-put_new :
    (k : String) (turn : OpenTurn) (d : Dict OpenTurn)
    → lookup k d ≡ none
    → keys (put k turn d) ≡ keys d ++ k ∷ []
keys-put_new k turn d h = ground (arith, keys-put k turn d)

keys-put_old :
    (k : String) (turn w : OpenTurn) (d : Dict OpenTurn)
    → lookup k d ≡ some w
    → keys (put k turn d) ≡ keys d
keys-put_old k turn w d h = ground (arith, keys-put k turn d)

opened-IsBooked :
    (s : Stream) (key : String) (start : ℤ)
    → IsValid s
    → lookup key s.turns ≡ none
    → IsBooked (suc max_open_turns) (opened s key start)
opened-IsBooked s key start v new = record {
  listed = ap (λ l. l ++ key ∷ []) v.listed ∙ sym (keys-put_new key turn s.turns new);
  distinct =
      Distinct-snoc s.order key v.distinct (rw v.listed (ground (arith, has-mem-keys key s.turns)));
  keyed = keyed-put key turn s.turns refl v.keyed;
  few_turns = omega (arith, length-append s.order (key ∷ []));
  few_ends = omega (arith, length-remove-le key s.pending_end);
  few_closed = v.few_closed;
  settled_lem = sym (is_empty-put key turn s.turns);
}
  where
    turn : OpenTurn
    turn = new_turn s key start

-- A turn that an operation hands on is the one that the books hold under its ref.
abbrev pub Holds : Stream → OpenTurn → Type 0
Holds s turn = lookup turn.ref s.turns ≡ some turn

-- How an opening changes the stream: not at all, or by a new turn and perhaps an eviction.
abbrev pub Opening : Stream → String → ℤ → Stream → Type 0
Opening s key start s' =
    (s' ≡ s)
    ⊎ ((lookup key s.turns ≡ none)
        × ((s' ≡ opened s key start) ⊎ IsEvicted (opened s key start) s'))

open_new-IsValid :
    (s : Stream) (key : String) (start : ℤ)
    → IsValid s
    → lookup key s.turns ≡ none
    → (s' : Stream) × (open_new s key start ≡ some (new_turn s key start, s'))
      × IsValid s'
      × Holds s' (new_turn s key start)
      × Opening s key start s'
unfolding open_new
open_new-IsValid s key start v new =
    let turn = new_turn s key start in
    let (s', done, w, kept, how) =
      evict_over-IsValid (length s.order) (opened s key start) s.order key
        (opened-IsBooked s key start v new) refl in
    rw done (s', refl, w, kept ∙ lookup-put key key turn s.turns ∙ rw str_eq_refl, inr (new, how))

pub open_turn-IsValid :
    (s : Stream) (ref : String) (start : ℤ)
    → IsValid s
    → (turn : OpenTurn) × (s' : Stream) × (open_turn s ref start ≡ some (turn, s'))
      × IsValid s'
      × Holds s' turn
      × Opening s (resolve s ref) start s'
unfolding open_turn
open_turn-IsValid s ref start v = elim (Option-cases (lookup (resolve s ref) s.turns)) [
  | inl new ↦
      let key = resolve s ref in
      let (s', done, w, held, how) = open_new-IsValid s key start v new in
      let found : open_turn s ref start ≡ open_new s key start = rw (new, open_turn) in
      (new_turn s key start, s', found ∙ done, w, held, how)
  | inr (turn, old) ↦
      let same : turn.ref ≡ resolve s ref = keyed-lookup (resolve s ref) s.turns turn v.keyed old in
      let found : open_turn s ref start ≡ some (turn, s) = rw (old, open_turn) in
      (turn, s, found, v, subst (λ k. lookup k s.turns ≡ some turn) (sym same) old, inl refl)
]

is_empty_of_held :
    (k : String) (w : OpenTurn) (d : Dict OpenTurn) → lookup k d ≡ some w → is_empty d ≡ false
unfolding lookup
is_empty_of_held k w [] h = cc
is_empty_of_held k w (e ∷ d) h = refl

put_held-IsValid :
    (s : Stream) (turn w : OpenTurn)
    → IsValid s
    → lookup turn.ref s.turns ≡ some w
    → IsValid (record s { turns = put turn.ref turn s.turns })
put_held-IsValid s turn w v held = record {
  listed = v.listed ∙ sym (keys-put_old turn.ref turn w s.turns held);
  distinct = v.distinct;
  keyed = keyed-put_ref s.turns turn v.keyed;
  few_turns = v.few_turns;
  few_ends = v.few_ends;
  few_closed = v.few_closed;
  settled_lem =
      v.settled_lem
      ∙ is_empty_of_held turn.ref w s.turns held
      ∙ sym (is_empty-put turn.ref turn s.turns);
}

pub publish_interim-IsValid :
    (s : Stream) (turn w : OpenTurn) (now : ℤ)
    → IsValid s
    → lookup turn.ref s.turns ≡ some w
    → IsValid (publish_interim s turn now)
unfolding publish_interim
publish_interim-IsValid s turn w now v held =
    elim (Bool-cases (is_blank turn.text || ltb_ℤ now turn.next_interim)) [
      | inl quiet ↦ rw quiet (put_held-IsValid s turn w v held)
      | inr due ↦
          rw due (emit-IsBooked _ _ _ _ _ _ _ (put_held-IsValid s (shown s turn now) w v held))
    ]

settled_or :
    (d : Dict OpenTurn) (b : Bool)
    → (is_empty d ≡ false → b ≡ false)
    → (elim d [ [] ↦ true | _ ∷ _ ↦ b ]) ≡ is_empty d
settled_or [] b h = refl
settled_or (e ∷ d) b h = h refl

is_empty-remove :
    (k : String) (d : Dict OpenTurn) → is_empty (remove k d) ≡ false → is_empty d ≡ false
unfolding remove
is_empty-remove k [] h = h
is_empty-remove k (e ∷ d) h = refl

close_known-IsValid :
    (s : Stream) (key : String) (turn : OpenTurn) (text : String) (words : List Word)
    (at to : Option ℤ)
    → IsValid s
    → IsValid (close_known s key turn text words at to)
unfolding close_known emit note_closed
close_known-IsValid s key turn text words at to v = record {
  listed = ground (arith, ap (list_remove key) v.listed, keys-remove key s.turns);
  distinct = ground (arith, Distinct-list_remove key s.order v.distinct);
  keyed = ground (arith, keyed-remove key s.turns v.keyed);
  few_turns = ground (arith, length-list_remove-le key s.order);
  few_ends = ground (arith, length-remove-le key s.pending_end);
  few_closed = ground (arith, length-trim-le max_closed_refs (put key tt s.closed));
  settled_lem = settled_or _ _ (λ h. ground (arith, is_empty-remove key s.turns));
}

close_unknown-IsValid :
    (s : Stream) (key text : String) (words : List Word) (at to : Option ℤ)
    → IsValid s
    → IsValid (close_unknown s key text words at to)
unfolding close_unknown emit note_closed
close_unknown-IsValid s key text words at to v = record {
  listed = ground arith;
  distinct = ground arith;
  keyed = ground arith;
  few_turns = ground arith;
  few_ends = ground (arith, length-remove-le key s.pending_end);
  few_closed = ground (arith, length-trim-le max_closed_refs (put key tt s.closed));
  settled_lem = settled_or _ _ (λ h. ground arith);
}

close-IsValid :
    (s : Stream) (ref text : String) (words : List Word) (at to : Option ℤ)
    → IsValid s
    → IsValid (close s ref text words at to)
unfolding close
close-IsValid s ref text words at to v = elim (Option-cases (lookup (resolve s ref) s.turns)) [
  | inl new ↦ rw (new, close) (close_unknown-IsValid s (resolve s ref) text words at to v)
  | inr (turn, old) ↦
      rw (old, close) (close_known-IsValid s (resolve s ref) turn text words at to v)
]

end_turn-IsValid : (s : Stream) (ref : String) (end : ℤ) → IsValid s → IsValid (end_turn s ref end)
unfolding end_turn
end_turn-IsValid s ref end v = elim (Option-cases (lookup (resolve s ref) s.turns)) [
  | inl new ↦
      rw (new, end_turn)
        (record {
          listed = v.listed;
          distinct = v.distinct;
          keyed = v.keyed;
          few_turns = v.few_turns;
          few_ends = length-trim-le max_pending_ends (put ref end s.pending_end);
          few_closed = v.few_closed;
          settled_lem = v.settled_lem;
        })
  | inr (turn, old) ↦
      rw (old, end_turn) (ended turn old (keyed-lookup (resolve s ref) s.turns turn v.keyed old))
]
  where
    ended :
        (turn : OpenTurn)
        → lookup (resolve s ref) s.turns ≡ some turn
        → turn.ref ≡ resolve s ref
        → IsValid
            (record s { turns = put (resolve s ref) (record turn { end = some end }) s.turns })
    ended turn old same =
        subst (λ k. IsValid (record s { turns = put k (record turn { end = some end }) s.turns }))
          same
          (put_held-IsValid s (record turn { end = some end }) turn v
            (subst (λ k. lookup k s.turns ≡ some turn) (sym same) old))

-- Whatever a vendor sends, the books take it without an exception and stay valid.
pub apply-IsValid :
    (s : Stream) (now : ℤ) (signal : StreamSignal)
    → IsValid s
    → (s' : Stream) × (apply s now signal ≡ some s') × IsValid s'
unfolding apply
apply-IsValid s now stream_alive v = (s, refl, v)
apply-IsValid s now (turn_started at ref) v =
    let (turn, s', opened, w, held, _) = open_turn-IsValid s ref (clock s at) v in
    rw opened (s', refl, w)
apply-IsValid s now (turn_partial text ref append) v = elim (Bool-cases (is_closed s ref)) [
  | inl late ↦ rw late (s, refl, v)
  | inr live ↦
      let (turn, s', opened, w, held, _) = open_turn-IsValid s ref (clock s none) v in
      let turn' = record turn { text = if append then concat turn.text text else text } in
      rw (live, opened)
        (publish_interim s' turn' now, refl, publish_interim-IsValid s' turn' turn now w held)
]
apply-IsValid s now (turn_ended at ref) v =
    (end_turn s ref (clock s at), refl, end_turn-IsValid s ref (clock s at) v)
apply-IsValid s now (turn_final text ref words at to) v =
    (close s ref text words at to, refl, close-IsValid s ref text words at to v)
