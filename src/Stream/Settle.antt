-- ===== src/Stream/Settle.antt =====
-- src/loreline/stt/streaming.py: the rows that the signals of a vendor leave to be settled.
use loreline.Prelude.{
  String, ◌≡◌, ◌∙◌, refl, sym, ap, subst, Bool, true, false, not, ◌||◌, Option, none, some, List,
  ◌∷◌, arith, if◌then◌else◌, is_blank, concat, concat_nonblank, Option-cases, Bool-cases, inl, inr,
}
use loreline.Prelude.Int.{ℤ, ltb_ℤ}
use loreline.Prelude.Dict.{lookup, put}
use loreline.Transcript.{Word}
use loreline.Stream.Model.{
  StreamSignal, turn_started, turn_partial, turn_ended, turn_final, stream_alive, OpenTurn, Stream,
}
use loreline.Stream.Turns.{
  emit, note_closed, shown, publish_interim, new_turn, opened, resolve, close_known, close_unknown,
  close, end_turn, is_closed, clock, apply,
}
use loreline.Stream.Books.{IsValid}
use loreline.Stream.Evict.{IsEvicted, oldest}
use loreline.Stream.Invariant.{Opening, open_turn-IsValid}
use loreline.Stream.Rows.{
  awaits, owed, TextShown, RowsOwed, awaits-emit_settled, owed-put_new, owed-put_same,
  owed-put_shown, owed-remove, text-put, text-remove, text-lookup,
}

-- The history is as it was, and the turns owe the same rows.
transfer :
    (s s' : Stream)
    → RowsOwed s
    → s'.published ≡ s.published
    → ((t : String)
        → owed s'.provider_id s'.generation t s'.turns ≡ owed s.provider_id s.generation t s.turns)
    → TextShown s'.turns
    → RowsOwed s'
transfer s s' r same same_owed texts = record {
  owed_lem = λ t h. same_owed t ∙ r.owed_lem t (ap (awaits t) (sym same) ∙ h);
  text_lem = texts;
}

evicted-RowsOwed : {s s' : Stream} → IsEvicted s s' → RowsOwed s → RowsOwed s'
unfolding owed emit note_closed
evicted-RowsOwed {s} (oldest k turn d rest e) r = record {
  owed_lem = λ t h. ground (
    arith,
    r.owed_lem t,
    awaits-emit_settled (note_closed (record s { order = rest; turns = d }) k) t turn texts.0,
    e,
  );
  text_lem = ground (arith, texts.1);
}
  where
    texts : TextShown ((k, turn) ∷ d)
    texts = subst TextShown e r.text_lem

opened-RowsOwed :
    (s : Stream) (key : String) (start : ℤ)
    → lookup key s.turns ≡ none
    → RowsOwed s
    → RowsOwed (opened s key start)
opened-RowsOwed s key start new r =
    transfer s (opened s key start) r refl
      (λ t. owed-put_new s.provider_id s.generation t key (new_turn s key start) s.turns new refl)
      (text-put key (new_turn s key start) s.turns (λ e. cc) r.text_lem)

Opening-RowsOwed :
    (key : String) (start : ℤ) {s s' : Stream} → Opening s key start s' → RowsOwed s → RowsOwed s'
Opening-RowsOwed key start (inl e) r = subst RowsOwed (sym e) r
Opening-RowsOwed key start {s} (inr (new, inl e)) r =
    subst RowsOwed (sym e) (opened-RowsOwed s key start new r)
Opening-RowsOwed key start {s} (inr (new, inr x)) r =
    evicted-RowsOwed x (opened-RowsOwed s key start new r)

publish_interim-RowsOwed :
    (s : Stream) (turn w : OpenTurn) (now : ℤ)
    → RowsOwed s
    → lookup turn.ref s.turns ≡ some w
    → turn.published ≡ w.published
    → turn.handle ≡ w.handle
    → (turn.published ≡ true → is_blank turn.text ≡ false)
    → RowsOwed (publish_interim s turn now)
unfolding publish_interim emit awaits
publish_interim-RowsOwed s turn w now r held same named text =
    elim (Bool-cases (is_blank turn.text || ltb_ℤ now turn.next_interim)) [
      | inl quiet ↦
          rw (quiet, publish_interim)
            (transfer s (record s { turns = put turn.ref turn s.turns }) r refl
              (λ t.
                owed-put_same s.provider_id s.generation t turn.ref turn w s.turns held same named)
              (text-put turn.ref turn s.turns text r.text_lem))
      | inr due ↦
          rw (due, publish_interim)
            (record {
              owed_lem = λ t h. ground (
                arith,
                r.owed_lem t,
                owed-put_shown s.provider_id s.generation t turn.ref (shown s turn now) w s.turns
                    held refl named,
              );
              text_lem = ground (
                arith,
                text-put turn.ref (shown s turn now) s.turns (λ _. ground arith) r.text_lem,
              );
            })
    ]

close_known-RowsOwed :
    (s : Stream) (key : String) (turn : OpenTurn) (text : String) (words : List Word)
    (at to : Option ℤ)
    → RowsOwed s
    → lookup key s.turns ≡ some turn
    → RowsOwed (close_known s key turn text words at to)
unfolding close_known emit note_closed awaits
close_known-RowsOwed s key turn text words at to r held = record {
  owed_lem = λ t h. ground (
    arith,
    r.owed_lem t,
    owed-remove s.provider_id s.generation t key turn s.turns held,
    text-lookup key turn s.turns r.text_lem held,
  );
  text_lem = ground (arith, text-remove key s.turns r.text_lem);
}

close_unknown-RowsOwed :
    (s : Stream) (key text : String) (words : List Word) (at to : Option ℤ)
    → RowsOwed s
    → RowsOwed (close_unknown s key text words at to)
unfolding close_unknown emit note_closed awaits
close_unknown-RowsOwed s key text words at to r = record {
  owed_lem = λ t h. ground (arith, r.owed_lem t);
  text_lem = ground arith;
}

close-RowsOwed :
    (s : Stream) (ref text : String) (words : List Word) (at to : Option ℤ)
    → RowsOwed s
    → RowsOwed (close s ref text words at to)
unfolding close
close-RowsOwed s ref text words at to r = elim (Option-cases (lookup (resolve s ref) s.turns)) [
  | inl new ↦ rw (new, close) (close_unknown-RowsOwed s (resolve s ref) text words at to r)
  | inr (turn, old) ↦
      rw (old, close) (close_known-RowsOwed s (resolve s ref) turn text words at to r old)
]

end_turn-RowsOwed :
    (s : Stream) (ref : String) (end : ℤ) → RowsOwed s → RowsOwed (end_turn s ref end)
unfolding end_turn
end_turn-RowsOwed s ref end r = elim (Option-cases (lookup (resolve s ref) s.turns)) [
  | inl new ↦ rw (new, end_turn) (transfer s _ r refl (λ t. refl) r.text_lem)
  | inr (turn, old) ↦
      let turn' = record turn { end = some end } in
      rw (old, end_turn)
        (transfer s _ r refl
          (λ t.
            owed-put_same s.provider_id s.generation t (resolve s ref) turn' turn s.turns old refl
              refl)
          (text-put (resolve s ref) turn' s.turns
            (text-lookup (resolve s ref) turn s.turns r.text_lem old) r.text_lem))
]

-- A partial that restates its turn's text states some. (An increment may be empty.)
abbrev pub Restates : StreamSignal → Type 0
Restates (turn_partial text ref append) = (append || not (is_blank text)) ≡ true
Restates _ = Unit

restated :
    (old text : String) (append : Bool) {shown : Bool}
    → (append || not (is_blank text)) ≡ true
    → (shown ≡ true → is_blank old ≡ false)
    → shown ≡ true
    → is_blank (if append then concat old text else text) ≡ false
restated old text true q h e = concat_nonblank old text (h e)
restated old text false q h e = ground (arith, q)

pub apply-RowsOwed :
    (s : Stream) (now : ℤ) (signal : StreamSignal) (s' : Stream)
    → IsValid s
    → RowsOwed s
    → Restates signal
    → apply s now signal ≡ some s'
    → RowsOwed s'
unfolding apply
apply-RowsOwed s now stream_alive s' v r q e = subst RowsOwed (ground arith) r
apply-RowsOwed s now (turn_started at ref) s' v r q e =
    let (turn, s2, opened, w, held, how) = open_turn-IsValid s ref (clock s at) v in
    subst RowsOwed (ground (arith, opened)) (Opening-RowsOwed (resolve s ref) (clock s at) how r)
apply-RowsOwed s now (turn_partial text ref append) s' v r q e =
    elim (Bool-cases (is_closed s ref)) [
      | inl late ↦ subst RowsOwed (ground arith) r
      | inr live ↦
          let (turn, s2, opened, w, held, how) = open_turn-IsValid s ref (clock s none) v in
          let r2 = Opening-RowsOwed (resolve s ref) (clock s none) how r in
          let turn' : OpenTurn = record turn {
            text = if append then concat turn.text text else text;
          } in
          subst RowsOwed (ground (arith, opened)) (
            publish_interim-RowsOwed s2 turn' turn now r2 held refl refl (
              restated turn.text text append q
                (text-lookup turn.ref turn s2.turns r2.text_lem held)))
    ]
apply-RowsOwed s now (turn_ended at ref) s' v r q e =
    subst RowsOwed (ground arith) (end_turn-RowsOwed s ref (clock s at) r)
apply-RowsOwed s now (turn_final text ref words at to) s' v r q e =
    subst RowsOwed (ground arith) (close-RowsOwed s ref text words at to r)
