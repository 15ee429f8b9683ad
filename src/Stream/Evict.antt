-- ===== src/Stream/Evict.antt =====
-- src/loreline/stt/streaming.py, `_evict_oldest` and the loop of `_open` around it.
use loreline.Prelude.{
  ℕ, zero, suc, ◌≤◌, String, ◌≡◌, refl, ap, ◌∙◌, sym, subst, false, some, List, [], ◌∷◌, ◌++◌,
  arith, ltb, ◌<◌, length, str_eq, str_eq_refl, Bool-cases, ◌⊎◌, inl, inr, eq_iff,
}
use loreline.Prelude.Dict.{Dict, Distinct, mem, lookup, remove, mem-append}
use loreline.Stream.Books.{
  IsBooked, IsValid, KeyedByRef, emit_settled-IsBooked, note_closed-IsBooked,
}
use loreline.Stream.Model.{OpenTurn, Stream, max_open_turns}
use loreline.Stream.Turns.{emit, emit_settled, note_closed, evict, evict_oldest, evict_over}

-- Dropping the oldest turn and its place in the order keeps the books.
drop_oldest-IsBooked :
    {limit : ℕ} (s : Stream) (j k : String) (o : List String) (turn : OpenTurn) (d : Dict OpenTurn)
    → IsBooked (suc limit) s
    → s.order ≡ j ∷ k ∷ o
    → s.turns ≡ (j, turn) ∷ d
    → IsBooked limit (record s { order = k ∷ o; turns = d })
drop_oldest-IsBooked {limit} s j k o turn d v eo ed = record {
  listed = ground arith;
  distinct = (subst Distinct eo v.distinct).1;
  keyed = (subst KeyedByRef ed v.keyed).1;
  few_turns =
      let h : length (j ∷ k ∷ o) ≤ suc limit = subst (λ l. length l ≤ suc limit) eo v.few_turns in
      omega arith;
  few_ends = v.few_ends;
  few_closed = v.few_closed;
  settled_lem = ground arith;
}

front_lookup :
    (k j : String) (turn : OpenTurn) (d m : Dict OpenTurn)
    → m ≡ (j, turn) ∷ d
    → j ≡ k
    → lookup k m ≡ some turn
unfolding lookup
front_lookup k j turn d m e jk = rw (e, jk, str_eq_refl k)

front_remove :
    (k j : String) (turn : OpenTurn) (d m : Dict OpenTurn)
    → m ≡ (j, turn) ∷ d
    → j ≡ k
    → remove k m ≡ d
unfolding remove
front_remove k j turn d m e jk = rw (e, jk, str_eq_refl k)

order-emit_settled : (s : Stream) (turn : OpenTurn) → (emit_settled s turn).order ≡ s.order
unfolding emit
order-emit_settled s turn = ground arith

order-note_closed : (s : Stream) (key : String) → (note_closed s key).order ≡ s.order
unfolding note_closed
order-note_closed s key = ground arith

turns-emit_settled : (s : Stream) (turn : OpenTurn) → (emit_settled s turn).turns ≡ s.turns
unfolding emit
turns-emit_settled s turn = ground arith

turns-note_closed : (s : Stream) (key : String) → (note_closed s key).turns ≡ s.turns
unfolding note_closed
turns-note_closed s key = ground arith

front_lookup_ne :
    (k j key : String) (turn : OpenTurn) (d m : Dict OpenTurn)
    → m ≡ (j, turn) ∷ d
    → j ≡ k
    → str_eq k key ≡ false
    → lookup key m ≡ lookup key d
unfolding lookup
front_lookup_ne k j key turn d m e jk h = rw (e, jk, h)

abbrev tail : List String → List String
tail [] = []
tail (k ∷ l) = l

abbrev Leads : List String → String → Type 0
Leads [] key = ⊥
Leads (k ∷ l) key = str_eq k key ≡ false

-- What an eviction does: the oldest turn goes, and its row on screen, if any, gets its final.
pub data IsEvicted (s : Stream) : Stream → Type 0 where
  oldest :
      (k : String) (turn : OpenTurn) (d : Dict OpenTurn) (rest : List String)
      → s.turns ≡ (k, turn) ∷ d
      → IsEvicted s (emit_settled (note_closed (record s { order = rest; turns = d }) k) turn)

-- The oldest of `o` is gone, and the other turns are as they were.
record Evicted (s s' : Stream) (o : List String) : Type 0 where
  order_lem : s'.order ≡ tail o
  exact : IsEvicted s s'
  kept : (key : String) → Leads o key → lookup key s'.turns ≡ lookup key s.turns

evict_split :
    {limit : ℕ} (s : Stream) (o : List String) (d : Dict OpenTurn)
    → IsBooked (suc limit) s
    → s.order ≡ o
    → s.turns ≡ d
    → 1 < length o
    → (s' : Stream) × (evict s o ≡ some s') × IsBooked limit s' × Evicted s s' o
unfolding lookup
evict_split s [] d v eo ed h = absurd (omega arith)
evict_split s (k ∷ []) d v eo ed h = absurd (omega arith)
evict_split s (k ∷ l ∷ o) [] v eo ed h = absurd (ground arith)
evict_split s (k ∷ l ∷ o) ((j, turn) ∷ d) v eo ed h =
    let jk : j ≡ k = ground arith in
    let dropped = record s { order = l ∷ o; turns = d } in
    rw (front_lookup k j turn d s.turns ed jk, front_remove k j turn d s.turns ed jk)
      (
        emit_settled (note_closed dropped k) turn,
        refl,
        emit_settled-IsBooked (note_closed dropped k) turn
            (note_closed-IsBooked dropped k (drop_oldest-IsBooked s j l o turn d v (rw jk eo) ed)),
        record {
          order_lem = order-emit_settled (note_closed dropped k) turn ∙ order-note_closed dropped k;
          exact = oldest k turn d (l ∷ o) (rw (← jk) ed);
          kept = λ key other.
              ap (lookup key)
                (turns-emit_settled (note_closed dropped k) turn ∙ turns-note_closed dropped k)
              ∙ sym (front_lookup_ne k j key turn d s.turns ed jk other);
        },
      )

rebound :
    {limit bound : ℕ} (s : Stream) → IsBooked limit s → length s.order ≤ bound → IsBooked bound s
rebound s v h = record {
  listed = v.listed;
  distinct = v.distinct;
  keyed = v.keyed;
  few_turns = h;
  few_ends = v.few_ends;
  few_closed = v.few_closed;
  settled_lem = v.settled_lem;
}

evict_over_fits :
    (fuel : ℕ) (s : Stream) → length s.order ≤ max_open_turns → evict_over fuel s ≡ some s
unfolding evict_over
evict_over_fits zero s h = refl
evict_over_fits (suc fuel) s h = ground arith

Leads-of_Distinct :
    (o : List String) (key : String)
    → Distinct (o ++ key ∷ [])
    → 1 < length (o ++ key ∷ [])
    → Leads (o ++ key ∷ []) key
unfolding mem
Leads-of_Distinct [] key d h = absurd (omega arith)
Leads-of_Distinct (k ∷ o) key d h =
    ground (arith, mem-append k o (key ∷ []), eq_iff k key, eq_iff key k, d.0)

-- The evictions after an opening bring the order back under the bound and keep the new turn.
pub evict_over-IsValid :
    (fuel : ℕ) (s : Stream) (o : List String) (key : String)
    → IsBooked (suc max_open_turns) s
    → s.order ≡ o ++ key ∷ []
    → (s' : Stream) × (evict_over (suc fuel) s ≡ some s')
      × IsValid s'
      × (lookup key s'.turns ≡ lookup key s.turns)
      × ((s' ≡ s) ⊎ IsEvicted s s')
unfolding evict_over evict_oldest
evict_over-IsValid fuel s o key v e = elim (Bool-cases (ltb max_open_turns (length s.order))) [
  | inl over ↦
      let many : 1 < length s.order = ground arith in
      let (s', evicted, w, gone) = evict_split s s.order s.turns v refl refl many in
      let leads : Leads s.order key =
        subst (λ l. Leads l key) (sym e)
          (Leads-of_Distinct o key (subst Distinct e v.distinct)
            (subst (λ l. 1 < length l) e many)) in
      rw (over, evicted)
        (s', evict_over_fits fuel s' w.few_turns, w, gone.kept key leads, inr gone.exact)
  | inr fits ↦ rw fits (s, refl, rebound s v (ground arith), refl, inl refl)
]
