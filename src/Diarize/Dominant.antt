-- ===== src/Diarize/Dominant.antt =====
-- src/loreline/diarization/merge.py: the choices of `_speaker_for` and `_dominant_speaker`, against the
-- time of each speaker.
use loreline.Prelude.{
  ℕ, ◌+◌, ◌≤◌, String, ◌≡◌, ◌∙◌, refl, sym, ap, subst, true, false, Option, none, some, List, [],
  ◌∷◌, ◌++◌, arith, ltb, ◌==◌, if◌then◌else◌, str_eq, str_eq_refl, eq_iff, Bool-cases, Option-cases,
  inl, inr,
}
use loreline.Prelude.Int.{ℤ, ◌-ℤ◌}
use loreline.Prelude.Dict.{
  Dict, lookup, put, keys, mem, Distinct, Distinct-snoc, has-mem-keys, keys-put, lookup-put,
}
use mathlib.Core.Option.{some-injective}
use loreline.Transcript.{Word}
use loreline.Diarize.Merge.{
  SpeakerSegment, at_least_zero, overlap, total_of, add_time, totals_from, best_from, longest,
  speaker_for, durations_from, dominant_speaker,
}

-- What a speaker holds of a span, over all the segments.
pub time_of : String → ℤ → ℤ → List SpeakerSegment → ℕ
time_of speaker start end [] = 0
time_of speaker start end (s ∷ rest) =
    (if str_eq s.speaker speaker then overlap start end s else 0) + time_of speaker start end rest

-- What a speaker holds of the words.
pub spoken_by : String → List Word → ℕ
spoken_by speaker [] = 0
spoken_by speaker (w ∷ rest) =
    elim w.speaker [
      | none ↦ 0
      | some k ↦ if str_eq k speaker then at_least_zero (w.end -ℤ w.start) else 0
    ]
    + spoken_by speaker rest

total-add_time :
    (k j : String) (time : ℕ) (d : Dict ℕ)
    → total_of j (add_time k time d) ≡ total_of j d + (if str_eq k j then time else 0)
unfolding add_time
total-add_time k j time d = ground (arith, lookup-put k j (total_of k d + time) d, eq_iff k j)

total-totals_from :
    (j : String) (start end : ℤ) (d : Dict ℕ) (segments : List SpeakerSegment)
    → total_of j (totals_from start end d segments) ≡ total_of j d + time_of j start end segments
unfolding totals_from time_of
total-totals_from j start end d [] = omega arith
total-totals_from j start end d (s ∷ rest) = elim (Bool-cases (overlap start end s == 0)) [
  | inl zero ↦ rw zero (ground (arith, total-totals_from j start end d rest))
  | inr more ↦ rw more (
      ground (
        arith,
        total-totals_from j start end (add_time s.speaker (overlap start end s) d) rest,
        total-add_time s.speaker j (overlap start end s) d,
      ))
]

Distinct-put :
    {V : Type 0} (k : String) (v : V) (d : Dict V) → Distinct (keys d) → Distinct (keys (put k v d))
Distinct-put k v d h = elim (Option-cases (lookup k d)) [
  | inl new ↦
      let e : keys (put k v d) ≡ keys d ++ k ∷ [] = ground (arith, keys-put k v d) in
      subst Distinct (sym e) (Distinct-snoc (keys d) k h (ground (arith, has-mem-keys k d)))
  | inr (w, old) ↦
      let e : keys (put k v d) ≡ keys d = ground (arith, keys-put k v d) in subst Distinct (sym e) h
]

totals-Distinct :
    (start end : ℤ) (d : Dict ℕ) (segments : List SpeakerSegment)
    → Distinct (keys d)
    → Distinct (keys (totals_from start end d segments))
unfolding totals_from add_time
totals-Distinct start end d [] h = h
totals-Distinct start end d (s ∷ rest) h = elim (Bool-cases (overlap start end s == 0)) [
  | inl zero ↦ rw zero (totals-Distinct start end d rest h)
  | inr more ↦ rw more (
      totals-Distinct start end (add_time s.speaker (overlap start end s) d) rest
        (Distinct-put s.speaker (total_of s.speaker d + overlap start end s) d h))
]

durations-Distinct :
    (d : Dict ℕ) (words : List Word) → Distinct (keys d) → Distinct (keys (durations_from d words))
unfolding durations_from add_time
durations-Distinct d [] h = h
durations-Distinct d (w ∷ rest) h = elim (Option-cases w.speaker) [
  | inl nobody ↦ rw nobody (durations-Distinct d rest h)
  | inr (k, said) ↦ rw said (
      durations-Distinct (put k (total_of k d + at_least_zero (w.end -ℤ w.start)) d) rest
        (Distinct-put k _ d h))
]

total-durations_from :
    (j : String) (d : Dict ℕ) (words : List Word)
    → total_of j (durations_from d words) ≡ total_of j d + spoken_by j words
unfolding durations_from spoken_by
total-durations_from j d [] = omega arith
total-durations_from j d (w ∷ rest) = elim (Option-cases w.speaker) [
  | inl nobody ↦ rw nobody (ground (arith, total-durations_from j d rest))
  | inr (k, said) ↦ rw said (
      ground (
        arith,
        total-durations_from j (add_time k (at_least_zero (w.end -ℤ w.start)) d) rest,
        total-add_time k j (at_least_zero (w.end -ℤ w.start)) d,
      ))
]

-- No entry is larger than the best.
best-most :
    (b : String × ℕ) (d : Dict ℕ) (j : String)
    → (b.1 ≤ (best_from b d).1) × (total_of j d ≤ (best_from b d).1)
unfolding best_from lookup
best-most b [] j = omega arith
best-most b ((k, v) ∷ rest) j = ground (arith, best-most b rest j, best-most (k, v) rest j)

mem-best : (b : String × ℕ) (d : Dict ℕ) → mem (best_from b d).0 (keys (b ∷ d)) ≡ true
unfolding best_from mem
mem-best b [] = rw str_eq_refl
mem-best b ((k, v) ∷ rest) = ground (arith, mem-best b rest, mem-best (k, v) rest)

apart_of_mem :
    (a b : String) (l : List String) → mem a l ≡ false → mem b l ≡ true → str_eq a b ≡ false
apart_of_mem a b l out in_l = ground (arith, eq_iff a b)

skip_first :
    (x : String) (b : String × ℕ) (d : Dict ℕ)
    → str_eq b.0 x ≡ false
    → lookup x (b ∷ d) ≡ lookup x d
unfolding lookup
skip_first x b d h = rw h

skip_second :
    (x : String) (b c : String × ℕ) (d : Dict ℕ)
    → (str_eq b.0 x ≡ false → str_eq c.0 x ≡ false)
    → lookup x (b ∷ c ∷ d) ≡ lookup x (b ∷ d)
unfolding lookup
skip_second x b c d h = ground (arith, h)

-- The best entry is the one that its key finds.
best-lookup :
    (b : String × ℕ) (d : Dict ℕ)
    → Distinct (keys (b ∷ d))
    → lookup (best_from b d).0 (b ∷ d) ≡ some (best_from b d).1
unfolding mem
best-lookup b [] h = unfold lookup best_from in rw str_eq_refl
best-lookup b ((k, v) ∷ rest) h = elim (Bool-cases (ltb b.1 v)) [
  | inl over ↦
      let r = best_from (k, v) rest in
      let same : best_from b ((k, v) ∷ rest) ≡ r = unfold best_from in rw over in
      rw same (
        skip_first r.0 b ((k, v) ∷ rest)
          (apart_of_mem b.0 r.0 (k ∷ keys rest) h.0 (mem-best (k, v) rest))
        ∙ best-lookup (k, v) rest h.1)
  | inr under ↦
      let r = best_from b rest in
      let same : best_from b ((k, v) ∷ rest) ≡ r = unfold best_from in rw under in
      let apart : mem b.0 (keys rest) ≡ false = ground (arith, h.0) in
      rw same (
        skip_second r.0 b (k, v) rest
          (λ other. apart_of_mem k r.0 (keys rest) h.1.0 (ground (arith, mem-best b rest)))
        ∙ best-lookup b rest (apart, h.1.1))
]

-- The choice: nobody where there is no entry, and else a key whose total no other key's passes.
longest_most :
    (d : Dict ℕ)
    → Distinct (keys d)
    → (longest d ≡ none → d ≡ [])
      × ((k j : String) → longest d ≡ some k → total_of j d ≤ total_of k d)
unfolding lookup
longest_most [] h = (λ _. refl, λ k j e. cc)
longest_most (b ∷ d) h =
    (λ e. cc, λ k j e. ground (arith, best-lookup b d h, best-most b d j, some-injective e))

total_of_nil : (j : String) → total_of j [] ≡ 0
unfolding lookup
total_of_nil j = refl

-- `_speaker_for` names a speaker whose segments cover the most of the span in total.
pub speaker_for_is_longest :
    (start end : ℤ) (segments : List SpeakerSegment) (k j : String)
    → speaker_for start end segments ≡ some k
    → time_of j start end segments ≤ time_of k start end segments
unfolding speaker_for
speaker_for_is_longest start end segments k j e =
    let d = totals_from start end [] segments in
    let (empty, most) = longest_most d (totals-Distinct start end [] segments tt) in
    omega (
      arith,
      most k j e,
      total-totals_from j start end [] segments,
      total-totals_from k start end [] segments,
      total_of_nil j,
      total_of_nil k,
    )

-- Where `_speaker_for` names nobody, no speaker covers any of the span.
pub speaker_for_names_nobody :
    (start end : ℤ) (segments : List SpeakerSegment) (j : String)
    → speaker_for start end segments ≡ none
    → time_of j start end segments ≡ 0
unfolding speaker_for
speaker_for_names_nobody start end segments j e =
    let d = totals_from start end [] segments in
    let (empty, most) = longest_most d (totals-Distinct start end [] segments tt) in
    omega
      (arith, total-totals_from j start end [] segments, ap (total_of j) (empty e), total_of_nil j)

-- `_dominant_speaker` names a speaker who spoke the words for the longest in total.
pub dominant_speaker_is_longest :
    (words : List Word) (k j : String)
    → dominant_speaker words ≡ some k
    → spoken_by j words ≤ spoken_by k words
unfolding dominant_speaker
dominant_speaker_is_longest words k j e =
    let (empty, most) = longest_most (durations_from [] words) (durations-Distinct [] words tt) in
    omega (
      arith,
      most k j e,
      total-durations_from j [] words,
      total-durations_from k [] words,
      total_of_nil j,
      total_of_nil k,
    )

-- Who is named for a span against another speaker: the one covers at least as much of it, and where nobody
-- is named the other covers nothing.
abbrev pub IsMost : ℤ → ℤ → List SpeakerSegment → String → Option String → Type 0
IsMost start end segments j none = time_of j start end segments ≡ 0
IsMost start end segments j (some k) = time_of j start end segments ≤ time_of k start end segments

-- `_speaker_for` names a speaker whose segments cover the most of the span in total, and nobody only where
-- no speaker covers any of it.
pub speaker_for-IsMost :
    (start end : ℤ) (segments : List SpeakerSegment) (j : String)
    → IsMost start end segments j (speaker_for start end segments)
speaker_for-IsMost start end segments j = elim (Option-cases (speaker_for start end segments)) [
  | inl nobody ↦
      subst (IsMost start end segments j) (sym nobody)
        (speaker_for_names_nobody start end segments j nobody)
  | inr (k, named) ↦
      subst (IsMost start end segments j) (sym named)
        (speaker_for_is_longest start end segments k j named)
]
