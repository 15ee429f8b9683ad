-- ===== src/Bus/Delivery.antt =====
-- src/loreline/bus.py: what a subscriber's queue holds after any publications.
use loreline.Prelude.{
  ℕ, zero, suc, ◌+◌, ◌-◌, ◌≤◌, ◌<◌, ◌≡◌, refl, sym, ap, ap₂, ◌∙◌, Bool, true, false, ◌&&◌, List, [],
  ◌∷◌, ◌++◌, map, arith, leb, ltb, if◌then◌else◌, length, length-append, length-drop, drop,
  drop-drop, keep_last, Bool-cases, inl, inr,
}
use mathlib.Core.List.{append-nil, append_assoc, map-id, map-map}
use loreline.Bus.Model.{
  Entry, item, Subscriber, EventBus, is_full, drop_oldest, put, deliver, publish,
}

module _ {ℓ} {A : Type ℓ} where
  drop-append : (n : ℕ) (xs ys : List A) → n ≤ length xs → drop n (xs ++ ys) ≡ drop n xs ++ ys
  drop-append zero xs ys h = refl
  drop-append (suc n) [] ys h = ground (arith, h)
  drop-append (suc n) (x ∷ xs) ys h = drop-append n xs ys (omega (arith, h))

  -- What is left of `xs` in a queue of this bound, where 0 is no bound.
  abbrev pub keep_newest : ℕ → List A → List A
  keep_newest zero xs = xs
  keep_newest (suc n) xs = keep_last (suc n) xs

  keep_last-keep_last :
      (n : ℕ) (xs ys : List A) → keep_last n (keep_last n xs ++ ys) ≡ keep_last n (xs ++ ys)
  keep_last-keep_last n xs ys =
      let k = length xs - n in
      let joined = drop-append k xs ys (omega arith) in
      let total = length-append xs ys in
      let left = length-drop k (xs ++ ys) in
      let cuts : k + (length (drop k (xs ++ ys)) - n) ≡ length (xs ++ ys) - n =
        omega (arith, total, left) in
      rw (sym joined)
        (drop-drop (length (drop k (xs ++ ys)) - n) k (xs ++ ys) ∙ ap (λ j. drop j (xs ++ ys)) cuts)

  keep_newest-keep_newest :
      (m : ℕ) (xs ys : List A) → keep_newest m (keep_newest m xs ++ ys) ≡ keep_newest m (xs ++ ys)
  keep_newest-keep_newest zero xs ys = refl
  keep_newest-keep_newest (suc m) xs ys = keep_last-keep_last (suc m) xs ys

  drop_one :
      (xs : List A) (x : A) → 0 < length xs → drop 1 (xs ++ x ∷ []) ≡ drop_oldest xs ++ x ∷ []
  drop_one [] x h = ground (arith, h)
  drop_one (y ∷ xs) x h = refl

  -- Putting in a queue that drops its oldest entry when it is full.
  put_newest :
      (m : ℕ) (xs : List A) (x : A) (b : Bool)
      → (0 < m → length xs ≤ m)
      → (ltb 0 m && leb m (length xs)) ≡ b
      → (if b then drop_oldest xs ++ x ∷ [] else xs ++ x ∷ []) ≡ keep_newest m (xs ++ x ∷ [])
  put_newest zero xs x true h e = ground (arith, e)
  put_newest zero xs x false h e = refl
  put_newest (suc m) xs x true h e =
      let count = length-append xs (x ∷ []) in
      let one : length (xs ++ x ∷ []) - suc m ≡ 1 = ground (arith, e, count, h) in
      rw one (sym (drop_one xs x (ground (arith, e))))
  put_newest (suc m) xs x false h e =
      let count = length-append xs (x ∷ []) in
      let none_over : length (xs ++ x ∷ []) - suc m ≡ 0 = ground (arith, e, count) in
      rw none_over refl

  keep_newest-fits : (m : ℕ) (xs : List A) → (0 < m → length xs ≤ m) → keep_newest m xs ≡ xs
  keep_newest-fits zero xs h = refl
  keep_newest-fits (suc m) xs h =
      let none_over : length xs - suc m ≡ 0 = omega (arith, h (omega arith)) in rw none_over refl

  length-keep_newest : (m : ℕ) (xs : List A) → 0 < m → length (keep_newest m xs) ≤ m
  length-keep_newest zero xs h = ground (arith, h)
  length-keep_newest (suc m) xs h = omega (arith, length-drop (length xs - suc m) xs)

module _ {ℓ} {T : Type ℓ} where
  abbrev pub wanted_of : (T → Bool) → List T → List (Entry T)
  wanted_of wanted [] = []
  wanted_of wanted (x ∷ xs) = if wanted x then item x ∷ wanted_of wanted xs else wanted_of wanted xs

  unfoldable pub publish_all : EventBus T → List T → EventBus T
  unfolding publish
  publish_all b [] = b
  publish_all b (x ∷ xs) = publish_all (publish b x) xs

  deliver_all : List T → Subscriber T → Subscriber T
  unfolding deliver
  deliver_all [] s = s
  deliver_all (x ∷ xs) s = deliver_all xs (deliver x s)

  -- The subscriber with what the bus owes it: of all it wanted, in order, the newest its queue holds.
  abbrev pub owed : List T → Subscriber T → Subscriber T
  owed xs s = record s { queue = keep_newest s.maxsize (s.queue ++ wanted_of s.wanted xs) }

  abbrev pub Fits : Subscriber T → Type 0
  Fits s = 0 < s.maxsize → length s.queue ≤ s.maxsize

  put_lem :
      (s : Subscriber T) (e : Entry T)
      → Fits s
      → put s e ≡ record s { queue = keep_newest s.maxsize (s.queue ++ e ∷ []) }
  unfolding put
  put_lem s e h = elim (Bool-cases (is_full s)) [
    | inl full ↦
        rw full (ap (λ q. record s { queue = q }) (put_newest s.maxsize s.queue e true h full))
    | inr room ↦
        rw room (ap (λ q. record s { queue = q }) (put_newest s.maxsize s.queue e false h room))
  ]

  deliver_lem : (x : T) (s : Subscriber T) → Fits s → deliver x s ≡ owed (x ∷ []) s
  unfolding deliver
  deliver_lem x s h = elim (Bool-cases (s.wanted x)) [
    | inl want ↦ rw want (put_lem s (item x) h)
    | inr skip ↦
        rw (skip, append-nil s.queue)
          (ap (λ q. record s { queue = q }) (sym (keep_newest-fits s.maxsize s.queue h)))
  ]

  owed-Fits : (xs : List T) (s : Subscriber T) → Fits (owed xs s)
  owed-Fits xs s h = length-keep_newest s.maxsize (s.queue ++ wanted_of s.wanted xs) h

  wanted_of-cons :
      (w : T → Bool) (x : T) (xs : List T)
      → wanted_of w (x ∷ []) ++ wanted_of w xs ≡ wanted_of w (x ∷ xs)
  wanted_of-cons w x xs = elim (Bool-cases (w x)) [ inl want ↦ rw want | inr skip ↦ rw skip ]

  owed-owed : (x : T) (xs : List T) (s : Subscriber T) → owed xs (owed (x ∷ []) s) ≡ owed (x ∷ xs) s
  owed-owed x xs s =
      ap (λ q. record s { queue = q })
        (keep_newest-keep_newest s.maxsize (s.queue ++ wanted_of s.wanted (x ∷ []))
            (wanted_of s.wanted xs)
          ∙ ap (λ q. keep_newest s.maxsize q)
              (append_assoc s.queue (wanted_of s.wanted (x ∷ [])) (wanted_of s.wanted xs)
                ∙ ap (λ q. s.queue ++ q) (wanted_of-cons s.wanted x xs)))

  deliver_all_lem : (xs : List T) (s : Subscriber T) → Fits s → deliver_all xs s ≡ owed xs s
  unfolding deliver_all
  deliver_all_lem [] s h =
      rw (append-nil s.queue)
        (ap (λ q. record s { queue = q }) (sym (keep_newest-fits s.maxsize s.queue h)))
  deliver_all_lem (x ∷ xs) s h =
      ap (deliver_all xs) (deliver_lem x s h)
      ∙ deliver_all_lem xs (owed (x ∷ []) s) (owed-Fits (x ∷ []) s)
      ∙ owed-owed x xs s

  -- No queue holds more than its bound.
  abbrev pub AllFit : List (Subscriber T) → Type 0
  AllFit [] = Unit
  AllFit (s ∷ ss) = Fits s × AllFit ss

  map-deliver_all :
      (xs : List T) (b : EventBus T)
      → (publish_all b xs).subscribers ≡ map (deliver_all xs) b.subscribers
  unfolding publish_all publish deliver_all
  map-deliver_all [] b = sym (map-id b.subscribers)
  map-deliver_all (x ∷ xs) b =
      map-deliver_all xs (publish b x) ∙ map-map (deliver_all xs) (deliver x) b.subscribers

  map-owed :
      (xs : List T) (ss : List (Subscriber T))
      → AllFit ss
      → map (deliver_all xs) ss ≡ map (owed xs) ss
  map-owed xs [] h = refl
  map-owed xs (s ∷ ss) (h, hs) = ap₂ ◌∷◌ (deliver_all_lem xs s h) (map-owed xs ss hs)

-- Whatever is published, each subscriber's queue ends as the newest entries its bound allows of what
-- it held and all it wanted, in order: an unbounded one loses nothing, and none waits for another.
pub publish_all-owed {ℓ} :
    {T : Type ℓ} (b : EventBus T) (xs : List T)
    → AllFit b.subscribers
    → (publish_all b xs).subscribers ≡ map (owed xs) b.subscribers
publish_all-owed b xs h = map-deliver_all xs b ∙ map-owed xs b.subscribers h
