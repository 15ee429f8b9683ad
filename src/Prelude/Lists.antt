-- ===== src/Prelude/Lists.antt =====
-- Lists measured and cut by native numbers, under the library's names, and Python's `while len`
-- loops over them.
use Prim.Native.Nat.{ℕ, zero, suc, ◌+◌, ◌-◌, ◌≤◌}
use mathlib.Core.Path.{◌≡◌, refl, ap, subst, ◌∙◌}
use mathlib.Core.List.{List, [], ◌∷◌, ◌++◌, Mem, not-mem-nil, eq-or-mem_of_mem-cons}
use mathlib.Core.Bool.{Bool, Bool-set, true, false, ◌||◌}
use mathlib.Core.Logic.{inl, inr}
use mathlib.Core.Logic.Or
use native.Mathlib.Nat.{suc-add}
use native.Mathlib.Omega.{arith}
use loreline.Prelude.Tests.{ltb, if◌then◌else◌, Bool-cases}

module _ {ℓ} {A : Type ℓ} where
  abbrev pub length : List A → ℕ
  length [] = 0
  length (x ∷ xs) = suc (length xs)

  pub length-append : (xs ys : List A) → length (xs ++ ys) ≡ length xs + length ys
  length-append [] ys = omega arith
  length-append (x ∷ xs) ys = omega (arith, length-append xs ys)

  abbrev pub drop : ℕ → List A → List A
  drop zero xs = xs
  drop (suc n) [] = []
  drop (suc n) (x ∷ xs) = drop n xs

  abbrev pub take : ℕ → List A → List A
  take zero xs = []
  take (suc n) [] = []
  take (suc n) (x ∷ xs) = x ∷ take n xs

  pub length-drop : (n : ℕ) (xs : List A) → length (drop n xs) ≡ length xs - n
  length-drop zero xs = omega arith
  length-drop (suc n) [] = omega arith
  length-drop (suc n) (x ∷ xs) = omega (arith, length-drop n xs)

  pub drop-nil : (n : ℕ) → drop n (let e : List A = [] in e) ≡ []
  drop-nil zero = refl
  drop-nil (suc n) = refl

  pub drop-drop : (m n : ℕ) (xs : List A) → drop m (drop n xs) ≡ drop (n + m) xs
  drop-drop m zero xs = ground arith
  drop-drop m (suc n) [] = rw (drop-nil m, drop-nil (suc n + m))
  drop-drop m (suc n) (x ∷ xs) = rw suc-add (drop-drop m n xs)

  -- A bounded queue or ring that drops its oldest entries: what is left of `xs`.
  abbrev pub keep_last : ℕ → List A → List A
  keep_last n xs = drop (length xs - n) xs

  -- `while len(xs) > limit: drop the first`
  unfoldable pub trim : ℕ → List A → List A
  trim limit [] = []
  trim limit (x ∷ xs) =
      let rest = trim limit xs in if ltb limit (suc (length xs)) then rest else x ∷ xs

  pub length-trim-le : (limit : ℕ) (xs : List A) → length (trim limit xs) ≤ limit
  unfolding trim
  length-trim-le limit [] = omega arith
  length-trim-le limit (x ∷ xs) = ground (arith, length-trim-le limit xs)

  pub trim_of_length-le : (limit : ℕ) (xs : List A) → length xs ≤ limit → trim limit xs ≡ xs
  unfolding trim
  trim_of_length-le limit [] h = refl
  trim_of_length-le limit (x ∷ xs) h = ground arith

  abbrev pub is_nil : List A → Bool
  is_nil [] = true
  is_nil (x ∷ xs) = false

  -- `[x for x in xs if p(x)]` and `any(p(x) for x in xs)`
  abbrev pub select : (A → Bool) → List A → List A
  select p [] = []
  select p (x ∷ xs) = if p x then x ∷ select p xs else select p xs

  abbrev pub any : (A → Bool) → List A → Bool
  any p [] = false
  any p (x ∷ xs) = p x || any p xs

  -- A listed value that is selected passes the test.
  pub mem-select : (p : A → Bool) (xs : List A) {x : A} → Mem x (select p xs) → p x ≡ true
  mem-select p [] m = absurd (not-mem-nil m)
  mem-select p (y ∷ ys) {x} m = elim (Bool-cases (p y)) [
    | inl h ↦
        let m' : Mem x (y ∷ select p ys) =
          subst (λ b. Mem x (if b then y ∷ select p ys else select p ys)) h m in
        Or.elim (Bool-set (p x) true) (eq-or-mem_of_mem-cons m') (λ e. ap p e ∙ h)
          (λ m. mem-select p ys m)
    | inr h ↦ mem-select p ys (subst (λ b. Mem x (if b then y ∷ select p ys else select p ys)) h m)
  ]
