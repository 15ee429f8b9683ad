-- ===== src/Prelude/Dict.antt =====
-- Python's `dict` with string keys as an association list in insertion order: an assignment to a
-- key that is there keeps its place, and a new key goes to the end.
use mathlib.Core.Path.{◌≡◌, refl}
use mathlib.Core.Bool.{Bool, true, false, ◌||◌}
use mathlib.Core.Logic.{inl, inr}
use Prim.Native.Nat.{ℕ, suc, ◌≤◌}
use mathlib.Core.Option.{Option, none, some}
use mathlib.Core.List.{List, [], ◌∷◌, ◌++◌, map}
use Prim.Native.String.{String}
use native.Mathlib.Omega.{arith}
use text.Mathlib.TextEquality.{eq_iff}
use loreline.Prelude.Tests.{if◌then◌else◌, Bool-cases, Option-cases}
use loreline.Prelude.Lists.{length, trim, trim_of_length-le}
use loreline.Prelude.Text.{str_eq, str_eq_refl}

abbrev pub Dict {ℓ} : Type ℓ → Type ℓ
Dict V = List (String × V)

-- `list.remove(k)`: the first occurrence. (The program calls it for a member only.)
unfoldable pub list_remove : String → List String → List String
list_remove k [] = []
list_remove k (j ∷ l) = let rest = list_remove k l in if str_eq j k then l else j ∷ rest

unfoldable pub mem : String → List String → Bool
mem k [] = false
mem k (j ∷ l) = if str_eq j k then true else mem k l

-- A list of keys without repetition.
abbrev pub Distinct : List String → Type 0
Distinct [] = Unit
Distinct (k ∷ l) = (mem k l ≡ false) × Distinct l

pub mem-append : (k : String) (l m : List String) → mem k (l ++ m) ≡ (mem k l || mem k m)
unfolding mem
mem-append k [] m = refl
mem-append k (j ∷ l) m = ground (arith, mem-append k l m)

pub Distinct-snoc :
    (l : List String) (k : String) → Distinct l → mem k l ≡ false → Distinct (l ++ k ∷ [])
unfolding mem
Distinct-snoc [] k d h = (refl, tt)
Distinct-snoc (j ∷ l) k d h = (
  ground (arith, mem-append j l (k ∷ []), eq_iff j k, eq_iff k j),
  Distinct-snoc l k d.1 (ground arith),
)

pub mem-list_remove :
    (k j : String) (l : List String) → mem j l ≡ false → mem j (list_remove k l) ≡ false
unfolding mem list_remove
mem-list_remove k j [] h = refl
mem-list_remove k j (i ∷ l) h = ground (arith, mem-list_remove k j l)

pub Distinct-list_remove : (k : String) (l : List String) → Distinct l → Distinct (list_remove k l)
unfolding list_remove
Distinct-list_remove k [] d = tt
Distinct-list_remove k (j ∷ l) d = elim (Bool-cases (str_eq j k)) [
  | inl same ↦ rw same d.1
  | inr other ↦ rw other (mem-list_remove k j l d.0, Distinct-list_remove k l d.1)
]

pub length-list_remove-le : (k : String) (l : List String) → length (list_remove k l) ≤ length l
unfolding list_remove
length-list_remove-le k [] = omega arith
length-list_remove-le k (j ∷ l) = ground (arith, length-list_remove-le k l)

module _ {ℓ} {V : Type ℓ} where
  -- d.get(k)
  unfoldable pub lookup : String → Dict V → Option V
  lookup k [] = none
  lookup k ((j, v) ∷ d) = if str_eq j k then some v else lookup k d

  -- d[k] = v
  unfoldable pub put : String → V → Dict V → Dict V
  put k v [] = (k, v) ∷ []
  put k v ((j, w) ∷ d) = let rest = put k v d in if str_eq j k then (j, v) ∷ d else (j, w) ∷ rest

  -- d.pop(k, None)
  unfoldable pub remove : String → Dict V → Dict V
  remove k [] = []
  remove k ((j, v) ∷ d) = let rest = remove k d in if str_eq j k then d else (j, v) ∷ rest

  abbrev pub keys : Dict V → List String
  keys = map (λ e. e.0)

  abbrev pub values : Dict V → List V
  values = map (λ e. e.1)

  -- `k in d`
  abbrev pub has : String → Dict V → Bool
  has k d = elim (lookup k d) [ none ↦ false | some _ ↦ true ]

  pub has-mem-keys : (k : String) (d : Dict V) → has k d ≡ mem k (keys d)
  unfolding lookup mem
  has-mem-keys k [] = refl
  has-mem-keys k ((j, v) ∷ d) = ground (arith, has-mem-keys k d)

  pub keys-remove : (k : String) (d : Dict V) → keys (remove k d) ≡ list_remove k (keys d)
  unfolding remove list_remove
  keys-remove k [] = refl
  keys-remove k ((j, v) ∷ d) = ground (arith, keys-remove k d)

  pub keys-put :
      (k : String) (v : V) (d : Dict V)
      → keys (put k v d) ≡ (if has k d then keys d else keys d ++ k ∷ [])
  unfolding put lookup
  keys-put k v [] = refl
  keys-put k v ((j, w) ∷ d) = ground (arith, keys-put k v d)

  pub lookup-put :
      (k j : String) (v : V) (d : Dict V)
      → lookup j (put k v d) ≡ (if str_eq k j then some v else lookup j d)
  unfolding put lookup
  lookup-put k j v [] = refl
  lookup-put k j v ((i, w) ∷ d) =
      ground (arith, eq_iff k j, eq_iff i k, eq_iff i j, lookup-put k j v d)

  pub lookup-remove_ne :
      (k j : String) (d : Dict V) → str_eq k j ≡ false → lookup j (remove k d) ≡ lookup j d
  unfolding remove lookup
  lookup-remove_ne k j [] h = refl
  lookup-remove_ne k j ((i, w) ∷ d) h =
      ground (arith, eq_iff k j, eq_iff i k, eq_iff i j, lookup-remove_ne k j d)

  pub length-remove-le : (k : String) (d : Dict V) → length (remove k d) ≤ length d
  unfolding remove
  length-remove-le k [] = omega arith
  length-remove-le k ((j, v) ∷ d) = ground (arith, length-remove-le k d)

  pub lookup-remove_self :
      (k : String) (d : Dict V) → Distinct (keys d) → lookup k (remove k d) ≡ none
  unfolding remove lookup
  lookup-remove_self k [] h = refl
  lookup-remove_self k ((j, v) ∷ d) h =
      ground (arith, eq_iff j k, lookup-remove_self k d h.1, has-mem-keys j d)

  pub put_new : (k : String) (v : V) (d : Dict V) → lookup k d ≡ none → put k v d ≡ d ++ (k, v) ∷ []
  unfolding put lookup
  put_new k v [] h = refl
  put_new k v ((j, w) ∷ d) h = ground (arith, put_new k v d)

  pub lookup-snoc :
      (k : String) (v : V) (d : Dict V) → lookup k d ≡ none → lookup k (d ++ (k, v) ∷ []) ≡ some v
  unfolding lookup
  lookup-snoc k v [] h = rw str_eq_refl
  lookup-snoc k v ((j, w) ∷ d) h = ground (arith, lookup-snoc k v d)

  -- Of the newest entries that a trim keeps, the last written is one.
  pub lookup-trim_snoc :
      (limit : ℕ) (k : String) (v : V) (d : Dict V)
      → lookup k d ≡ none
      → lookup k (trim (suc limit) (d ++ (k, v) ∷ [])) ≡ some v
  unfolding lookup trim
  lookup-trim_snoc limit k v [] h = ground (arith, eq_iff k k)
  lookup-trim_snoc limit k v ((j, w) ∷ d) h =
      ground (arith, lookup-trim_snoc limit k v d, lookup-snoc k v d)

  pub length-put_old :
      (k : String) (v w : V) (d : Dict V) → lookup k d ≡ some w → length (put k v d) ≡ length d
  unfolding put lookup
  length-put_old k v w [] h = cc
  length-put_old k v w ((j, u) ∷ d) h = ground (arith, length-put_old k v w d)

  -- In a book within its bound, what was just written is there after the trim.
  pub lookup-trim-put :
      (limit : ℕ) (k : String) (v : V) (d : Dict V)
      → length d ≤ suc limit
      → lookup k (trim (suc limit) (put k v d)) ≡ some v
  lookup-trim-put limit k v d h = elim (Option-cases (lookup k d)) [
    | inl new ↦ rw (put_new k v d new) (lookup-trim_snoc limit k v d new)
    | inr (w, old) ↦
        rw (trim_of_length-le (suc limit) (put k v d) (omega (arith, length-put_old k v w d old)))
          (rw (lookup-put k k v d, str_eq_refl k))
  ]
