-- ===== src/Prelude/Text.antt =====
-- Python's `str` as native strings: equality and its law, concatenation, and decimal printing.
use Prim.Native.Nat.{ℕ, zero, suc, ◌+◌, ◌/◌, ◌%◌}
use Prim.Native.Char.{Char, code}
use Prim.Native.String.{String, [], ◌∷◌}
use Prim.Native.String
use mathlib.Core.Bool.{Bool, true, false, ◌&&◌, ◌||◌}
use mathlib.Core.Path.{◌≡◌}
pub use text.Mathlib.Text.{starts_with}
use text.Mathlib.Text.{◌==◌ as text_eq}
use text.Mathlib.TextEquality.{eq_iff}
use text.Mathlib.TextPositions.{eq_refl}
use text.Mathlib.TextLemmas.{append-eq-nil_iff}
use mathlib.Core.Logic.{◌≢◌, inl, inr}
use loreline.Prelude.Tests.{ltb, leb, ◌==◌, if◌then◌else◌, Bool-cases}

abbrev pub str_eq : String → String → Bool
str_eq s t = text_eq s t

pub str_eq→eq : (s t : String) → str_eq s t ≡ true → s ≡ t
str_eq→eq s t h = (eq_iff s t).0 h

pub str_eq_refl : (s : String) → str_eq s s ≡ true
str_eq_refl s = eq_refl s

pub str_eq_of_ne : (s t : String) → s ≢ t → str_eq s t ≡ false
str_eq_of_ne s t h = elim (Bool-cases (str_eq s t)) [
  | inl same ↦ absurd (h (str_eq→eq s t same))
  | inr other ↦ other
]

pub String-discrete : Discrete String
String-discrete s t = elim (Bool-cases (str_eq s t)) [
  | inl same ↦ yes (str_eq→eq s t same)
  | inr other ↦ no (λ e. let same : str_eq s t ≡ true = (eq_iff s t).1 e in cc)
]

-- `bool(text)`
abbrev pub is_blank : String → Bool
is_blank s = str_eq s ""

-- `str.isspace` of one character, by its code point.
unfoldable pub is_space : ℕ → Bool
is_space c =
    (leb 9 c && leb c 13)
    || (leb 28 c && leb c 32)
    || c == 133
    || c == 160
    || c == 5760
    || (leb 8192 c && leb c 8202)
    || c == 8232
    || c == 8233
    || c == 8239
    || c == 8287
    || c == 12288

abbrev strip_front : String → String
strip_front [] = []
strip_front (c ∷ s) = if is_space (code c) then strip_front s else c ∷ s

abbrev or_end : Char → String → Bool → String
or_end c [] true = []
or_end c [] false = c ∷ []
or_end c (d ∷ s) blank = c ∷ d ∷ s

abbrev strip_back : String → String
strip_back [] = []
strip_back (c ∷ s) = or_end c (strip_back s) (is_space (code c))

-- `text.strip()`
unfoldable pub strip_text : String → String
unfolding is_space
strip_text s = strip_back (strip_front s)

abbrev pub concat : String → String → String
concat s t = String.◌++◌ s t

abbrev digit : ℕ → String
digit n = String.slice "0123456789" n (n + 1)

digits : ℕ → ℕ → String → String
digits zero n acc = acc
digits (suc fuel) n acc =
    let rest = digits fuel (n / 10) (concat (digit (n % 10)) acc) in
    if ltb n 10 then concat (digit n) acc else rest

-- `str(n)`; a number has fewer digits than its successor, so the fuel is enough.
unfoldable pub show_nat : ℕ → String
unfolding digits
show_nat n = digits (suc n) n ""

pub concat_nonblank : (s t : String) → is_blank s ≡ false → is_blank (concat s t) ≡ false
concat_nonblank s t h = elim (Bool-cases (is_blank (concat s t))) [
  | inl blank ↦
      let parts = append-eq-nil_iff.0 ((eq_iff (concat s t) "").0 blank) in
      cc ((eq_iff s "").1 parts.0)
  | inr full ↦ full
]
