-- ===== src/Export/Spans.antt =====
-- src/loreline/export.py: a row's words and where they sit, in its text and in time. Instants are whole microseconds; a text is the list of its
-- code points, which is what Python's offsets count.
use loreline.Prelude.{
  ℕ, suc, ◌+◌, ◌-◌, ◌==◌, Bool, true, false, ◌&&◌, ◌||◌, Option, none, some, List, [], ◌∷◌,
  is_space, if◌then◌else◌, length, take, drop, is_nil,
}
use loreline.Prelude.Int.{ℤ, pos, ◌+ℤ◌, ◌-ℤ◌, ltb_ℤ}

abbrev pub Text : Type 0
Text = List ℕ

-- What the subtitles use of a TranscriptEvent.
pub record RowWord : Type 0 where
  pub text : Text
  pub start : ℤ
  pub end : ℤ

pub record Row : Type 0 where
  pub text : Text
  pub speaker : Option Text
  pub words : List RowWord
  pub start_ts : ℤ
  pub end_ts : ℤ

pub record Cue : Type 0 where
  pub start : ℤ
  pub end : ℤ
  pub text : Text

pub record Token : Type 0 where
  pub char_start : ℕ
  pub char_end : ℕ
  pub start : ℤ
  pub end : ℤ

abbrev pub max_cue_chars : ℕ
max_cue_chars = 84

abbrev pub max_cue : ℤ
max_cue = pos 7000000

abbrev pub min_cue : ℤ
min_cue = pos 100000

abbrev pub min_cue_chars : ℕ
min_cue_chars = 24

abbrev pub word_slack : ℤ
word_slack = pos 500000

-- `text[a:b]`
abbrev pub slice : Text → ℕ → ℕ → Text
slice text a b = take (b - a) (drop a text)

abbrev pub starts_with : Text → Text → Bool
starts_with text [] = true
starts_with [] (c ∷ token) = false
starts_with (d ∷ text) (c ∷ token) = d == c && starts_with text token

-- `text.find(token)`, counted from `at`.
abbrev pub find_at : Text → Text → ℕ → Option ℕ
find_at [] token at = if starts_with [] token then some at else none
find_at (c ∷ text) token at =
    if starts_with (c ∷ text) token then some at else find_at text token (suc at)

abbrev pub find : Text → Text → ℕ → Option ℕ
find text token cursor = find_at (drop cursor text) token cursor

-- `text.strip()`
abbrev pub lstrip : Text → Text
lstrip [] = []
lstrip (c ∷ text) = if is_space c then lstrip text else c ∷ text

abbrev pub or_char : ℕ → Text → Bool → Text
or_char c [] true = []
or_char c [] false = c ∷ []
or_char c (d ∷ text) blank = c ∷ d ∷ text

abbrev pub rstrip : (ℕ → Bool) → Text → Text
rstrip drops [] = []
rstrip drops (c ∷ text) = or_char c (rstrip drops text) (drops c)

abbrev pub strip : Text → Text
strip text = rstrip is_space (lstrip text)

-- `_word_spans`, before the clocks are compared: none where a word is not found.
abbrev pub found_spans : (ℕ → Option (List Token)) → RowWord → ℕ → Option ℕ → Option (List Token)
found_spans loop word size none = none
found_spans loop word size (some at) = elim (loop (at + size)) [
  | none ↦ none
  | some spans ↦
      some (
        record { char_start = at; char_end = at + size; start = word.start; end = word.end }
        ∷ spans)
]

unfoldable pub align : Text → List RowWord → ℕ → Option (List Token)
unfolding is_space
align text [] cursor = some []
align text (word ∷ words) cursor =
    let token = strip word.text in
    if is_nil token
    then align text words cursor
    else found_spans (align text words) word (length token) (find text token cursor)

abbrev pub last_end : Token → List Token → ℤ
last_end span [] = span.end
last_end span (next ∷ spans) = last_end next spans

abbrev pub own_clock : Row → Option (List Token) → List Token
own_clock row none = []
own_clock row (some []) = []
own_clock row (some (span ∷ spans)) =
    if ltb_ℤ span.start (row.start_ts -ℤ word_slack)
      || ltb_ℤ (row.end_ts +ℤ word_slack) (last_end span spans)
    then []
    else span ∷ spans

unfoldable pub word_spans : Row → List Token
unfolding align
word_spans row = own_clock row (align row.text row.words 0)
