-- ===== src/Export/Cues.antt =====
-- src/loreline/export.py: `subtitle_cues`, from the rows of a transcript to cues that a player can show.
use loreline.Prelude.{
  is_space, ℕ, suc, ◌+◌, ◌-◌, ◌*◌, ◌/◌, min, max, ltb, leb, ◌==◌, Bool, false, ◌||◌, Option, none,
  some, List, [], ◌∷◌, ◌++◌, if◌then◌else◌, length, is_nil,
}
use loreline.Prelude.Int.{ℤ, pos, negsuc, ◌+ℤ◌, ◌-ℤ◌, sub_ℕ, ltb_ℤ}
use loreline.Export.Spans.{
  Text, Row, Cue, Token, max_cue_chars, max_cue, min_cue_chars, slice, rstrip, last_end, word_spans,
}

abbrev scale : ℤ → ℕ → ℕ → ℤ
scale (pos n) offset size = pos (n * offset / size)
scale (negsuc n) offset size = sub_ℕ 0 (suc n * offset / size)

-- `_lerp`, to a whole microsecond.
unfoldable pub lerp : Row → ℕ → ℕ → ℤ
lerp row offset size =
    if size == 0
    then row.start_ts
    else row.start_ts +ℤ scale (row.end_ts -ℤ row.start_ts) (min offset size) size

-- The matches of `\S+`: `from` is where the word being read begins.
unfoldable pub words_in : Text → ℕ → Option ℕ → List (ℕ × ℕ)
unfolding is_space
words_in [] at none = []
words_in [] at (some from) = (from, at) ∷ []
words_in (c ∷ text) at none = words_in text (suc at) (if is_space c then none else some at)
words_in (c ∷ text) at (some from) =
    let rest = words_in text (suc at) (if is_space c then none else some from) in
    if is_space c then (from, at) ∷ rest else rest

abbrev skip_to : ℕ → List Token → List Token
skip_to start [] = []
skip_to start (span ∷ spans) =
    if ltb span.char_start start then skip_to start spans else span ∷ spans

abbrev within : ℕ → List Token → List Token × List Token
within end [] = ([], [])
within end (span ∷ spans) =
    let (taken, rest) = within end spans in
    if leb span.char_end end then (span ∷ taken, rest) else ([], span ∷ spans)

-- The token of one word, and the spans that are left for the next.
abbrev timed : Row → ℕ → ℕ → List Token → List Token × List Token → Token × List Token
timed row start end spans ([], rest) = (
  record {
    char_start = start;
    char_end = end;
    start = lerp row start (length row.text);
    end = lerp row end (length row.text);
  },
  spans,
)
timed row start end spans (first ∷ taken, rest) = (
  record { char_start = start; char_end = end; start = first.start; end = last_end first taken },
  rest,
)

unfoldable pub tokens_from : Row → List (ℕ × ℕ) → List Token → List Token
unfolding lerp
tokens_from row [] spans = []
tokens_from row ((start, end) ∷ words) spans =
    let left = skip_to start spans in
    let (token, spans') = timed row start end left (within end left) in
    token ∷ tokens_from row words spans'

unfoldable pub tokens : Row → List Token
unfolding words_in tokens_from word_spans
tokens row = tokens_from row (words_in row.text 0 none) (word_spans row)

abbrev is_closer : ℕ → Bool
is_closer c =
    c == 34 || c == 39 || c == 41 || c == 93 || c == 125 || c == 187 || c == 8221 || c == 8217

abbrev is_stop : ℕ → Bool
is_stop c = c == 46 || c == 33 || c == 63 || c == 8230

abbrev ends_with : (ℕ → Bool) → Text → Bool
ends_with p [] = false
ends_with p (c ∷ []) = p c
ends_with p (c ∷ d ∷ text) = ends_with p (d ∷ text)

unfoldable pub ends_sentence : Text → Bool
ends_sentence text = ends_with is_stop (rstrip is_closer text)

-- Whether a word would push a run past its budget or past the longest cue.
abbrev pub overflows : ℕ → List Token → Token → Bool
overflows budget [] token = false
overflows budget (first ∷ run) token =
    ltb (budget + first.char_start) token.char_end || ltb_ℤ max_cue (token.end -ℤ first.start)

abbrev pub append_token : Text → List Token → Token → List (List Token) × List Token
append_token text run token =
    if ends_sentence (slice text token.char_start token.char_end)
    then ((run ++ (token ∷ [])) ∷ [], [])
    else ([], run ++ (token ∷ []))

abbrev pub close_run : List Token → List (List Token) × List Token → List (List Token) × List Token
close_run run (closed, next) = (run ∷ closed, next)

-- The runs that a word closes, and the run that is then open.
unfoldable pub add_token : Text → ℕ → List Token → Token → List (List Token) × List Token
unfolding ends_sentence
add_token text budget run token =
    if overflows budget run token
    then close_run run (append_token text [] token)
    else append_token text run token

unfoldable pub pack_from : Text → ℕ → List Token → List Token → List (List Token)
unfolding add_token
pack_from text budget run [] = if is_nil run then [] else run ∷ []
pack_from text budget run (token ∷ rest) =
    let (closed, next) = add_token text budget run token in
    closed ++ pack_from text budget next rest

unfoldable pub pack : List Token → Text → ℕ → List (List Token)
unfolding pack_from
pack tokens text budget = pack_from text budget [] tokens

abbrev pub label_of : Option Text → Text
label_of none = []
label_of (some []) = []
label_of (some (c ∷ name)) = c ∷ name ++ (58 ∷ 32 ∷ [])

abbrev pub budget_of : Row → ℕ
budget_of row = max (max_cue_chars - length (label_of row.speaker)) min_cue_chars

abbrev last_char : Token → List Token → ℕ
last_char token [] = token.char_end
last_char token (next ∷ run) = last_char next run

abbrev pub cue_of : Row → List Token → List Cue
cue_of row [] = []
cue_of row (first ∷ run) =
    record {
      start = first.start;
      end = last_end first run;
      text = label_of row.speaker ++ slice row.text first.char_start (last_char first run);
    }
    ∷ []

abbrev pub concat_map {ℓ κ} : {A : Type ℓ} {B : Type κ} → (A → List B) → List A → List B
concat_map f [] = []
concat_map f (x ∷ xs) = f x ++ concat_map f xs

abbrev pub whole_cue : Row → Cue
whole_cue row = record {
  start = row.start_ts;
  end = row.end_ts;
  text = label_of row.speaker ++ row.text;
}

unfoldable pub cues_for : Row → List Cue
unfolding pack tokens
cues_for row =
    let runs = pack (tokens row) row.text (budget_of row) in
    if leb (length runs) 1 then whole_cue row ∷ [] else concat_map (cue_of row) runs
