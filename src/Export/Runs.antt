-- ===== src/Export/Runs.antt =====
-- src/loreline/export.py: how `_pack` groups the words of a row.
use loreline.Prelude.{
  ◌+◌, ◌≤◌, arith, ℕ, ◌≡◌, ◌≢◌, refl, ap, sym, ◌∙◌, true, false, List, [], ◌∷◌, ◌++◌, if_ind,
}
use mathlib.Core.List.{append-nil, append_assoc}
use loreline.Prelude.Int.{◌-ℤ◌, ◌≤ℤ◌}
use loreline.Export.Spans.{Text, Token, max_cue, slice}
use loreline.Export.Cues.{
  overflows, append_token, close_run, add_token, ends_sentence, pack_from, pack,
}

abbrev pub flatten : List (List Token) → List Token
flatten [] = []
flatten (run ∷ runs) = run ++ flatten runs

flatten-append : (xs ys : List (List Token)) → flatten (xs ++ ys) ≡ flatten xs ++ flatten ys
flatten-append [] ys = refl
flatten-append (x ∷ xs) ys =
    ap (λ l. x ++ l) (flatten-append xs ys) ∙ sym (append_assoc x (flatten xs) (flatten ys))

-- Every word of a run ends at most the budget of characters after the first one begins, and at most the
-- longest cue after it.
abbrev Fits : ℕ → Token → List Token → Type 0
Fits budget first [] = Unit
Fits budget first (token ∷ run) =
    (token.char_end ≤ budget + first.char_start)
    × (token.end -ℤ first.start ≤ℤ max_cue)
    × Fits budget first run

abbrev pub FitsRun : ℕ → List Token → Type 0
FitsRun budget [] = Unit
FitsRun budget (first ∷ run) = Fits budget first run

abbrev pub AllFit : ℕ → List (List Token) → Type 0
AllFit budget [] = Unit
AllFit budget (run ∷ runs) = (run ≢ []) × FitsRun budget run × AllFit budget runs

-- What is closed and what is open are the open run and the new word, in order.
abbrev Adds : ℕ → List Token → Token → List (List Token) × List Token → Type 0
Adds budget run token added =
    (flatten added.0 ++ added.1 ≡ run ++ (token ∷ []))
    × (FitsRun budget run → AllFit budget added.0 × FitsRun budget added.1)

Fits-snoc :
    (budget : ℕ) (first : Token) (run : List Token) (token : Token)
    → Fits budget first run
    → overflows budget (first ∷ []) token ≡ false
    → Fits budget first (run ++ (token ∷ []))
Fits-snoc budget first [] token v h = (ground arith, ground arith, tt)
Fits-snoc budget first (t ∷ run) token v h = (v.0, v.1, Fits-snoc budget first run token v.2 h)

FitsRun-snoc :
    (budget : ℕ) (run : List Token) (token : Token)
    → overflows budget run token ≡ false
    → FitsRun budget run
    → FitsRun budget (run ++ (token ∷ []))
FitsRun-snoc budget [] token h v = tt
FitsRun-snoc budget (first ∷ run) token h v = Fits-snoc budget first run token v h

snoc-ne-nil : (run : List Token) (token : Token) → (run ++ (token ∷ [])) ≢ []
snoc-ne-nil [] token e = cc
snoc-ne-nil (t ∷ run) token e = cc

append-Adds :
    (budget : ℕ) (text : Text) (run : List Token) (token : Token)
    → overflows budget run token ≡ false
    → Adds budget run token (append_token text run token)
append-Adds budget text run token h =
    if_ind (Adds budget run token) (ends_sentence (slice text token.char_start token.char_end))
      (λ _. (
        append-nil _ ∙ append-nil _,
        λ v. ((snoc-ne-nil run token, FitsRun-snoc budget run token h v, tt), tt),
      ))
      (λ _. (refl, λ v. (tt, FitsRun-snoc budget run token h v)))

close-Adds :
    (budget : ℕ) (run : List Token) (token : Token) (added : List (List Token) × List Token)
    → run ≢ []
    → Adds budget [] token added
    → Adds budget run token (close_run run added)
close-Adds budget run token (closed, next) h v = (
  append_assoc run (flatten closed) next ∙ ap (λ l. run ++ l) v.0,
  λ fits. ((h, fits, (v.1 tt).0), (v.1 tt).1),
)

overflows-ne-nil :
    (budget : ℕ) (run : List Token) (token : Token) → overflows budget run token ≡ true → run ≢ []
overflows-ne-nil budget [] token h e = cc
overflows-ne-nil budget (first ∷ run) token h e = cc

add-Adds :
    (budget : ℕ) (text : Text) (run : List Token) (token : Token)
    → Adds budget run token (add_token text budget run token)
unfolding add_token
add-Adds budget text run token =
    if_ind (Adds budget run token) (overflows budget run token)
      (λ h.
        close-Adds budget run token (append_token text [] token)
          (overflows-ne-nil budget run token h) (append-Adds budget text [] token refl))
      (λ h. append-Adds budget text run token h)

AllFit-append :
    (budget : ℕ) (xs ys : List (List Token))
    → AllFit budget xs
    → AllFit budget ys
    → AllFit budget (xs ++ ys)
AllFit-append budget [] ys v w = w
AllFit-append budget (x ∷ xs) ys v w = (v.0, v.1, AllFit-append budget xs ys v.2 w)

pack_from-flatten :
    (text : Text) (budget : ℕ) (run rest : List Token)
    → flatten (pack_from text budget run rest) ≡ run ++ rest
unfolding pack_from
pack_from-flatten text budget [] [] = refl
pack_from-flatten text budget (t ∷ run) [] = refl
pack_from-flatten text budget run (token ∷ rest) =
    let (closed, next) = add_token text budget run token in
    let v = add-Adds budget text run token in
    flatten-append closed (pack_from text budget next rest)
    ∙ ap (λ l. flatten closed ++ l) (pack_from-flatten text budget next rest)
    ∙ sym (append_assoc (flatten closed) next rest)
    ∙ ap (λ l. l ++ rest) v.0
    ∙ append_assoc run (token ∷ []) rest

pack_from-AllFit :
    (text : Text) (budget : ℕ) (run rest : List Token)
    → FitsRun budget run
    → AllFit budget (pack_from text budget run rest)
unfolding pack_from
pack_from-AllFit text budget [] [] v = tt
pack_from-AllFit text budget (t ∷ run) [] v = ((λ e. cc), v, tt)
pack_from-AllFit text budget run (token ∷ rest) v =
    let (closed, next) = add_token text budget run token in
    let w = (add-Adds budget text run token).1 v in
    AllFit-append budget closed (pack_from text budget next rest) w.0
      (pack_from-AllFit text budget next rest w.1)

-- The runs of a row, one after another, are its words in order; none is empty, and each word of a run
-- beyond the first ends at most the budget of characters after the first word begins, and at most the
-- longest cue, 7 s, after its start.
pub pack-flatten :
    (tokens : List Token) (text : Text) (budget : ℕ)
    → (flatten (pack tokens text budget) ≡ tokens) × AllFit budget (pack tokens text budget)
unfolding pack
pack-flatten tokens text budget =
    (pack_from-flatten text budget [] tokens, pack_from-AllFit text budget [] tokens tt)
