-- ===== src/Backends/Blocks.antt =====
-- src/loreline/stt/backends/assemblyai.py: the audio messages of a connection.
use loreline.Prelude.{
  ℕ, zero, suc, ◌-◌, ◌≤◌, ◌<◌, min, true, false, List, [], ◌∷◌, ◌++◌, if_ind, leb, leb→le, length,
  length-append, take, drop, length-drop, is_nil, ◌≡◌, refl, sym, ap, subst, ◌∙◌, arith,
}
use mathlib.Core.List.{append_assoc, append-nil}
use loreline.Backends.Assembly.{
  Socket, min_bytes, max_bytes, cut_blocks, send_audio, zeros, flush_input,
}

abbrev pub flatten : List (List ℕ) → List ℕ
flatten [] = []
flatten (b ∷ blocks) = b ++ flatten blocks

-- Every block has a length that the endpoint takes.
abbrev pub AllFit : ℕ → ℕ → List (List ℕ) → Type 0
AllFit lo hi [] = Unit
AllFit lo hi (b ∷ blocks) = (lo ≤ length b) × (length b ≤ hi) × AllFit lo hi blocks

flatten-append : (xs ys : List (List ℕ)) → flatten (xs ++ ys) ≡ flatten xs ++ flatten ys
flatten-append [] ys = refl
flatten-append (b ∷ xs) ys =
    ap (λ l. b ++ l) (flatten-append xs ys) ∙ sym (append_assoc b (flatten xs) (flatten ys))

AllFit-append :
    (lo hi : ℕ) (xs ys : List (List ℕ))
    → AllFit lo hi xs
    → AllFit lo hi ys
    → AllFit lo hi (xs ++ ys)
AllFit-append lo hi [] ys v w = w
AllFit-append lo hi (b ∷ xs) ys v w = (v.0, v.1, AllFit-append lo hi xs ys v.2 w)

take-drop : (n : ℕ) (l : List ℕ) → take n l ++ drop n l ≡ l
take-drop zero l = refl
take-drop (suc n) [] = refl
take-drop (suc n) (x ∷ l) = ap (◌∷◌ x) (take-drop n l)

length-take : (n : ℕ) (l : List ℕ) → length (take n l) ≡ min n (length l)
length-take zero l = omega arith
length-take (suc n) [] = omega arith
length-take (suc n) (x ∷ l) = omega (arith, length-take n l)

length-zeros : (n : ℕ) → length (zeros n) ≡ n
length-zeros zero = refl
length-zeros (suc n) = ap suc (length-zeros n)

-- The blocks and the rest of some audio.
abbrev IsCutOf : ℕ → ℕ → List ℕ → List (List ℕ) × List ℕ → Type 0
IsCutOf lo hi audio cut =
    (flatten cut.0 ++ cut.1 ≡ audio) × AllFit lo hi cut.0 × (length cut.1 < lo)

-- The cutting loop, with fuel for every byte.
cut_blocks-IsCutOf :
    (n lo hi : ℕ) (pending : List ℕ)
    → 0 < lo
    → lo ≤ hi
    → length pending ≤ n
    → IsCutOf lo hi pending (cut_blocks n lo hi pending)
unfolding cut_blocks
cut_blocks-IsCutOf zero lo hi pending h k le = (refl, tt, omega (arith, h, le))
cut_blocks-IsCutOf (suc n) lo hi pending h k le =
    let rest =
      cut_blocks-IsCutOf n lo hi (drop hi pending) h k
        (omega (arith, h, k, le, length-drop hi pending)) in
    if_ind (IsCutOf lo hi pending) (leb lo (length pending))
      (λ enough. (
        append_assoc (take hi pending) _ _
            ∙ ap (λ l. take hi pending ++ l) rest.0
            ∙ take-drop hi pending,
        (
          omega (arith, k, leb→le lo (length pending) enough, length-take hi pending),
          omega (arith, length-take hi pending),
          rest.1,
        ),
        rest.2,
      ))
      (λ few. (refl, tt, ground (arith, few)))

-- What was sent and what is held, of the audio so far.
abbrev pub IsSent : Socket → List ℕ → Type 0
IsSent s audio =
    IsCutOf (min_bytes s.sample_rate) (max_bytes s.sample_rate) audio (s.sent, s.pending)

-- A rate at which a millisecond is a byte at least.
rate_lem : (rate : ℕ) → 10 ≤ rate → (0 < min_bytes rate) × (min_bytes rate ≤ max_bytes rate)
unfolding min_bytes max_bytes
rate_lem rate h = (omega (arith, h), omega (arith, h))

send_audio-IsSent :
    (s : Socket) (audio pcm : List ℕ)
    → 10 ≤ s.sample_rate
    → IsSent s audio
    → IsSent (send_audio s pcm) (audio ++ pcm)
unfolding send_audio
send_audio-IsSent s audio pcm h v =
    let sizes = rate_lem s.sample_rate h in
    let pending = s.pending ++ pcm in
    let cut =
      cut_blocks (length pending) (min_bytes s.sample_rate) (max_bytes s.sample_rate) pending in
    let fresh =
      cut_blocks-IsCutOf (length pending) (min_bytes s.sample_rate) (max_bytes s.sample_rate)
        pending sizes.0 sizes.1 (omega arith) in
    (
      ap (λ l. l ++ cut.1) (flatten-append s.sent cut.0)
          ∙ append_assoc (flatten s.sent) (flatten cut.0) cut.1
          ∙ ap (λ l. flatten s.sent ++ l) fresh.0
          ∙ sym (append_assoc (flatten s.sent) s.pending pcm)
          ∙ ap (λ l. l ++ pcm) v.0,
      AllFit-append (min_bytes s.sample_rate) (max_bytes s.sample_rate) s.sent cut.0 v.1 fresh.1,
      fresh.2,
    )

unfoldable pub send_all : Socket → List (List ℕ) → Socket
unfolding send_audio
send_all s [] = s
send_all s (pcm ∷ pieces) = send_all (send_audio s pcm) pieces

send_all-IsSent :
    (s : Socket) (audio : List ℕ) (pieces : List (List ℕ))
    → 10 ≤ s.sample_rate
    → IsSent s audio
    → IsSent (send_all s pieces) (audio ++ flatten pieces)
      × ((send_all s pieces).sample_rate ≡ s.sample_rate)
unfolding send_all send_audio
send_all-IsSent s audio [] h v = (subst (IsSent s) (sym (append-nil audio)) v, refl)
send_all-IsSent s audio (pcm ∷ pieces) h v =
    let rest =
      send_all-IsSent (send_audio s pcm) (audio ++ pcm) pieces h
        (send_audio-IsSent s audio pcm h v) in
    (
      subst (IsSent (send_all (send_audio s pcm) pieces)) (append_assoc audio pcm (flatten pieces))
          rest.0,
      rest.1,
    )

-- What the endpoint got in the end: all of the audio, then less silence than the shortest message, in
-- messages of lengths that it takes.
abbrev pub IsFlushed : Socket → List ℕ → Type 0
IsFlushed s audio =
    (s.pending ≡ [])
    × AllFit (min_bytes s.sample_rate) (max_bytes s.sample_rate) s.sent
    × (k : ℕ) × (k < min_bytes s.sample_rate)
    × (flatten s.sent ≡ audio ++ zeros k)

nothing_held : (pending : List ℕ) → is_nil pending ≡ true → pending ≡ []
nothing_held [] h = refl
nothing_held (x ∷ l) h = cc

something_held : (pending : List ℕ) → is_nil pending ≡ false → 0 < length pending
something_held [] h = cc
something_held (x ∷ l) h = omega arith

flush_input-IsFlushed :
    (s : Socket) (audio : List ℕ)
    → 10 ≤ s.sample_rate
    → IsSent s audio
    → IsFlushed (flush_input s) audio
unfolding flush_input
flush_input-IsFlushed s audio h v =
    let lo = min_bytes s.sample_rate in
    let sizes = rate_lem s.sample_rate h in
    let silence = zeros (lo - length s.pending) in
    let padded = length-append s.pending silence in
    if_ind (λ (t : Socket). IsFlushed t audio) (is_nil s.pending)
      (λ none_held. (
        nothing_held s.pending none_held,
        v.1,
        0,
        sizes.0,
        sym (append-nil (flatten s.sent))
            ∙ ap (λ l. flatten s.sent ++ l) (sym (nothing_held s.pending none_held))
            ∙ v.0
            ∙ sym (append-nil audio),
      ))
      (λ held. (
        refl,
        AllFit-append lo (max_bytes s.sample_rate) s.sent ((s.pending ++ silence) ∷ []) v.1 (
          omega (arith, padded, length-zeros (lo - length s.pending)),
          omega (arith, padded, length-zeros (lo - length s.pending), v.2, sizes.1),
          tt,
        ),
        lo - length s.pending,
        omega (arith, something_held s.pending held, sizes.0),
        flatten-append s.sent ((s.pending ++ silence) ∷ [])
            ∙ ap (λ l. flatten s.sent ++ l) (append-nil (s.pending ++ silence))
            ∙ sym (append_assoc (flatten s.sent) s.pending silence)
            ∙ ap (λ l. l ++ silence) v.0,
      ))

-- At any rate from 10 samples a second on, whatever pieces the audio of a connection comes in, once the
-- input is flushed nothing is held back: the messages carry all of the audio in order, with less silence
-- behind it than the shortest message, and none of them is shorter or longer than the endpoint takes.
pub audio_messages_fit :
    (s : Socket) (pieces : List (List ℕ))
    → 10 ≤ s.sample_rate
    → s.pending ≡ []
    → s.sent ≡ []
    → IsFlushed (flush_input (send_all s pieces)) (flatten pieces)
audio_messages_fit s pieces h empty new =
    let sizes = rate_lem s.sample_rate h in
    let before : IsSent s [] = rw (empty, new) (refl, tt, sizes.0) in
    let sent = send_all-IsSent s [] pieces h before in
    flush_input-IsFlushed (send_all s pieces) (flatten pieces) (subst (λ r. 10 ≤ r) (sym sent.1) h)
      sent.0
