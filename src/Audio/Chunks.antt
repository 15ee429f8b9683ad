-- ===== src/Audio/Chunks.antt =====
-- src/loreline/audio/chunker.py: the state of the chunker, and the length and instants of what it emits.
use loreline.Prelude.{
  ℕ, zero, suc, ◌+◌, ◌-◌, ◌*◌, ◌≤◌, ◌<◌, ◌≡◌, refl, sym, ap, ◌∙◌, subst, Bool, true, false, Option,
  none, some, List, [], ◌∷◌, ◌++◌, arith, length, length-append, length-drop, keep_last, Bool-cases,
  inl, inr,
}
use loreline.Prelude.Int.{ℤ, pos_part, neg_part, ◌+ℤ◌, ◌-ℤ◌, eq_of_parts, int_laws}
use native.Mathlib.Nat.{suc-mul, one-mul, mul-le-mul_right}
use loreline.Audio.Chunker.{
  Utterance, VadChunker, frames_us, join_frames, flush_at, await_speech, add_voiced, is_complete,
  feed,
}

abbrev duration_ms : VadChunker → ℕ
duration_ms c = length c.voiced * c.frame_ms

-- What an open utterance is made of: its span on the capture clock is that of its frames.
pub record IsTalking (c : VadChunker) : Type 0 where
  pub some_voiced : 0 < length c.voiced
  pub under_cap : length c.voiced * c.frame_ms < c.max_ms
  pub under_silence : c.silence_run_ms < c.silence_ms
  pub span :
      c.start_ts +ℤ frames_us c.frame_ms (length c.voiced) ≡ c.last_ts +ℤ frames_us c.frame_ms 1

-- What is left of an utterance outside one.
pub record IsQuiet (c : VadChunker) : Type 0 where
  pub none_voiced : c.voiced ≡ []
  pub no_silence : c.silence_run_ms ≡ 0

abbrev pub Talking : Bool → VadChunker → Type 0
Talking false c = IsQuiet c
Talking true c = IsTalking c

-- The configuration can be used: the pre-roll is shorter than the cap and silence takes some time.
pub record IsChunker (c : VadChunker) : Type 0 where
  pub short : c.pre_roll_frames * c.frame_ms < c.max_ms
  pub some_silence : 0 < c.silence_ms
  pub some_roll : 0 < c.pre_roll_frames
  pub rolled : length c.pre_roll ≤ c.pre_roll_frames
  pub talking : Talking c.in_speech c

-- An emitted utterance: its frames last under the cap and one frame more, and its span on the capture
-- clock is exactly theirs.
pub record IsUtterance (c : VadChunker) (frame : List ℕ) (u : Utterance) : Type 0 where
  pub pcm_lem : u.pcm ≡ join_frames (c.voiced ++ frame ∷ [])
  pub span_lem : u.start +ℤ frames_us c.frame_ms (suc (length c.voiced)) ≡ u.end
  pub bound : suc (length c.voiced) * c.frame_ms < c.max_ms + c.frame_ms

abbrev pub Emits : VadChunker → List ℕ → Option Utterance → Type 0
Emits c frame none = Unit
Emits c frame (some u) = IsUtterance c frame u

length-keep_last :
    (n : ℕ) (xs : List (List ℕ)) → length (keep_last n xs) ≡ length xs - (length xs - n)
length-keep_last n xs = length-drop (length xs - n) xs

onset_lem :
    (ts : ℤ) (n f : ℕ) → 0 < n → (ts -ℤ frames_us f (n - 1)) +ℤ frames_us f n ≡ ts +ℤ frames_us f 1
onset_lem ts zero f h = ground (arith, h)
onset_lem ts (suc m) f h =
    let pred : suc m - 1 ≡ m = omega arith in
    rw pred (
      eq_of_parts ((ts -ℤ frames_us f m) +ℤ frames_us f (suc m)) (ts +ℤ frames_us f 1)
        (omega (int_laws, suc-mul m f, one-mul f)))

span_step :
    (start last ts : ℤ) (n f : ℕ)
    → start +ℤ frames_us f n ≡ last +ℤ frames_us f 1
    → ts ≡ last +ℤ frames_us f 1
    → start +ℤ frames_us f (suc n) ≡ ts +ℤ frames_us f 1
span_step start last ts n f held next =
    eq_of_parts (start +ℤ frames_us f (suc n)) (ts +ℤ frames_us f 1) (
      omega (
        int_laws,
        suc-mul n f,
        one-mul f,
        ap pos_part (held ∙ sym next),
        ap neg_part (held ∙ sym next),
      ))

module _ (c : VadChunker) (frame : List ℕ) (ts : ℤ) (v : IsChunker c) where
  idle-IsChunker :
      (is_speech : Bool)
      → c.in_speech ≡ false
      → IsChunker (await_speech (record c { last_ts = ts }) frame ts is_speech)
  unfolding await_speech
  idle-IsChunker is_speech quiet =
      let still : Talking false c = subst (λ b. Talking b c) quiet v.talking in
      let rolled = c.pre_roll ++ frame ∷ [] in
      let count = length-append c.pre_roll (frame ∷ []) in
      let kept = length-keep_last c.pre_roll_frames rolled in
      let fits : length (keep_last c.pre_roll_frames rolled) ≤ c.pre_roll_frames =
        omega (arith, count, kept, v.rolled) in
      let full : 0 < length (keep_last c.pre_roll_frames rolled) =
        omega (arith, count, kept, v.some_roll) in
      let short = mul-le-mul_right c.frame_ms fits in
      let span = onset_lem ts (length (keep_last c.pre_roll_frames rolled)) c.frame_ms full in
      elim (Bool-cases is_speech) [
        | inl speech ↦ ground (arith, v.short, v.some_silence, v.some_roll)
        | inr quiet ↦ ground (arith, v.short, v.some_silence, v.some_roll)
      ]

  talking-IsChunker :
      (is_speech : Bool)
      → c.in_speech ≡ true
      → ts ≡ c.last_ts +ℤ frames_us c.frame_ms 1
      → let fed = feed c frame ts is_speech in IsChunker fed.0 × Emits c frame fed.1
  unfolding feed add_voiced flush_at
  talking-IsChunker is_speech talks next =
      let t : Talking true c = subst (λ b. Talking b c) talks v.talking in
      let count = length-append c.voiced (frame ∷ []) in
      let step = suc-mul (length c.voiced) c.frame_ms in
      let span = span_step c.start_ts c.last_ts ts (length c.voiced) c.frame_ms t.span next in
      let more_voiced : length (c.voiced ++ frame ∷ []) ≡ suc (length c.voiced) =
        omega (arith, count) in
      let bound : suc (length c.voiced) * c.frame_ms < c.max_ms + c.frame_ms =
        omega (arith, step, t.under_cap) in
      elim (Bool-cases (is_complete (add_voiced (record c { last_ts = ts }) frame is_speech))) [
        | inl over ↦
            rw (feed, talks, over)
              (
                record {
                  short = v.short;
                  some_silence = v.some_silence;
                  some_roll = v.some_roll;
                  rolled = omega arith;
                  talking = record { none_voiced = refl; no_silence = refl };
                },
                record { pcm_lem = refl; span_lem = span; bound = bound },
              )
        | inr more ↦
            rw (feed, talks, more)
              (
                record {
                  short = v.short;
                  some_silence = v.some_silence;
                  some_roll = v.some_roll;
                  rolled = v.rolled;
                  talking = record {
                    some_voiced = omega (arith, more_voiced);
                    under_cap = ground (arith, more);
                    under_silence = ground (arith, more);
                    span = rw more_voiced span;
                  };
                },
                tt,
              )
      ]

feed-quiet :
    (c : VadChunker) (frame : List ℕ) (ts : ℤ) (is_speech : Bool)
    → c.in_speech ≡ false
    → feed c frame ts is_speech
      ≡ (await_speech (record c { last_ts = ts }) frame ts is_speech, none)
unfolding feed
feed-quiet c frame ts is_speech quiet = rw quiet

-- In a capture whose frames follow one another, the chunker keeps its state (inside an utterance: an
-- audio under the cap, silence under the limit, a span that is its frames'), and what it emits is the
-- open utterance with the frame behind it, is under the cap by one frame at most over, and spans
-- exactly its frames.
pub feed-IsChunker :
    (c : VadChunker) (frame : List ℕ) (ts : ℤ) (is_speech : Bool)
    → IsChunker c
    → (c.in_speech ≡ true → ts ≡ c.last_ts +ℤ frames_us c.frame_ms 1)
    → let fed = feed c frame ts is_speech in IsChunker fed.0 × Emits c frame fed.1
feed-IsChunker c frame ts is_speech v next = elim (Bool-cases c.in_speech) [
  | inl talks ↦ talking-IsChunker c frame ts v is_speech talks (next talks)
  | inr quiet ↦
      rw (feed-quiet c frame ts is_speech quiet) (idle-IsChunker c frame ts v is_speech quiet, tt)
]
