-- ===== src/Audio/Chunker.antt =====
-- src/loreline/audio/chunker.py: `VadChunker`. Instants are whole microseconds, spans whole
-- milliseconds, and a PCM frame is its bytes.
use loreline.Prelude.{
  ℕ, ◌+◌, ◌-◌, ◌*◌, ◌/◌, max, Bool, true, false, ◌&&◌, ◌||◌, not, Option, none, some, List, [], ◌∷◌,
  ◌++◌, leb, if◌then◌else◌, length, keep_last,
}
use loreline.Prelude.Int.{ℤ, pos, ◌+ℤ◌, ◌-ℤ◌}

pub record Utterance : Type 0 where
  pub pcm : List ℕ
  pub start : ℤ
  pub end : ℤ

pub record VadChunker : Type 0 where
  pub frame_ms : ℕ
  pub silence_ms : ℕ
  pub max_ms : ℕ
  pub pre_roll_frames : ℕ
  pub pre_roll : List (List ℕ)
  pub voiced : List (List ℕ)
  pub in_speech : Bool
  pub silence_run_ms : ℕ
  pub start_ts : ℤ
  pub last_ts : ℤ

-- `__post_init__` and the defaults of the fields.
unfoldable pub new_chunker : ℕ → ℕ → ℕ → ℕ → VadChunker
new_chunker frame_ms silence_ms max_ms pre_roll_ms = record {
  frame_ms = frame_ms;
  silence_ms = silence_ms;
  max_ms = max_ms;
  pre_roll_frames = max 1 (pre_roll_ms / frame_ms);
  pre_roll = [];
  voiced = [];
  in_speech = false;
  silence_run_ms = 0;
  start_ts = pos 0;
  last_ts = pos 0;
}

-- `n` frames, in microseconds.
abbrev pub frames_us : ℕ → ℕ → ℤ
frames_us frame_ms n = pos (n * frame_ms * 1000)

-- `b"".join(frames)`
abbrev pub join_frames : List (List ℕ) → List ℕ
join_frames [] = []
join_frames (f ∷ fs) = f ++ join_frames fs

-- `_flush`
unfoldable pub flush_at : VadChunker → ℤ → VadChunker × Utterance
flush_at c end_ts = (
  record c { voiced = []; in_speech = false; silence_run_ms = 0; pre_roll = [] },
  record { pcm = join_frames c.voiced; start = c.start_ts; end = end_ts },
)

abbrev pub emitted : VadChunker × Utterance → VadChunker × Option Utterance
emitted (c, u) = (c, some u)

-- `feed` outside an utterance: the frame joins the pre-roll, and speech opens an utterance on it.
unfoldable pub await_speech : VadChunker → List ℕ → ℤ → Bool → VadChunker
await_speech c frame ts is_speech =
    let rolled = keep_last c.pre_roll_frames (c.pre_roll ++ frame ∷ []) in
    if is_speech
    then record c {
      pre_roll = rolled;
      in_speech = true;
      silence_run_ms = 0;
      start_ts = ts -ℤ frames_us c.frame_ms (length rolled - 1);
      voiced = rolled;
    }
    else record c { pre_roll = rolled }

-- `feed` inside an utterance, before its test for the end.
unfoldable pub add_voiced : VadChunker → List ℕ → Bool → VadChunker
add_voiced c frame is_speech = record c {
  voiced = c.voiced ++ frame ∷ [];
  silence_run_ms = if is_speech then 0 else c.silence_run_ms + c.frame_ms;
}

abbrev pub is_complete : VadChunker → Bool
is_complete c = leb c.silence_ms c.silence_run_ms || leb c.max_ms (length c.voiced * c.frame_ms)

abbrev pub finish_voiced : VadChunker → ℤ → VadChunker × Option Utterance
finish_voiced c ts =
    if is_complete c then emitted (flush_at c (ts +ℤ frames_us c.frame_ms 1)) else (c, none)

unfoldable pub feed : VadChunker → List ℕ → ℤ → Bool → VadChunker × Option Utterance
unfolding flush_at await_speech add_voiced
feed c frame ts is_speech =
    if c.in_speech
    then finish_voiced (add_voiced (record c { last_ts = ts }) frame is_speech) ts
    else (await_speech (record c { last_ts = ts }) frame ts is_speech, none)

abbrev pub is_nil : List (List ℕ) → Bool
is_nil [] = true
is_nil (f ∷ fs) = false

unfoldable pub flush : VadChunker → VadChunker × Option Utterance
unfolding flush_at
flush c =
    if c.in_speech && not (is_nil c.voiced)
    then emitted (flush_at c (c.last_ts +ℤ frames_us c.frame_ms 1))
    else (c, none)

-- One call of `feed` as its caller makes it, and a capture as the sequence of them: what was emitted,
-- oldest first.
pub record Heard : Type 0 where
  pub frame : List ℕ
  pub ts : ℤ
  pub is_speech : Bool

abbrev pub keep_some : Option Utterance → List Utterance → List Utterance
keep_some none us = us
keep_some (some u) us = u ∷ us

abbrev pub after_feed :
    (VadChunker → VadChunker × List Utterance)
    → VadChunker × Option Utterance
    → VadChunker × List Utterance
after_feed loop (c, u) = let rest = loop c in (rest.0, keep_some u rest.1)

unfoldable pub feed_all : List Heard → VadChunker → VadChunker × List Utterance
unfolding feed
feed_all [] c = (c, [])
feed_all (h ∷ hs) c = after_feed (feed_all hs) (feed c h.frame h.ts h.is_speech)
