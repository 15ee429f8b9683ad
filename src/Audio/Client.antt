-- ===== src/Audio/Client.antt =====
-- src/loreline/audio/client_source.py: `ClientCaptureSource`. Instants and spans are whole microseconds
-- of the monotonic clock, passed in. The rate converter is native code: what building it refuses with,
-- and what it makes of a block, are arguments.
use loreline.Prelude.{
  ℕ, zero, suc, ◌*◌, ◌/◌, String, concat, show_nat, Bool, true, false, not, ◌||◌, Option, none,
  some, List, [], ◌∷◌, ◌++◌, leb, ltb, if◌then◌else◌, length, take, drop,
}
use loreline.Prelude.Int.{ℤ, pos, ◌-ℤ◌, ltb_ℤ, min_ℤ, pos_part, round_div, show_ℤ}

pub record ClientHello : Type 0 where
  pub sample_rate : ℕ
  pub channels : ℕ
  pub label : String

-- `validated`: the message it raises with, or none.
unfoldable pub hello_error : ClientHello → Option String
hello_error h =
    if ltb h.sample_rate 8000 || ltb 192000 h.sample_rate
    then some
        (concat "sample_rate " (concat (show_nat h.sample_rate) " is not a plausible capture rate"))
    else if ltb h.channels 1 || ltb 8 h.channels
    then some
        (concat "channels " (concat (show_nat h.channels) " is not a plausible channel count"))
    else none

pub record ClientCaptureSource : Type 0 where
  pub sample_rate : ℕ
  pub frame_bytes : ℕ
  pub frame_us : ℕ
  pub fresh_within_us : ℕ
  pub reconnect_window_us : ℕ
  pub queue : List (List ℕ × ℤ)
  pub pending : List ℕ
  pub stopped : Bool
  pub last_frame_mono : Option ℤ
  pub lost_at : Option ℤ
  pub channels : ℕ
  pub client_rate : ℕ
  pub resampler_error : Option String

-- `_QUEUE_MAX`
abbrev pub queue_max : ℕ
queue_max = 4096

-- What `Pcm16Stream(client_rate, sample_rate)` raises, or none.
abbrev pub Converter : Type 0
Converter = ℕ → ℕ → Option String

unfoldable pub build_resampler : Converter → ClientCaptureSource → ℕ → ClientCaptureSource
build_resampler build s client_rate = record s { resampler_error = build client_rate s.sample_rate }

-- The constructor, of 20 ms frames.
unfoldable pub new_source :
    Converter → ℕ → ℕ → ℕ → Option ℤ → Option ℤ → ℕ → ℕ → ClientCaptureSource
unfolding build_resampler
new_source build sample_rate client_rate channels lost_at last_frame_mono fresh window =
    build_resampler build
      (record {
        sample_rate = sample_rate;
        frame_bytes = sample_rate * 20 / 1000 * 2;
        frame_us = 20000;
        fresh_within_us = fresh;
        reconnect_window_us = window;
        queue = [];
        pending = [];
        stopped = false;
        last_frame_mono = last_frame_mono;
        lost_at = lost_at;
        channels = channels;
        client_rate = client_rate;
        resampler_error = none;
      })
      client_rate

unfoldable pub stop : ClientCaptureSource → ClientCaptureSource
stop s = record s { stopped = true }

abbrev pub without_oldest : List (List ℕ × ℤ) → List (List ℕ × ℤ)
without_oldest [] = []
without_oldest (f ∷ fs) = fs

-- `_offer`
unfoldable pub offer : ClientCaptureSource → List ℕ × ℤ → ClientCaptureSource
offer s frame =
    if leb queue_max (length s.queue)
    then record s { queue = without_oldest s.queue ++ frame ∷ [] }
    else record s { queue = s.queue ++ frame ∷ [] }

abbrev pub cut_pending : ClientCaptureSource → ClientCaptureSource
cut_pending s = record s { pending = drop s.frame_bytes s.pending }

-- The loop of `_drain`, with the number of frames still to cut.
unfoldable pub drain_frames : ℕ → ℤ → ClientCaptureSource → ClientCaptureSource
unfolding offer
drain_frames zero now s = s
drain_frames (suc n) now s =
    drain_frames n now
      (offer (cut_pending s) (take s.frame_bytes s.pending, now -ℤ pos (n * s.frame_us)))

-- `_drain`
unfoldable pub drain : ClientCaptureSource → ℤ → ClientCaptureSource
unfolding drain_frames
drain s now = drain_frames (length s.pending / s.frame_bytes) now s

abbrev pub zeros : ℕ → List ℕ
zeros zero = []
zeros (suc n) = 0 ∷ zeros n

-- `_pad_silence`
unfoldable pub pad_silence : ClientCaptureSource → ℤ → ℤ → ClientCaptureSource
unfolding drain
pad_silence s gap now =
    let frames = pos_part (min_ℤ gap (pos s.reconnect_window_us)) / s.frame_us in
    if ltb 0 frames
    then drain (record s { pending = s.pending ++ zeros (frames * s.frame_bytes) }) now
    else s

abbrev pub gap_since : Option ℤ → ℤ → ℤ
gap_since none now = pos 0
gap_since (some lost) now = now -ℤ lost

unfoldable pub rewire : Converter → ClientCaptureSource → ClientHello → ℤ → ClientCaptureSource
unfolding build_resampler pad_silence
rewire build s hello now =
    let gap = gap_since s.lost_at now in
    let wired =
      build_resampler build
        (record s {
          lost_at = none;
          channels = hello.channels;
          client_rate = hello.sample_rate;
          pending = [];
        })
        hello.sample_rate in
    if ltb_ℤ (pos 0) gap then pad_silence wired gap now else wired

abbrev pub first_loss : Option ℤ → ℤ → Option ℤ
first_loss none now = some now
first_loss (some lost) now = some lost

unfoldable pub socket_lost : ClientCaptureSource → ℤ → ClientCaptureSource
socket_lost s now = record s { lost_at = first_loss s.lost_at now }

abbrev pub is_nothing {ℓ} : {A : Type ℓ} → Option A → Bool
is_nothing none = true
is_nothing (some a) = false

abbrev pub no_bytes : List ℕ → Bool
no_bytes [] = true
no_bytes (b ∷ bs) = false

-- `submit`, with what the converter makes of the mixed-down block.
unfoldable pub submit :
    (ℕ → List ℕ → List ℕ) → ClientCaptureSource → List ℕ → ℤ → ClientCaptureSource
unfolding drain
submit convert s pcm now =
    if s.stopped || not (is_nothing s.resampler_error) || no_bytes pcm
    then s
    else drain
        (record s { last_frame_mono = some now; pending = s.pending ++ convert s.channels pcm }) now

abbrev pub is_stale : Option ℤ → ℤ → ℕ → Bool
is_stale none now fresh = true
is_stale (some last) now fresh = ltb_ℤ (pos fresh) (now -ℤ last)

pub data Refusal : Type 0 where
  not_streaming no_resampler no_audio : Refusal

-- `preflight`: which of its messages it raises with, or none.
unfoldable pub preflight : ClientCaptureSource → ℤ → Option Refusal
preflight s now =
    if not (is_nothing s.lost_at)
    then some not_streaming
    else if not (is_nothing s.resampler_error)
    then some no_resampler
    else if is_stale s.last_frame_mono now s.fresh_within_us
    then some no_audio
    else none

abbrev pub gone_message : ℤ → String
unfolding show_ℤ round_div
gone_message away = concat "The browser that was recording has not sent audio for " (
    concat (show_ℤ (round_div away 1000000))
      " seconds and did not come back. The recording was closed; everything captured before that is saved.")

abbrev pub away_error : Option ℤ → ℤ → ℕ → Option String
away_error none now window = none
away_error (some lost) now window =
    if ltb_ℤ (now -ℤ lost) (pos window) then none else some (gone_message (now -ℤ lost))

-- `_check_still_there`: the message it raises with, or none.
unfoldable pub check_still_there : ClientCaptureSource → ℤ → Option String
check_still_there s now = away_error s.lost_at now s.reconnect_window_us

-- What one round of `frames` comes to.
pub data Pulled : Type 0 where
  over : Pulled
  yielded : List ℕ × ℤ → Pulled
  waited : Pulled
  raised : String → Pulled

abbrev pub after_wait : Option String → Pulled
after_wait none = waited
after_wait (some message) = raised message

abbrev pub take_frame : ClientCaptureSource → List (List ℕ × ℤ) → ℤ → ClientCaptureSource × Pulled
unfolding check_still_there
take_frame s [] now = (s, after_wait (check_still_there s now))
take_frame s (f ∷ fs) now = (record s { queue = fs }, yielded f)

-- One round of the loop of `frames`: a frame from the queue, or the check after waiting for one.
unfoldable pub pull : ClientCaptureSource → ℤ → ClientCaptureSource × Pulled
unfolding check_still_there
pull s now = if s.stopped then (s, over) else take_frame s s.queue now
