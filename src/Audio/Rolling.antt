-- ===== src/Audio/Rolling.antt =====
-- src/loreline/audio/rolling.py: `RollingPcm`. An instant is a whole number of bytes of mono s16le on
-- the capture clock, so half a sample, and the sample rate drops out of the arithmetic.
use loreline.Prelude.{
  ℕ, ◌-◌, ◌*◌, Option, none, some, List, [], ◌++◌, length, drop, take, ltb, if◌then◌else◌,
}
use loreline.Prelude.Int.{ℤ, pos, ◌+ℤ◌, ◌-ℤ◌, max_ℤ, min_ℤ, leb_ℤ, pos_part, round_div}

pub record RollingPcm : Type 0 where
  pub limit : ℕ
  pub buffer : List ℕ
  pub start : Option ℤ

-- `int(sample_rate * seconds) * _BYTES_PER_SAMPLE`, of a whole number of samples.
unfoldable pub new_rolling : ℕ → RollingPcm
new_rolling samples = record { limit = samples * 2; buffer = []; start = none }

abbrev pub start_or : Option ℤ → ℤ → ℤ
start_or none ts = ts
start_or (some start) ts = start

unfoldable pub append : RollingPcm → List ℕ → ℤ → RollingPcm
append r pcm ts =
    let start = start_or r.start ts in
    let buffer = r.buffer ++ pcm in
    let excess = length buffer - r.limit in
    if ltb r.limit (length buffer)
    then record r { buffer = drop excess buffer; start = some (start +ℤ pos excess) }
    else record r { buffer = buffer; start = some start }

-- `_at`, with `round`'s ties to the even sample.
unfoldable pub at_byte : ℤ → ℤ → ℤ
unfolding round_div
at_byte ts origin = let samples = round_div (ts -ℤ origin) 2 in samples +ℤ samples

abbrev pub cut : List ℕ → ℤ → ℤ → ℤ → List ℕ × ℤ
cut buffer origin first last =
    if leb_ℤ last first
    then ([], pos 0)
    else (drop (pos_part first) (take (pos_part last) buffer), origin +ℤ first)

abbrev pub slice_from : RollingPcm → Option ℤ → ℤ → ℤ → List ℕ × ℤ
slice_from r none start end = ([], pos 0)
slice_from r (some origin) start end =
    if leb_ℤ end start
    then ([], pos 0)
    else cut r.buffer origin (max_ℤ (pos 0) (at_byte start origin))
        (min_ℤ (pos (length r.buffer)) (at_byte end origin))

unfoldable pub slice : RollingPcm → ℤ → ℤ → List ℕ × ℤ
unfolding at_byte
slice r start end = slice_from r r.start start end
