-- ===== src/Audio/Window.antt =====
-- src/loreline/audio/rolling.py: what the window holds after a frame, and where it lies on the clock.
use loreline.Prelude.{
  ℕ, ◌-◌, ◌≤◌, ◌≡◌, refl, some, List, ◌++◌, length, length-drop, drop, keep_last, ltb, arith,
  Bool-cases, inl, inr,
}
use loreline.Prelude.Int.{ℤ, pos, ◌+ℤ◌, eq_of_parts, int_laws}
use loreline.Audio.Rolling.{RollingPcm, append, start_or}

-- `r'` is the window `r` with a frame behind it: the newest bytes that fit, ending on the clock where
-- all of them end.
pub record IsWindow (r : RollingPcm) (pcm : List ℕ) (ts : ℤ) (r' : RollingPcm) : Type 0 where
  pub start : ℤ
  pub start_lem : r'.start ≡ some start
  pub buffer_lem : r'.buffer ≡ keep_last r.limit (r.buffer ++ pcm)
  pub bound : length r'.buffer ≤ r.limit
  pub end_lem :
      start +ℤ pos (length r'.buffer) ≡ start_or r.start ts +ℤ pos (length (r.buffer ++ pcm))

-- After any frame the window holds the newest bytes that fit its limit, and the start it states puts
-- its end exactly where the audio seen so far ends.
pub append-IsWindow : (r : RollingPcm) (pcm : List ℕ) (ts : ℤ) → IsWindow r pcm ts (append r pcm ts)
unfolding append
append-IsWindow r pcm ts =
    let all = r.buffer ++ pcm in
    let excess = length all - r.limit in
    let left = length-drop excess all in
    let first = start_or r.start ts in
    elim (Bool-cases (ltb r.limit (length all))) [
      | inl over ↦
          let fits : excess ≤ length all = omega arith in
          rw (append, over)
            (record {
              start = first +ℤ pos excess;
              start_lem = refl;
              buffer_lem = refl;
              bound = omega (arith, left);
              end_lem =
                  eq_of_parts ((first +ℤ pos excess) +ℤ pos (length (drop excess all)))
                    (first +ℤ pos (length all)) (omega (int_laws, left, fits));
            })
      | inr fits ↦
          let room : length all ≤ r.limit = ground (arith, fits) in
          let none_over : length all - r.limit ≡ 0 = omega (arith, room) in
          rw (append, fits)
            (record {
              start = first;
              start_lem = refl;
              buffer_lem = rw none_over refl;
              bound = room;
              end_lem = refl;
            })
    ]
