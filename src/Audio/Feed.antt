-- ===== src/Audio/Feed.antt =====
-- src/loreline/audio/client_source.py: how bytes are blocked into frames, and whose bytes they are.
use loreline.Prelude.{
  ℕ, zero, suc, ◌+◌, ◌*◌, ◌/◌, ◌≤◌, ◌<◌, ◌≡◌, refl, sym, ap, ◌∙◌, true, false, none, some, List, [],
  ◌∷◌, ◌++◌, arith, leb, length, length-append, length-drop, take, drop,
}
use loreline.Prelude.Int.{ℤ, pos, ◌-ℤ◌}
use mathlib.Core.List.{append_assoc, append-nil}
use native.Mathlib.Nat.{suc-mul, div-mul-le_self, lt-div-mul-add}
use loreline.Audio.Client.{
  ClientHello, ClientCaptureSource, Converter, queue_max, offer, cut_pending, drain_frames, drain,
  is_nothing,
}
use loreline.Audio.Mic.{ClientMic, connect, disconnect, feed, holds}

abbrev pub queued_bytes : List (List ℕ × ℤ) → List ℕ
queued_bytes [] = []
queued_bytes ((pcm, ts) ∷ fs) = pcm ++ queued_bytes fs

abbrev pub AllSized : ℕ → List (List ℕ × ℤ) → Type 0
AllSized n [] = Unit
AllSized n ((pcm, ts) ∷ fs) = (length pcm ≡ n) × AllSized n fs

take-drop : (n : ℕ) (xs : List ℕ) → take n xs ++ drop n xs ≡ xs
take-drop zero xs = refl
take-drop (suc n) [] = refl
take-drop (suc n) (x ∷ xs) = ap (λ ys. x ∷ ys) (take-drop n xs)

length-take-of_le : (n : ℕ) (xs : List ℕ) → n ≤ length xs → length (take n xs) ≡ n
length-take-of_le zero xs h = refl
length-take-of_le (suc n) [] h = ground (arith, h)
length-take-of_le (suc n) (x ∷ xs) h = omega (arith, length-take-of_le n xs (omega (arith, h)))

queued_bytes-snoc :
    (fs : List (List ℕ × ℤ)) (pcm : List ℕ) (ts : ℤ)
    → queued_bytes (fs ++ (pcm, ts) ∷ []) ≡ queued_bytes fs ++ pcm
queued_bytes-snoc [] pcm ts = append-nil pcm
queued_bytes-snoc ((p, t) ∷ fs) pcm ts =
    ap (λ ys. p ++ ys) (queued_bytes-snoc fs pcm ts) ∙ sym (append_assoc p (queued_bytes fs) pcm)

AllSized-snoc :
    (n : ℕ) (fs : List (List ℕ × ℤ)) (pcm : List ℕ) (ts : ℤ)
    → AllSized n fs
    → length pcm ≡ n
    → AllSized n (fs ++ (pcm, ts) ∷ [])
AllSized-snoc n [] pcm ts h e = (e, tt)
AllSized-snoc n ((p, t) ∷ fs) pcm ts (h, hs) e = (h, AllSized-snoc n fs pcm ts hs e)

-- Frames of the one size, within the queue's bound.
pub record IsFed (s : ClientCaptureSource) : Type 0 where
  pub sized : AllSized s.frame_bytes s.queue
  pub bound : length s.queue ≤ queue_max

-- `t` is `s` with `n` frames cut off what was pending, and no byte lost between the two.
pub record IsCut (n : ℕ) (s t : ClientCaptureSource) : Type 0 where
  pub bytes : queued_bytes t.queue ++ t.pending ≡ queued_bytes s.queue ++ s.pending
  pub count : length t.queue ≡ length s.queue + n
  pub rest : length t.pending + n * s.frame_bytes ≡ length s.pending
  pub fed : IsFed t

offer-room :
    (s : ClientCaptureSource) (frame : List ℕ × ℤ)
    → length s.queue < queue_max
    → offer s frame ≡ record s { queue = s.queue ++ frame ∷ [] }
unfolding offer
offer-room s frame h =
    let room : leb queue_max (length s.queue) ≡ false = ground (arith, h) in rw room

drain_frames-IsCut :
    (n : ℕ) (now : ℤ) (s : ClientCaptureSource)
    → IsFed s
    → n * s.frame_bytes ≤ length s.pending
    → length s.queue + n ≤ queue_max
    → IsCut n s (drain_frames n now s)
unfolding drain_frames
drain_frames-IsCut zero now s v enough room = record {
  bytes = refl;
  count = omega arith;
  rest = omega arith;
  fed = v;
}
drain_frames-IsCut (suc n) now s v enough room =
    let step = suc-mul n s.frame_bytes in
    let frame = take s.frame_bytes s.pending in
    let ts = now -ℤ pos (n * s.frame_us) in
    let first = length-take-of_le s.frame_bytes s.pending (omega (arith, step, enough)) in
    let left = length-drop s.frame_bytes s.pending in
    let longer = length-append s.queue ((frame, ts) ∷ []) in
    let one : ClientCaptureSource = record s {
      queue = s.queue ++ (frame, ts) ∷ [];
      pending = drop s.frame_bytes s.pending;
    } in
    let rest =
      drain_frames-IsCut n now one
        (record {
          sized = AllSized-snoc s.frame_bytes s.queue frame ts v.sized first;
          bound = omega (arith, longer, room);
        })
        (omega (arith, step, enough, left)) (omega (arith, longer, room)) in
    rw (offer-room (cut_pending s) (frame, ts) (omega (arith, room))) (record {
      bytes =
          rest.bytes
          ∙ ap (λ q. q ++ drop s.frame_bytes s.pending) (queued_bytes-snoc s.queue frame ts)
          ∙ append_assoc (queued_bytes s.queue) frame (drop s.frame_bytes s.pending)
          ∙ ap (λ q. queued_bytes s.queue ++ q) (take-drop s.frame_bytes s.pending);
      count = omega (arith, rest.count, longer);
      rest = omega (arith, rest.rest, step, left, enough);
      fed = rest.fed;
    })

-- Where the queue has room for them, draining turns the pending bytes into as many whole frames as they
-- hold, losing and reordering no byte, and leaves less than a frame pending.
pub drain-IsCut :
    (s : ClientCaptureSource) (now : ℤ)
    → 0 < s.frame_bytes
    → IsFed s
    → length s.queue + length s.pending / s.frame_bytes ≤ queue_max
    → IsCut (length s.pending / s.frame_bytes) s (drain s now)
      × (length (drain s now).pending < s.frame_bytes)
unfolding drain
drain-IsCut s now some_bytes v room =
    let whole = div-mul-le_self (length s.pending) s.frame_bytes in
    let done = drain_frames-IsCut (length s.pending / s.frame_bytes) now s v whole room in
    (
      done,
      omega
          (arith, done.rest, lt-div-mul-add {a = length s.pending} {b = s.frame_bytes} some_bytes),
    )

feed-other :
    (convert : ℕ → List ℕ → List ℕ) (m : ClientMic) (t : ℕ) (pcm : List ℕ) (now : ℤ)
    → holds m.token t ≡ false
    → feed convert m t pcm now ≡ m
unfolding feed
feed-other convert m t pcm now other = rw other

disconnect-other :
    (m : ClientMic) (t : ℕ) (now : ℤ) → holds m.token t ≡ false → disconnect m t now ≡ m
unfolding disconnect
disconnect-other m t now other = rw other

connect-busy :
    (build : Converter) (m : ClientMic) (hello : ClientHello) (now : ℤ)
    → is_nothing m.token ≡ false
    → connect build m hello now ≡ (m, none)
unfolding connect
connect-busy build m hello now busy = rw busy

disconnect-free :
    (m : ClientMic) (t : ℕ) (now : ℤ)
    → m.token ≡ some t
    → ((disconnect m t now).token ≡ none) × ((disconnect m t now).next_token ≡ m.next_token)
unfolding disconnect
disconnect-free m t now held =
    let mine : holds m.token t ≡ true = rw held (ground arith) in rw mine (refl, refl)

connect-takes :
    (build : Converter) (m : ClientMic) (hello : ClientHello) (now : ℤ)
    → m.token ≡ none
    → (connect build m hello now).0.token ≡ some m.next_token
unfolding connect
connect-takes build m hello now free = let nobody : is_nothing m.token ≡ true = rw free in rw nobody

-- Once a browser has given the socket up and another has taken it, the first one's token moves
-- nothing: its audio and its disconnect are ignored, and a third socket is refused.
pub stale_token_is_ignored :
    (build : Converter) (convert : ℕ → List ℕ → List ℕ) (m : ClientMic) (t : ℕ)
    (hello third : ClientHello) (pcm : List ℕ) (now : ℤ)
    → t < m.next_token
    → m.token ≡ some t
    → let m' = (connect build (disconnect m t now) hello now).0 in
      (feed convert m' t pcm now ≡ m')
      × (disconnect m' t now ≡ m')
      × (connect build m' third now ≡ (m', none))
stale_token_is_ignored build convert m t hello third pcm now young held =
    let free = disconnect-free m t now held in
    let m' = (connect build (disconnect m t now) hello now).0 in
    let taken : m'.token ≡ some m.next_token =
      connect-takes build (disconnect m t now) hello now free.0 ∙ ap some free.1 in
    let other : holds m'.token t ≡ false =
      ap (λ held. holds held t) taken ∙ ground (arith, young) in
    (
      feed-other convert m' t pcm now other,
      disconnect-other m' t now other,
      connect-busy build m' third now (ap is_nothing taken),
    )
