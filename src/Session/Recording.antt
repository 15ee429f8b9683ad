-- ===== src/Session/Recording.antt =====
-- src/loreline/session/manager.py: what the capture loop stores of the frames it hears.
use loreline.Prelude.{
  ℕ, ◌≡◌, refl, sym, ◌∙◌, subst, Bool, true, Option, none, some, List, [], ◌∷◌, if_ind,
}
use mathlib.Core.Bool.{true≢false}
use loreline.Prelude.Int.{ℤ}
use loreline.Session.Disk.{DiskWatch}
use loreline.Audio.Chunker.{Utterance, VadChunker, feed, flush}
use loreline.Session.Capture.{
  FrameSink, CaptureEnd, Written, stored, Arrival, Moment, arrived, consumed, Capture, shown,
  and_then, store_audio, dispatch_to, dispatch, write_frame, mark_utterance, dispatched,
  after_chunk, judge, watch_disk, watch_with, read_disk, note_frame, hear, consume, go_on,
  capture_loop, closing, close_capture, capture_utterances,
}
use loreline.Session.Closing.{is_some}

-- Every write succeeds, the disk can be read and the detector judges every frame.
abbrev pub AllHandled : List Moment → Type 0
AllHandled [] = Unit
AllHandled (consumed ∷ moments) = AllHandled moments
AllHandled (arrived a ∷ moments) =
    (a.write ≡ stored)
    × (a.mark ≡ stored)
    × (is_some a.verdict ≡ true)
    × (is_some a.free_bytes ≡ true)
    × AllHandled moments

-- The frames that come, newest first, before those that are there.
abbrev pub recorded_after : List (List ℕ) → List Moment → List (List ℕ)
recorded_after old [] = old
recorded_after old (consumed ∷ moments) = recorded_after old moments
recorded_after old (arrived a ∷ moments) = recorded_after (a.frame ∷ old) moments

module _ {S : Type 0} (frames : FrameSink S) (r : List (List ℕ)) where
  record Stores (c : Capture S) : Type 0 where
    writes : c.stores ≡ true
    recorded_lem : c.recorded ≡ r

  -- The loop goes on, with this much stored.
  abbrev Goes : Capture S × Option CaptureEnd → Type 0
  Goes going = Stores going.0 × (going.1 ≡ none)

  keep : (c c' : Capture S) → c'.stores ≡ c.stores → c'.recorded ≡ c.recorded → Stores c → Stores c'
  keep c c' e h v = record { writes = e ∙ v.writes; recorded_lem = h ∙ v.recorded_lem }

  dispatch-Stores :
      (s : Option S) (u : Utterance) (c : Capture S) → Stores c → Stores (dispatch_to frames s u c)
  dispatch-Stores none u c v = keep c _ refl refl v
  dispatch-Stores (some s) u c v =
      if_ind Stores (frames.queues_utterances s) (λ _. keep c _ refl refl v) (λ _. v)

  mark-Goes :
      (written : Written) (u : Utterance) (c : Capture S)
      → written ≡ stored
      → Stores c
      → Goes (mark_utterance frames written u c)
  mark-Goes written u c e v =
      if_ind Goes c.stores
        (λ _.
          subst (λ w. Goes (store_audio frames w c (record c { marks = u ∷ c.marks }))) (sym e)
            (keep c _ refl refl v, refl))
        (λ _. (v, refl))

  dispatched-Goes :
      (u : Utterance) (going : Capture S × Option CaptureEnd)
      → Goes going
      → Goes (and_then frames going (dispatched frames u))
  unfolding dispatch
  dispatched-Goes u (c, none) v = (dispatch-Stores c.sink u c v.0, refl)
  dispatched-Goes u (c, some end) v = cc

  chunk-Goes :
      (mark : Written) (c : Capture S) (fed : VadChunker × Option Utterance)
      → mark ≡ stored
      → Stores c
      → Goes (after_chunk frames mark c fed)
  chunk-Goes mark c (chunker, none) e v = (keep c _ refl refl v, refl)
  chunk-Goes mark c (chunker, some u) e v =
      dispatched-Goes u (mark_utterance frames mark u (record c { chunker = chunker }))
        (mark-Goes mark u (record c { chunker = chunker }) e (keep c _ refl refl v))

  judge-Goes :
      (a : Arrival) (verdict : Option Bool) (c : Capture S)
      → a.mark ≡ stored
      → is_some verdict ≡ true
      → Stores c
      → Goes (judge frames a verdict c)
  judge-Goes a none c e h v = cc
  judge-Goes a (some b) c e h v =
      chunk-Goes a.mark (record c { sink = shown frames a b c.sink })
        (feed c.chunker a.frame a.ts b) e (keep c _ refl refl v)

  read-Goes :
      (w : DiskWatch) (now : ℤ) (free : Option ℕ) (c : Capture S)
      → is_some free ≡ true
      → Stores c
      → Goes (read_disk frames w now free c)
  read-Goes w now none c e v = cc
  read-Goes w now (some free) c e v = (keep c _ refl refl v, refl)

  watch-Goes :
      (watch : Option DiskWatch) (a : Arrival) (c : Capture S)
      → is_some a.free_bytes ≡ true
      → Stores c
      → Goes (watch_with frames watch a c)
  watch-Goes none a c e v = (v, refl)
  watch-Goes (some w) a c e v = read-Goes w a.now a.free_bytes c e v

  then-Goes :
      (going : Capture S × Option CaptureEnd) (next : Capture S → Capture S × Option CaptureEnd)
      → Goes going
      → ((c : Capture S) → Stores c → Goes (next c))
      → Goes (and_then frames going next)
  then-Goes (c, none) next v h = h c v.0
  then-Goes (c, some end) next v h = cc

module _ {S : Type 0} (frames : FrameSink S) where
  hear-Goes :
      (c : Capture S) (a : Arrival)
      → c.stores ≡ true
      → a.write ≡ stored
      → a.mark ≡ stored
      → is_some a.verdict ≡ true
      → is_some a.free_bytes ≡ true
      → Goes frames (a.frame ∷ c.recorded) (hear frames c a)
  unfolding hear
  hear-Goes c a on write mark heard read =
      let r = a.frame ∷ c.recorded in
      let noted = note_frame frames a c in
      let written = record noted { recorded = r } in
      let wrote : Goes frames r (write_frame frames a noted) =
        if_ind (Goes frames r) c.stores
          (λ _.
            subst (λ w. Goes frames r (store_audio frames w noted written)) (sym write)
              (record { writes = on; recorded_lem = refl }, refl))
          (λ off. absurd (true≢false (sym on ∙ off))) in
      then-Goes frames r (and_then frames (write_frame frames a noted) (watch_disk frames a))
        (judge frames a a.verdict)
        (then-Goes frames r (write_frame frames a noted) (watch_disk frames a) wrote
          (λ c' v. watch-Goes frames r c'.watch a c' read v))
        (λ c' v. judge-Goes frames r a a.verdict c' mark heard v)

  go_on-recorded :
      (r : List (List ℕ)) (loop : Capture S → Capture S × CaptureEnd)
      (going : Capture S × Option CaptureEnd) (P : Capture S × CaptureEnd → Type 0)
      → ((c : Capture S) → Stores frames r c → P (loop c))
      → Goes frames r going
      → P (go_on frames loop going)
  go_on-recorded r loop (c, none) P h v = h c v.0
  go_on-recorded r loop (c, some end) P h v = cc

  abbrev Complete : List (List ℕ) → CaptureEnd → Capture S × CaptureEnd → Type 0
  Complete r last left = Stores frames r left.0 × (left.1 ≡ last)

  loop-Complete :
      (moments : List Moment) (last : CaptureEnd) (r : List (List ℕ)) (c : Capture S)
      → Stores frames r c
      → AllHandled moments
      → Complete (recorded_after r moments) last (capture_loop frames moments last c)
  unfolding capture_loop
  loop-Complete [] last r c v h = (v, refl)
  loop-Complete (consumed ∷ rest) last r c v h =
      loop-Complete rest last r (consume frames c) (keep frames r c _ refl refl v) h
  loop-Complete (arrived a ∷ rest) last r c v h =
      go_on-recorded (a.frame ∷ r) (capture_loop frames rest last) (hear frames c a)
        (Complete (recorded_after (a.frame ∷ r) rest) last)
        (λ c' w. loop-Complete rest last (a.frame ∷ r) c' w h.4)
        (subst (λ old. Goes frames (a.frame ∷ old) (hear frames c a)) v.recorded_lem
          (hear-Goes c a v.writes h.0 h.1 h.2 h.3))

  closing-Complete :
      (r : List (List ℕ)) (last : CaptureEnd) (going : Capture S × Option CaptureEnd)
      → Goes frames r going
      → Complete r last (closing frames last going)
  closing-Complete r last (c, none) v = (keep frames r c _ refl refl v.0, refl)
  closing-Complete r last (c, some end) v = cc

  close-Complete :
      (r : List (List ℕ)) (last : CaptureEnd) (left : Capture S × CaptureEnd)
      → Complete r last left
      → Complete r last (close_capture frames stored left)
  unfolding close_capture
  close-Complete r last (c, end) v =
      subst (λ e. Complete r last (close_capture frames stored (c, e))) (sym v.1)
        (closing-Complete r last (after_chunk frames stored c (flush c.chunker))
          (chunk-Goes frames r stored c (flush c.chunker) refl v.0))

  -- Where every write succeeds, the free space of the disk can be read and every frame is judged, the recording
  -- has every frame that came, in order and silence included, and the capture ends as its source did -
  -- whatever the consumer takes or loses of the queue, whatever a streaming path makes of the frames and
  -- however low the disk is.
  pub recording_is_complete :
      (moments : List Moment) (last : CaptureEnd) (c : Capture S)
      → c.stores ≡ true
      → AllHandled moments
      → ((capture_utterances frames moments last stored c).0.recorded
          ≡ recorded_after c.recorded moments)
        × ((capture_utterances frames moments last stored c).1 ≡ last)
  unfolding capture_utterances
  recording_is_complete moments last c on h =
      let v =
        close-Complete (recorded_after c.recorded moments) last (capture_loop frames moments last c)
          (loop-Complete moments last c.recorded c (record { writes = on; recorded_lem = refl })
            h) in
      (v.0.recorded_lem, v.1)
