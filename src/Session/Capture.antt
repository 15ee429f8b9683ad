-- ===== src/Session/Capture.antt =====
-- src/loreline/session/manager.py: `_capture_utterances`, which runs for as long as a recording does, and
-- `_dequeue`, its consumer. The moments of a session are the frames that come and the turns of the
-- consumer. The level meter is left out.
use loreline.Prelude.{
  ℕ, ◌+◌, ◌/◌, leb, Bool, Option, none, some, List, [], ◌∷◌, ◌++◌, if◌then◌else◌, length,
}
use loreline.Prelude.Int.{ℤ, ◌+ℤ◌, ltb_ℤ}
use loreline.Session.Disk.{DiskWatch, check_disk}
use loreline.Audio.Chunker.{Utterance, VadChunker, feed, flush}

-- What the loop asks of a streaming path.
pub record FrameSink (S : Type 0) : Type 0 where
  pub frame : S → List ℕ → ℤ → Bool → S
  pub utterance : S → Utterance → S
  pub queues_utterances : S → Bool
  pub done : S → S

pub record CaptureStats : Type 0 where
  pub sample_rate : ℕ
  pub samples : ℕ
  pub last_frame : ℤ

unfoldable pub record_frame : CaptureStats → List ℕ → ℤ → CaptureStats
record_frame stats frame now = record stats {
  samples = stats.samples + length frame / 2;
  last_frame = now;
}

pub data Item : Type 0 where
  queued : Utterance → Item
  capture_done : Item

abbrev pub utterance_queue_max : ℕ
utterance_queue_max = 64

abbrev pub drop_oldest : List Item → List Item
drop_oldest [] = []
drop_oldest (i ∷ queue) = queue

unfoldable pub offer : List Item → Item → List Item
offer queue item =
    (if leb utterance_queue_max (length queue) then drop_oldest queue else queue) ++ (item ∷ [])

-- How the loop ends; a cancellation is a failure.
pub data CaptureEnd : Type 0 where
  stopped : CaptureEnd
  disk_full : ℕ → CaptureEnd
  failed : CaptureEnd

-- What a write to the audio store comes to.
pub data Written : Type 0 where
  stored no_space write_failed : Written

-- A frame and what is met on its way; a detector without a verdict raises, and so does a reading of the
-- disk without its free space.
pub record Arrival : Type 0 where
  pub frame : List ℕ
  pub ts : ℤ
  pub now : ℤ
  pub free_bytes : Option ℕ
  pub write : Written
  pub verdict : Option Bool
  pub mark : Written

pub data Moment : Type 0 where
  arrived : Arrival → Moment
  consumed : Moment

-- `dequeued` is what the consumer has taken, and `recorded` and `marks` are what was stored, all newest first.
pub record Capture (S : Type 0) : Type 0 where
  pub chunker : VadChunker
  pub stats : CaptureStats
  pub stores : Bool
  pub recorded : List (List ℕ)
  pub marks : List Utterance
  pub watch : Option DiskWatch
  pub queue : List Item
  pub dequeued : List Utterance
  pub sink : Option S

-- A consumer waits on an empty queue, and is gone after the end of the capture.
abbrev pub take_item : List Item → List Utterance → List Item × List Utterance
take_item [] taken = ([], taken)
take_item (capture_done ∷ queue) taken = (capture_done ∷ queue, taken)
take_item (queued u ∷ queue) taken = (queue, u ∷ taken)

-- `_dequeue`, on what is queued: none where it would wait for ever.
unfoldable pub dequeue : List Item → Option (List Utterance)
dequeue [] = none
dequeue (capture_done ∷ queue) = some []
dequeue (queued u ∷ queue) = elim (dequeue queue) [ none ↦ none | some us ↦ some (u ∷ us) ]

module _ {S : Type 0} (frames : FrameSink S) where
  abbrev Going : Type 0
  Going = Capture S × Option CaptureEnd

  abbrev pub and_then : Going → (Capture S → Going) → Going
  and_then (c, none) next = next c
  and_then (c, some end) next = (c, some end)

  -- `_store_audio`
  abbrev pub store_audio : Written → Capture S → Capture S → Going
  store_audio stored before after = (after, none)
  store_audio no_space before after = (before, some (disk_full before.stats.samples))
  store_audio write_failed before after = (before, some failed)

  abbrev pub dispatch_to : Option S → Utterance → Capture S → Capture S
  dispatch_to none u c = record c { queue = offer c.queue (queued u) }
  dispatch_to (some s) u c =
      if frames.queues_utterances s then record c { sink = some (frames.utterance s u) } else c

  -- `_dispatch`
  unfoldable pub dispatch : Capture S → Utterance → Capture S
  unfolding offer
  dispatch c u = dispatch_to c.sink u c

  abbrev pub write_frame : Arrival → Capture S → Going
  write_frame a c =
      if c.stores
      then store_audio a.write c (record c { recorded = a.frame ∷ c.recorded })
      else (c, none)

  abbrev pub mark_utterance : Written → Utterance → Capture S → Going
  mark_utterance written u c =
      if c.stores then store_audio written c (record c { marks = u ∷ c.marks }) else (c, none)

  abbrev pub dispatched : Utterance → Capture S → Going
  dispatched u c = (dispatch c u, none)

  abbrev pub after_chunk : Written → Capture S → VadChunker × Option Utterance → Going
  after_chunk mark c (chunker, none) = (record c { chunker = chunker }, none)
  after_chunk mark c (chunker, some u) =
      and_then (mark_utterance mark u (record c { chunker = chunker })) (dispatched u)

  abbrev pub shown : Arrival → Bool → Option S → Option S
  shown a is_speech none = none
  shown a is_speech (some s) = some (frames.frame s a.frame a.ts is_speech)

  abbrev pub judge : Arrival → Option Bool → Capture S → Going
  judge a none c = (c, some failed)
  judge a (some is_speech) c =
      after_chunk a.mark (record c { sink = shown a is_speech c.sink })
        (feed c.chunker a.frame a.ts is_speech)

  -- `_DiskWatch.check`, with the reading that it may make: one that raises has moved the next check.
  abbrev pub read_disk : DiskWatch → ℤ → Option ℕ → Capture S → Going
  read_disk w now (some free) c = (record c { watch = some (check_disk w now free) }, none)
  read_disk w now none c =
      if ltb_ℤ now w.next_check
      then (c, none)
      else (record c { watch = some (record w { next_check = now +ℤ w.interval }) }, some failed)

  abbrev pub watch_with : Option DiskWatch → Arrival → Capture S → Going
  watch_with none a c = (c, none)
  watch_with (some w) a c = read_disk w a.now a.free_bytes c

  abbrev pub watch_disk : Arrival → Capture S → Going
  watch_disk a c = watch_with c.watch a c

  abbrev pub note_frame : Arrival → Capture S → Capture S
  note_frame a c = record c { stats = record_frame c.stats a.frame a.now }

  -- One round of the loop.
  unfoldable pub hear : Capture S → Arrival → Going
  unfolding record_frame check_disk dispatch feed
  hear c a = and_then (and_then (write_frame a (note_frame a c)) (watch_disk a)) (judge a a.verdict)

  abbrev pub consume : Capture S → Capture S
  consume c =
      let (queue, taken) = take_item c.queue c.dequeued in
      record c { queue = queue; dequeued = taken }

  abbrev pub go_on : (Capture S → Capture S × CaptureEnd) → Going → Capture S × CaptureEnd
  go_on loop (c, none) = loop c
  go_on loop (c, some end) = (c, end)

  -- The loop, over what comes until the source ends as `last` says.
  unfoldable pub capture_loop : List Moment → CaptureEnd → Capture S → Capture S × CaptureEnd
  unfolding hear
  capture_loop [] last c = (c, last)
  capture_loop (consumed ∷ rest) last c = capture_loop rest last (consume c)
  capture_loop (arrived a ∷ rest) last c = go_on (capture_loop rest last) (hear c a)

  abbrev pub done_sink : Option S → Option S
  done_sink none = none
  done_sink (some s) = some (frames.done s)

  abbrev pub finalize : Capture S → Capture S
  finalize c = record c { sink = done_sink c.sink; queue = offer c.queue capture_done }

  -- How the loop ends, where closing it fails as well.
  abbrev end_of : CaptureEnd → Option CaptureEnd → CaptureEnd
  end_of end none = end
  end_of end (some later) = later

  abbrev pub closing : CaptureEnd → Going → Capture S × CaptureEnd
  closing end (c, why) = (finalize c, end_of end why)

  -- `_close_capture`
  unfoldable pub close_capture : Written → Capture S × CaptureEnd → Capture S × CaptureEnd
  unfolding flush dispatch offer
  close_capture mark (c, end) = closing end (after_chunk mark c (flush c.chunker))

  -- `_capture_utterances`
  unfoldable pub capture_utterances :
      List Moment → CaptureEnd → Written → Capture S → Capture S × CaptureEnd
  unfolding capture_loop close_capture
  capture_utterances moments last mark c = close_capture mark (capture_loop moments last c)
