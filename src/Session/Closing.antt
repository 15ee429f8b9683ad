-- ===== src/Session/Closing.antt =====
-- src/loreline/session/manager.py: what the capture loop owes to its consumers and to the recording.
use loreline.Prelude.{
  ℕ, suc, ◌≤◌, ◌≡◌, refl, ap, sym, ◌∙◌, arith, subst, Bool, true, false, Option, none, some, List,
  [], ◌∷◌, ◌++◌, if◌then◌else◌, if_ind, length, length-append, leb,
}
use loreline.Prelude.Int.{ℤ, ltb_ℤ}
use loreline.Session.Disk.{DiskWatch}
use loreline.Audio.Chunker.{Utterance, VadChunker, feed, flush}
use loreline.Session.Capture.{
  FrameSink, Item, queued, capture_done, utterance_queue_max, drop_oldest, offer, CaptureEnd,
  Written, stored, no_space, write_failed, Arrival, Moment, arrived, consumed, Capture, shown,
  take_item, dequeue, and_then, store_audio, dispatch_to, dispatch, write_frame, mark_utterance,
  dispatched, after_chunk, judge, watch_disk, watch_with, read_disk, note_frame, hear, consume,
  go_on, capture_loop, done_sink, finalize, closing, close_capture, capture_utterances,
}

abbrev pub is_some {ℓ} : {A : Type ℓ} → Option A → Bool
is_some none = false
is_some (some a) = true

abbrev pub OnlyUtterances : List Item → Type 0
OnlyUtterances [] = Unit
OnlyUtterances (queued u ∷ queue) = OnlyUtterances queue
OnlyUtterances (capture_done ∷ queue) = ⊥

-- The queue while the loop runs, and whether there is a sink.
pub record IsOpen {S : Type 0} (streams : Bool) (c : Capture S) : Type 0 where
  pub only : OnlyUtterances c.queue
  pub bounded : length c.queue ≤ utterance_queue_max
  pub sink_lem : is_some c.sink ≡ streams

OnlyUtterances-append :
    (queue : List Item) (u : Utterance)
    → OnlyUtterances queue
    → OnlyUtterances (queue ++ (queued u ∷ []))
OnlyUtterances-append [] u v = tt
OnlyUtterances-append (queued w ∷ queue) u v = OnlyUtterances-append queue u v
OnlyUtterances-append (capture_done ∷ queue) u v = absurd v

-- What `offer` puts its item behind.
abbrev kept : List Item → List Item
kept queue = if leb utterance_queue_max (length queue) then drop_oldest queue else queue

kept-OnlyUtterances : (queue : List Item) → OnlyUtterances queue → OnlyUtterances (kept queue)
kept-OnlyUtterances [] v = tt
kept-OnlyUtterances (queued u ∷ queue) v =
    if_ind OnlyUtterances (leb utterance_queue_max (suc (length queue))) (λ _. v) (λ _. v)
kept-OnlyUtterances (capture_done ∷ queue) v = absurd v

offer-length :
    (queue : List Item) (item : Item)
    → length queue ≤ utterance_queue_max
    → length (offer queue item) ≤ utterance_queue_max
unfolding offer
offer-length [] item h = ground arith
offer-length (i ∷ queue) item h =
    ground (arith, h, length-append queue (item ∷ []), length-append (i ∷ queue) (item ∷ []))

offer-OnlyUtterances :
    (queue : List Item) (u : Utterance)
    → OnlyUtterances queue
    → OnlyUtterances (offer queue (queued u))
unfolding offer
offer-OnlyUtterances queue u v = OnlyUtterances-append (kept queue) u (kept-OnlyUtterances queue v)

dequeue-ends :
    (queue : List Item)
    → OnlyUtterances queue
    → is_some (dequeue (queue ++ (capture_done ∷ []))) ≡ true
unfolding dequeue
dequeue-ends [] v = refl
dequeue-ends (capture_done ∷ queue) v = absurd v
dequeue-ends (queued u ∷ queue) v =
    taken u (dequeue (queue ++ (capture_done ∷ []))) (dequeue-ends queue v)
  where
    taken :
        (u : Utterance) (rest : Option (List Utterance))
        → is_some rest ≡ true
        → is_some (elim rest [ none ↦ none | some us ↦ some (u ∷ us) ]) ≡ true
    taken u none h = cc
    taken u (some us) h = refl

module _ {S : Type 0} (frames : FrameSink S) (streams : Bool) where
  abbrev Opens : Capture S × Option CaptureEnd → Type 0
  Opens going = IsOpen streams going.0

  keep :
      (c c' : Capture S)
      → c'.queue ≡ c.queue
      → is_some c'.sink ≡ is_some c.sink
      → IsOpen streams c
      → IsOpen streams c'
  keep c c' same sink v = record {
    only = subst OnlyUtterances (sym same) v.only;
    bounded = ground (arith, v.bounded, same);
    sink_lem = sink ∙ v.sink_lem;
  }

  then-Opens :
      (going : Capture S × Option CaptureEnd) (next : Capture S → Capture S × Option CaptureEnd)
      → Opens going
      → ((c : Capture S) → IsOpen streams c → Opens (next c))
      → Opens (and_then frames going next)
  then-Opens (c, none) next v h = h c v
  then-Opens (c, some end) next v h = v

  store-Opens :
      (written : Written) (before after : Capture S)
      → IsOpen streams before
      → IsOpen streams after
      → Opens (store_audio frames written before after)
  store-Opens stored before after v w = w
  store-Opens no_space before after v w = v
  store-Opens write_failed before after v w = v

  mark-Opens :
      (written : Written) (u : Utterance) (c : Capture S)
      → IsOpen streams c
      → Opens (mark_utterance frames written u c)
  mark-Opens written u c v =
      if_ind Opens c.stores
        (λ _. store-Opens written c (record c { marks = u ∷ c.marks }) v (keep c _ refl refl v))
        (λ _. v)

  dispatch-IsOpen :
      (s : Option S) (u : Utterance) (c : Capture S)
      → c.sink ≡ s
      → IsOpen streams c
      → IsOpen streams (dispatch_to frames s u c)
  dispatch-IsOpen none u c e v = record {
    only = offer-OnlyUtterances c.queue u v.only;
    bounded = offer-length c.queue (queued u) v.bounded;
    sink_lem = v.sink_lem;
  }
  dispatch-IsOpen (some s) u c e v =
      if_ind (IsOpen streams) (frames.queues_utterances s)
        (λ _. record {
          only = v.only;
          bounded = v.bounded;
          sink_lem = ap is_some (sym e) ∙ v.sink_lem;
        })
        (λ _. v)

  chunk-Opens :
      (mark : Written) (c : Capture S) (fed : VadChunker × Option Utterance)
      → IsOpen streams c
      → Opens (after_chunk frames mark c fed)
  unfolding dispatch
  chunk-Opens mark c (chunker, none) v = keep c _ refl refl v
  chunk-Opens mark c (chunker, some u) v =
      then-Opens (mark_utterance frames mark u (record c { chunker = chunker }))
        (dispatched frames u)
        (mark-Opens mark u (record c { chunker = chunker }) (keep c _ refl refl v))
        (λ c' w. dispatch-IsOpen c'.sink u c' refl w)

  shown_lem : (a : Arrival) (b : Bool) (s : Option S) → is_some (shown frames a b s) ≡ is_some s
  shown_lem a b none = refl
  shown_lem a b (some s) = refl

  judge-Opens :
      (a : Arrival) (verdict : Option Bool) (c : Capture S)
      → IsOpen streams c
      → Opens (judge frames a verdict c)
  judge-Opens a none c v = v
  judge-Opens a (some b) c v =
      chunk-Opens a.mark (record c { sink = shown frames a b c.sink })
        (feed c.chunker a.frame a.ts b) (keep c _ refl (shown_lem a b c.sink) v)

  read-Opens :
      (w : DiskWatch) (now : ℤ) (free : Option ℕ) (c : Capture S)
      → IsOpen streams c
      → Opens (read_disk frames w now free c)
  read-Opens w now (some free) c v = keep c _ refl refl v
  read-Opens w now none c v =
      if_ind Opens (ltb_ℤ now w.next_check) (λ _. v) (λ _. keep c _ refl refl v)

  watch-Opens :
      (watch : Option DiskWatch) (a : Arrival) (c : Capture S)
      → IsOpen streams c
      → Opens (watch_with frames watch a c)
  watch-Opens none a c v = v
  watch-Opens (some w) a c v = read-Opens w a.now a.free_bytes c v

  hear-Opens : (c : Capture S) (a : Arrival) → IsOpen streams c → Opens (hear frames c a)
  unfolding hear
  hear-Opens c a v =
      let noted = note_frame frames a c in
      let ready : IsOpen streams noted = keep c _ refl refl v in
      then-Opens (and_then frames (write_frame frames a noted) (watch_disk frames a))
        (judge frames a a.verdict)
        (then-Opens (write_frame frames a noted) (watch_disk frames a)
          (if_ind Opens c.stores
            (λ _.
              store-Opens a.write noted (record noted { recorded = a.frame ∷ noted.recorded }) ready
                (keep noted _ refl refl ready))
            (λ _. ready))
          (λ c' w. watch-Opens c'.watch a c' w))
        (λ c' w. judge-Opens a a.verdict c' w)

  take-Opens :
      (queue : List Item) (taken : List Utterance)
      → OnlyUtterances queue
      → length queue ≤ utterance_queue_max
      → OnlyUtterances (take_item queue taken).0
        × (length (take_item queue taken).0 ≤ utterance_queue_max)
  take-Opens [] taken v h = (tt, h)
  take-Opens (queued u ∷ queue) taken v h = (v, omega (arith, h))
  take-Opens (capture_done ∷ queue) taken v h = absurd v

  go_on-IsOpen :
      (loop : Capture S → Capture S × CaptureEnd) (going : Capture S × Option CaptureEnd)
      → ((c : Capture S) → IsOpen streams c → IsOpen streams (loop c).0)
      → Opens going
      → IsOpen streams (go_on frames loop going).0
  go_on-IsOpen loop (c, none) h v = h c v
  go_on-IsOpen loop (c, some end) h v = v

  loop-IsOpen :
      (moments : List Moment) (last : CaptureEnd) (c : Capture S)
      → IsOpen streams c
      → IsOpen streams (capture_loop frames moments last c).0
  unfolding capture_loop
  loop-IsOpen [] last c v = v
  loop-IsOpen (consumed ∷ rest) last c v =
      let (only, bounded) = take-Opens c.queue c.dequeued v.only v.bounded in
      loop-IsOpen rest last (consume frames c)
        (record { only = only; bounded = bounded; sink_lem = v.sink_lem })
  loop-IsOpen (arrived a ∷ rest) last c v =
      go_on-IsOpen (capture_loop frames rest last) (hear frames c a)
        (λ c' w. loop-IsOpen rest last c' w) (hear-Opens c a v)

  -- What the consumers are left with: an end to the queue, within its bound, and a `done` for the sink.
  pub record IsEnded (c : Capture S) : Type 0 where
    pub ends : is_some (dequeue c.queue) ≡ true
    pub fits : length c.queue ≤ utterance_queue_max
    pub sink_kept : is_some c.sink ≡ streams
    pub sink_done : (before : Option S) × (c.sink ≡ done_sink frames before)

  done_lem : (s : Option S) → is_some (done_sink frames s) ≡ is_some s
  done_lem none = refl
  done_lem (some s) = refl

  finalize-IsEnded : (c : Capture S) → IsOpen streams c → IsEnded (finalize frames c)
  unfolding offer
  finalize-IsEnded c v = record {
    ends = dequeue-ends (kept c.queue) (kept-OnlyUtterances c.queue v.only);
    fits = offer-length c.queue capture_done v.bounded;
    sink_kept = done_lem c.sink ∙ v.sink_lem;
    sink_done = (c.sink, refl);
  }

  closing-IsEnded :
      (end : CaptureEnd) (going : Capture S × Option CaptureEnd)
      → Opens going
      → IsEnded (closing frames end going).0
  closing-IsEnded end (c, why) v = finalize-IsEnded c v

  close-IsEnded :
      (mark : Written) (left : Capture S × CaptureEnd)
      → IsOpen streams left.0
      → IsEnded (close_capture frames mark left).0
  unfolding close_capture
  close-IsEnded mark (c, end) v =
      closing-IsEnded end (after_chunk frames mark c (flush c.chunker))
        (chunk-Opens mark c (flush c.chunker) v)

  -- However a capture ends - stopped, cancelled, with a source, a detector or a write that fails, with a full
  -- disk, or with a last utterance that cannot be marked - its queue, in its bound, has an end that the
  -- consumer's loop comes to, and where there is a sink the last thing it was told is that it is done.
  pub capture-IsEnded :
      (moments : List Moment) (last : CaptureEnd) (mark : Written) (c : Capture S)
      → IsOpen streams c
      → IsEnded (capture_utterances frames moments last mark c).0
  unfolding capture_utterances
  capture-IsEnded moments last mark c v =
      close-IsEnded mark (capture_loop frames moments last c) (loop-IsOpen moments last c v)
