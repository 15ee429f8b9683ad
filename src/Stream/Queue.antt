-- ===== src/Stream/Queue.antt =====
-- src/loreline/stt/streaming.py: the frame queue between the capture loop and the connection.
use loreline.Prelude.Int.{pos}
use loreline.Prelude.{
  ℕ, zero, suc, ◌≤◌, ◌<◌, ◌-◌, ◌≡◌, subst, Bool, true, false, not, ◌&&◌, ◌||◌, List, [], ◌∷◌, ◌++◌,
  arith, ltb, leb, if◌then◌else◌, length, length-append, keep_last, Bool-cases, inl, inr,
}
use loreline.Stream.Model.{Frame, Item, frame, stop_mark, Stream}

-- `queue.full()`: a queue of size 0 is never full.
abbrev pub is_full : Stream → Bool
is_full s = ltb 0 s.config.queue_frames && leb s.config.queue_frames (length s.queue)

abbrev pub drop_first : List Item → List Item
drop_first [] = []
drop_first (item ∷ queue) = queue

unfoldable pub feed : Stream → Frame → Stream
feed s f =
    if s.stopped
    then s
    else if is_full s
    then record s { queue = drop_first s.queue ++ frame f ∷ []; stalled = true }
    else record s { queue = s.queue ++ frame f ∷ [] }

unfoldable pub stop : Stream → Stream
stop s =
    if s.stopped
    then s
    else if is_full s
    then record s { queue = drop_first s.queue ++ stop_mark ∷ []; stopped = true }
    else record s { queue = s.queue ++ stop_mark ∷ []; stopped = true }

-- The loop of `_drain`, structural on the queue: each round takes the first item.
unfoldable pub drain_queue : ℕ → List Item → List Item
drain_queue keep [] = []
drain_queue keep (frame f ∷ queue) =
    let rest = drain_queue keep queue in
    if ltb keep (length (frame f ∷ queue)) then rest else frame f ∷ queue
drain_queue keep (stop_mark ∷ queue) =
    if ltb keep (length (stop_mark ∷ queue)) then queue ++ stop_mark ∷ [] else stop_mark ∷ queue

unfoldable pub drain : Stream → Stream
unfolding drain_queue
drain s = record s { queue = drain_queue s.config.resume_keep_frames s.queue }

abbrev pub AllFrames : List Item → Type 0
AllFrames [] = Unit
AllFrames (frame f ∷ queue) = AllFrames queue
AllFrames (stop_mark ∷ queue) = ⊥

-- Frames, and the stop mark behind them.
abbrev pub EndsByStop : List Item → Type 0
EndsByStop [] = ⊥
EndsByStop (frame f ∷ queue) = EndsByStop queue
EndsByStop (stop_mark ∷ []) = Unit
EndsByStop (stop_mark ∷ item ∷ queue) = ⊥

-- The queue before its stop mark is taken: it holds only frames until `stop`, and then the mark
-- stands once, behind every frame.
abbrev pub QueueFits : Bool → List Item → Type 0
QueueFits false queue = AllFrames queue
QueueFits true queue = EndsByStop queue

-- A number within a bound of which 0 means none.
abbrev pub Within : ℕ → ℕ → Type 0
Within zero n = Unit
Within (suc bound) n = n ≤ suc bound

within : (bound n : ℕ) → (0 < bound → n ≤ bound) → Within bound n
within zero n h = tt
within (suc bound) n h = h (omega arith)

Within-le : (bound n : ℕ) → Within bound n → 0 < bound → n ≤ bound
Within-le zero n w h = ground (arith, h)
Within-le (suc bound) n w h = w

pub record IsQueueValid (s : Stream) : Type 0 where
  pub marked : QueueFits s.stopped s.queue
  pub bounded : Within s.config.queue_frames (length s.queue)

AllFrames-snoc : (q : List Item) (f : Frame) → AllFrames q → AllFrames (q ++ frame f ∷ [])
AllFrames-snoc [] f h = tt
AllFrames-snoc (frame g ∷ q) f h = AllFrames-snoc q f h
AllFrames-snoc (stop_mark ∷ q) f h = h

EndsByStop-snoc : (q : List Item) → AllFrames q → EndsByStop (q ++ stop_mark ∷ [])
EndsByStop-snoc [] h = tt
EndsByStop-snoc (frame g ∷ q) h = EndsByStop-snoc q h
EndsByStop-snoc (stop_mark ∷ q) h = absurd h

AllFrames-drop_first : (q : List Item) → AllFrames q → AllFrames (drop_first q)
AllFrames-drop_first [] h = tt
AllFrames-drop_first (frame g ∷ q) h = h
AllFrames-drop_first (stop_mark ∷ q) h = absurd h

length-drop_first : (q : List Item) → length (drop_first q) ≡ length q - 1
length-drop_first [] = omega arith
length-drop_first (g ∷ q) = omega arith

module _ (s : Stream) (v : IsQueueValid s) (live : s.stopped ≡ false) where
  frames_only : AllFrames s.queue
  frames_only = subst (λ b. QueueFits b s.queue) live v.marked

-- A fed frame keeps the queue within its bound and behind it no stop mark, and an overflow of a live
-- stream is remembered as a stall.
pub feed-IsQueueValid :
    (s : Stream) (f : Frame)
    → IsQueueValid s
    → IsQueueValid (feed s f) × ((feed s f).stalled ≡ (s.stalled || (not s.stopped && is_full s)))
unfolding feed
feed-IsQueueValid s f v = elim (Bool-cases s.stopped) [
  | inl over ↦ (subst IsQueueValid (ground arith) v, ground arith)
  | inr live ↦ elim (Bool-cases (is_full s)) [
    | inl full ↦
        let counted = length-append (drop_first s.queue) (frame f ∷ []) in
        rw (feed, live, full)
          (
            record {
              marked =
                  AllFrames-snoc (drop_first s.queue) f
                    (AllFrames-drop_first s.queue (frames_only s v live));
              bounded = within _ _ (λ h. ground (
                arith,
                Within-le s.config.queue_frames (length s.queue) v.bounded h,
                counted,
                length-drop_first s.queue,
              ));
            },
            ground arith,
          )
    | inr room ↦
        let counted = length-append s.queue (frame f ∷ []) in
        rw (feed, live, room)
          (
            record {
              marked = AllFrames-snoc s.queue f (frames_only s v live);
              bounded = within _ _ (λ h.
                  ground
                    (arith, Within-le s.config.queue_frames (length s.queue) v.bounded h, counted));
            },
            ground arith,
          )
  ]
]

-- Whatever is queued, a stop puts its mark behind it, within the bound, and a second stop and a later
-- frame change nothing.
pub stop-IsQueueValid :
    (s : Stream) (f : Frame)
    → IsQueueValid s
    → IsQueueValid (stop s)
      × ((stop s).stopped ≡ true)
      × (stop (stop s) ≡ stop s)
      × (feed (stop s) f ≡ stop s)
unfolding stop feed
stop-IsQueueValid s f v = elim (Bool-cases s.stopped) [
  | inl over ↦ (subst IsQueueValid (ground arith) v, ground arith, ground arith, ground arith)
  | inr live ↦ elim (Bool-cases (is_full s)) [
    | inl full ↦
        let counted = length-append (drop_first s.queue) (stop_mark ∷ []) in
        (
          rw (stop, live, full)
              (record {
                marked =
                    EndsByStop-snoc (drop_first s.queue)
                      (AllFrames-drop_first s.queue (frames_only s v live));
                bounded = within _ _ (λ h. ground (
                  arith,
                  Within-le s.config.queue_frames (length s.queue) v.bounded h,
                  counted,
                  length-drop_first s.queue,
                ));
              }),
          ground arith,
          ground arith,
          ground arith,
        )
    | inr room ↦
        let counted = length-append s.queue (stop_mark ∷ []) in
        (
          rw (stop, live, room)
              (record {
                marked = EndsByStop-snoc s.queue (frames_only s v live);
                bounded = within _ _ (λ h.
                    ground (
                      arith,
                      Within-le s.config.queue_frames (length s.queue) v.bounded h,
                      counted,
                    ));
              }),
          ground arith,
          ground arith,
          ground arith,
        )
  ]
]

drain-AllFrames : (keep : ℕ) (q : List Item) → AllFrames q → AllFrames (drain_queue keep q)
unfolding drain_queue
drain-AllFrames keep [] h = tt
drain-AllFrames keep (frame f ∷ q) h = ground (arith, drain-AllFrames keep q h)
drain-AllFrames keep (stop_mark ∷ q) h = absurd h

drain-EndsByStop : (keep : ℕ) (q : List Item) → EndsByStop q → EndsByStop (drain_queue keep q)
unfolding drain_queue
drain-EndsByStop keep [] h = h
drain-EndsByStop keep (frame f ∷ q) h = ground (arith, drain-EndsByStop keep q h)
drain-EndsByStop keep (stop_mark ∷ []) h = ground arith
drain-EndsByStop keep (stop_mark ∷ i ∷ q) h = absurd h

keep_last-cons :
    (keep : ℕ) (i : Item) (q : List Item)
    → keep_last keep (i ∷ q) ≡ (if ltb keep (suc (length q)) then keep_last keep q else i ∷ q)
keep_last-cons keep i q = elim (Bool-cases (ltb keep (suc (length q)))) [
  | inl over ↦
      let more : suc (length q) - keep ≡ suc (length q - keep) = ground arith in rw (over, more)
  | inr fits ↦ let none_more : suc (length q) - keep ≡ 0 = ground arith in rw (fits, none_more)
]

-- Of frames alone the drain keeps the newest `keep`, in order.
drain-keep_last : (keep : ℕ) (q : List Item) → AllFrames q → drain_queue keep q ≡ keep_last keep q
unfolding drain_queue
drain-keep_last keep [] h = let nothing : 0 - keep ≡ 0 = omega arith in rw nothing
drain-keep_last keep (frame f ∷ q) h =
    ground (arith, keep_last-cons keep (frame f) q, drain-keep_last keep q h)
drain-keep_last keep (stop_mark ∷ q) h = absurd h

length-drain-le : (keep : ℕ) (q : List Item) → length (drain_queue keep q) ≤ length q
unfolding drain_queue
length-drain-le keep [] = omega arith
length-drain-le keep (frame f ∷ q) = ground (arith, length-drain-le keep q)
length-drain-le keep (stop_mark ∷ q) = ground (arith, length-append q (stop_mark ∷ []))

QueueFits-drain :
    (stopped : Bool) (keep : ℕ) (q : List Item)
    → QueueFits stopped q
    → QueueFits stopped (drain_queue keep q)
QueueFits-drain false keep q h = drain-AllFrames keep q h
QueueFits-drain true keep q h = drain-EndsByStop keep q h

-- A reconnect keeps the mark of a stop behind the frames, and the queue within its bound.
pub drain-IsQueueValid : (s : Stream) → IsQueueValid s → IsQueueValid (drain s)
unfolding drain
drain-IsQueueValid s v = record {
  marked = QueueFits-drain s.stopped s.config.resume_keep_frames s.queue v.marked;
  bounded = within _ _ (λ h. omega (
    arith,
    Within-le s.config.queue_frames (length s.queue) v.bounded h,
    length-drain-le s.config.resume_keep_frames s.queue,
  ));
}

-- While the stream runs, a reconnect keeps the newest `resume_keep_frames` frames, in order.
pub drain_keeps_newest :
    (s : Stream)
    → IsQueueValid s
    → s.stopped ≡ false
    → (drain s).queue ≡ keep_last s.config.resume_keep_frames s.queue
unfolding drain
drain_keeps_newest s v live =
    drain-keep_last s.config.resume_keep_frames s.queue (frames_only s v live)

pub data QueueOperation : Type 0 where
  feeds : Frame → QueueOperation
  stops : QueueOperation
  drains : QueueOperation

unfoldable pub operate : Stream → List QueueOperation → Stream
unfolding feed stop drain
operate s [] = s
operate s (feeds f ∷ rest) = operate (feed s f) rest
operate s (stops ∷ rest) = operate (stop s) rest
operate s (drains ∷ rest) = operate (drain s) rest

-- Whatever is fed, stopped and drained, and in whatever order, the queue stays within its bound, with no
-- stop mark before the stop and, from the stop on, one mark behind the frames.
pub queue_stays_valid :
    (s : Stream) (operations : List QueueOperation)
    → IsQueueValid s
    → IsQueueValid (operate s operations)
unfolding operate
queue_stays_valid s [] v = v
queue_stays_valid s (feeds f ∷ rest) v =
    queue_stays_valid (feed s f) rest (feed-IsQueueValid s f v).0
queue_stays_valid s (stops ∷ rest) v =
    queue_stays_valid (stop s) rest
      (stop-IsQueueValid s (record { pcm = []; ts = pos 0; is_speech = false }) v).0
queue_stays_valid s (drains ∷ rest) v = queue_stays_valid (drain s) rest (drain-IsQueueValid s v)
