-- ===== src/Bus/Model.antt =====
-- src/loreline/bus.py: `EventBus`. A subscriber is its queue, its bound and its filter. Nothing awaits
-- between a publisher's snapshot of the subscribers and the last of its puts, so a publication is one
-- step; the queue objects are told apart by a number.
use loreline.Prelude.{
  ℕ, suc, Bool, true, false, ◌&&◌, Option, none, some, List, [], ◌∷◌, ◌++◌, map, leb, ltb, ◌==◌,
  if◌then◌else◌, length,
}

-- `_drop_oldest`
abbrev pub drop_oldest {ℓ} : {A : Type ℓ} → List A → List A
drop_oldest [] = []
drop_oldest (x ∷ xs) = xs

module _ {ℓ} (T : Type ℓ) where
  -- What a queue holds: an item, or the mark `_CLOSE`.
  pub data Entry : Type ℓ where
    item : T → Entry
    close : Entry

  pub record Subscriber : Type ℓ where
    pub id : ℕ
    pub maxsize : ℕ
    pub wanted : T → Bool
    pub queue : List Entry

  pub record EventBus : Type ℓ where
    pub maxsize : ℕ
    pub next_id : ℕ
    pub subscribers : List Subscriber

module _ {ℓ} {T : Type ℓ} where
  unfoldable pub new_bus : ℕ → EventBus T
  new_bus maxsize = record { maxsize = maxsize; next_id = 0; subscribers = [] }

  -- `queue.full()`
  abbrev pub is_full : Subscriber T → Bool
  is_full s = ltb 0 s.maxsize && leb s.maxsize (length s.queue)

  unfoldable pub put : Subscriber T → Entry T → Subscriber T
  put s e =
      if is_full s
      then record s { queue = drop_oldest s.queue ++ e ∷ [] }
      else record s { queue = s.queue ++ e ∷ [] }

  unfoldable pub deliver : T → Subscriber T → Subscriber T
  unfolding put
  deliver x s = if s.wanted x then put s (item x) else s

  -- `publish` and `publish_nowait`
  unfoldable pub publish : EventBus T → T → EventBus T
  publish b x = record b { subscribers = map (deliver x) b.subscribers }

  abbrev pub end_of : Subscriber T → Subscriber T
  unfolding put
  end_of s = put s close

  unfoldable pub aclose : EventBus T → EventBus T
  unfolding put
  aclose b = record b { subscribers = map end_of b.subscribers }

  -- The filter of a subscriber that asked for none.
  abbrev pub everything : T → Bool
  everything x = true

  abbrev pub wanted_or : Option (T → Bool) → T → Bool
  wanted_or none = everything
  wanted_or (some wanted) = wanted

  -- Entering `subscribe`: the new subscriber's number, and the bus with it.
  unfoldable pub subscribe : EventBus T → Bool → Option (T → Bool) → EventBus T × ℕ
  subscribe b reliable wanted =
      let s : Subscriber T = record {
        id = b.next_id;
        maxsize = if reliable then 0 else b.maxsize;
        wanted = wanted_or wanted;
        queue = [];
      } in
      (record b { next_id = suc b.next_id; subscribers = b.subscribers ++ s ∷ [] }, b.next_id)

  abbrev pub without : ℕ → List (Subscriber T) → List (Subscriber T)
  without id [] = []
  without id (s ∷ rest) = if s.id == id then rest else s ∷ without id rest

  -- Leaving `subscribe`.
  unfoldable pub unsubscribe : EventBus T → ℕ → EventBus T
  unsubscribe b id = record b { subscribers = without id b.subscribers }

  unfoldable pub subscriber_count : EventBus T → ℕ
  subscriber_count b = length b.subscribers

  abbrev pub before_item : T → List T × Bool → List T × Bool
  before_item x (xs, closed) = (x ∷ xs, closed)

  -- `_drain` on what is queued: the items it yields, and whether it returned.
  unfoldable pub drain : List (Entry T) → List T × Bool
  drain [] = ([], false)
  drain (item x ∷ rest) = before_item x (drain rest)
  drain (close ∷ rest) = ([], true)
