-- ===== src/Bus/Logs.antt =====
-- src/loreline/logbus.py: the ring of log records, and the fields that attribute one to a capture.
use loreline.Prelude.{
  ℕ, zero, suc, ◌+◌, ◌-◌, ◌≤◌, ◌≡◌, subst, String, str_eq, Bool, true, false, ◌&&◌, Option, none,
  some, List, [], ◌∷◌, ◌++◌, arith, length, length-append, length-drop, drop, keep_last,
}
use loreline.Bus.Model.{EventBus, new_bus, publish}

pub record LogRecord : Type 0 where
  pub seq : ℕ
  pub line : String
  pub session_id : Option String
  pub job_id : Option String

abbrev pub same_session : Option String → Option String → Bool
same_session (some live) (some session) = str_eq session live
same_session _ _ = false

abbrev pub is_none : Option String → Bool
is_none none = true
is_none (some s) = false

unfoldable pub is_capture_line : LogRecord → Option String → Bool
is_capture_line l live = same_session live l.session_id && is_none l.job_id

pub record LogBroadcaster : Type 0 where
  pub maxlen : ℕ
  pub buffer : List LogRecord
  pub bus : EventBus LogRecord
  pub seq : ℕ

unfoldable pub new_log : ℕ → LogBroadcaster
new_log maxlen = record { maxlen = maxlen; buffer = []; bus = new_bus 256; seq = 0 }

unfoldable pub history : LogBroadcaster → List LogRecord
history b = b.buffer

unfoldable pub emit : LogBroadcaster → String → Option String → Option String → LogBroadcaster
emit b line session_id job_id =
    let l : LogRecord = record {
      seq = suc b.seq;
      line = line;
      session_id = session_id;
      job_id = job_id;
    } in
    record b {
      seq = suc b.seq;
      buffer = keep_last b.maxlen (b.buffer ++ l ∷ []);
      bus = publish b.bus l;
    }

-- The records carry the numbers after `n`, one after another.
abbrev pub Numbered : ℕ → List LogRecord → Type 0
Numbered n [] = Unit
Numbered n (l ∷ ls) = (l.seq ≡ suc n) × Numbered (suc n) ls

-- The ring holds the newest records, without a hole, up to the last number given out.
pub record IsLog (b : LogBroadcaster) : Type 0 where
  pub bound : length b.buffer ≤ b.maxlen
  pub no_more : length b.buffer ≤ b.seq
  pub numbered : Numbered (b.seq - length b.buffer) b.buffer

Numbered-snoc :
    (n : ℕ) (ls : List LogRecord) (l : LogRecord)
    → Numbered n ls
    → l.seq ≡ suc (n + length ls)
    → Numbered n (ls ++ l ∷ [])
Numbered-snoc n [] l h e = (omega (arith, e), tt)
Numbered-snoc n (k ∷ ls) l (h, hs) e = (h, Numbered-snoc (suc n) ls l hs (omega (arith, e)))

Numbered-drop :
    (k n : ℕ) (ls : List LogRecord) → k ≤ length ls → Numbered n ls → Numbered (n + k) (drop k ls)
Numbered-drop zero n ls h v =
    let same : n ≡ n + 0 = omega arith in subst (λ j. Numbered j ls) same v
Numbered-drop (suc k) n [] h v = ground (arith, h)
Numbered-drop (suc k) n (l ∷ ls) h (v, vs) =
    let moved : suc n + k ≡ n + suc k = omega arith in
    subst (λ j. Numbered j (drop k ls)) moved (Numbered-drop k (suc n) ls (omega (arith, h)) vs)

-- Each emission leaves the ring within its bound and without a hole, ending with the record just
-- emitted: what a client replays and what it then receives follow each other.
pub emit-IsLog :
    (b : LogBroadcaster) (line : String) (session_id job_id : Option String)
    → IsLog b
    → IsLog (emit b line session_id job_id)
unfolding emit
emit-IsLog b line session_id job_id v =
    let l : LogRecord = record {
      seq = suc b.seq;
      line = line;
      session_id = session_id;
      job_id = job_id;
    } in
    let all = b.buffer ++ l ∷ [] in
    let count = length-append b.buffer (l ∷ []) in
    let over = length all - b.maxlen in
    let left = length-drop over all in
    let first = b.seq - length b.buffer in
    let numbered = Numbered-snoc first b.buffer l v.numbered (omega (arith, v.no_more)) in
    let start : first + over ≡ suc b.seq - length (drop over all) =
      omega (arith, count, left, v.no_more) in
    record {
      bound = omega (arith, left);
      no_more = omega (arith, left, count, v.no_more);
      numbered =
          subst (λ j. Numbered j (drop over all)) start
            (Numbered-drop over first all (omega arith) numbered);
    }
