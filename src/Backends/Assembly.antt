-- ===== src/Backends/Assembly.antt =====
-- src/loreline/stt/backends/assemblyai.py: `AssemblyAIBackend`, one streaming connection: the audio that it
-- re-blocks and the messages that it reads as signals. A message is what the JSON helpers make of a frame, and
-- `sent` is the history of the audio messages, oldest first.
use loreline.Prelude.{
  ℕ, zero, suc, ◌-◌, ◌*◌, ◌/◌, String, is_blank, Bool, true, false, Option, none, some, List, [],
  ◌∷◌, ◌++◌, if◌then◌else◌, leb, length, take, drop, is_nil,
}
use loreline.Prelude.Int.{ℤ}
use loreline.Prelude.Dict.{Dict, lookup, put}
use loreline.Transcript.{Word}
use loreline.Stream.Model.{StreamSignal, turn_started, turn_partial, turn_final, stream_alive}

pub record Revision : Type 0 where
  pub ref : String
  pub words : List Word

pub data Message : Type 0 where
  turn : (ref transcript : String) (words : List Word) (end_of_turn : Bool) → Message
  speaker_revision : List Revision → Message
  error_message : Message
  speech_started : Message
  termination : Message
  other : Message

pub record Socket : Type 0 where
  pub sample_rate : ℕ
  pub pending : List ℕ
  pub sent : List (List ℕ)
  pub turn_open : Bool
  pub finals : Dict String
  pub terminated : Bool

-- `_MIN_CHUNK_MS` and `_MAX_CHUNK_MS` of audio
unfoldable pub min_bytes : ℕ → ℕ
min_bytes rate = rate * 2 * 50 / 1000

unfoldable pub max_bytes : ℕ → ℕ
max_bytes rate = rate * 2 * 1000 / 1000

-- The loop of `send_audio`: the blocks that are sent and what is left. On fuel.
unfoldable pub cut_blocks : ℕ → ℕ → ℕ → List ℕ → List (List ℕ) × List ℕ
cut_blocks zero lo hi pending = ([], pending)
cut_blocks (suc n) lo hi pending =
    let rest = cut_blocks n lo hi (drop hi pending) in
    if leb lo (length pending) then (take hi pending ∷ rest.0, rest.1) else ([], pending)

unfoldable pub send_audio : Socket → List ℕ → Socket
unfolding cut_blocks min_bytes max_bytes
send_audio s pcm =
    let pending = s.pending ++ pcm in
    let cut =
      cut_blocks (length pending) (min_bytes s.sample_rate) (max_bytes s.sample_rate) pending in
    record s { pending = cut.1; sent = s.sent ++ cut.0 }

abbrev pub zeros : ℕ → List ℕ
zeros zero = []
zeros (suc n) = 0 ∷ zeros n

-- `flush_input`, of the audio.
unfoldable pub flush_input : Socket → Socket
unfolding min_bytes
flush_input s = if is_nil s.pending then s else record s {
  pending = [];
  sent = s.sent ++ (s.pending ++ zeros (min_bytes s.sample_rate - length s.pending)) ∷ [];
}

abbrev pub first_start : List Word → Option ℤ
first_start [] = none
first_start (word ∷ words) = some word.start

abbrev pub last_word_end : List Word → Option ℤ
last_word_end [] = none
last_word_end (word ∷ []) = some word.end
last_word_end (word ∷ next ∷ words) = last_word_end (next ∷ words)

abbrev pub revised : Option String → Revision → List StreamSignal → List StreamSignal
revised none r rest = rest
revised (some text) r rest =
    if is_blank text
    then rest
    else if is_nil r.words
    then rest
    else turn_final text r.ref r.words (first_start r.words) (last_word_end r.words) ∷ rest

unfoldable pub revision_signals : Dict String → List Revision → List StreamSignal
revision_signals finals [] = []
revision_signals finals (r ∷ revisions) =
    revised (lookup r.ref finals) r (revision_signals finals revisions)

-- `_message_signals` and `_turn_signals`: the signals, and whether the connection has more to say.
unfoldable pub message_signals : Socket → Message → Socket × List StreamSignal × Bool
unfolding revision_signals
message_signals s (turn ref text words false) = (
  record s { turn_open = true },
  turn_started (first_start words) ref ∷ turn_partial text ref false ∷ [],
  true,
)
message_signals s (turn ref text words true) = (
  record s { turn_open = false; finals = put ref text s.finals },
  turn_final text ref words (first_start words) (last_word_end words) ∷ [],
  true,
)
message_signals s (speaker_revision revisions) = (s, revision_signals s.finals revisions, true)
message_signals s error_message = (s, [], false)
message_signals s speech_started = (record s { turn_open = true }, stream_alive ∷ [], true)
message_signals s termination = (s, stream_alive ∷ [], false)
message_signals s other = (s, stream_alive ∷ [], true)

abbrev pub go_on :
    (Socket → Socket × List StreamSignal)
    → Socket × List StreamSignal × Bool
    → Socket × List StreamSignal
go_on loop (s, heard, true) = let rest = loop s in (rest.0, heard ++ rest.1)
go_on loop (s, heard, false) = (record s { terminated = true }, heard)

unfoldable pub signals : List Message → Socket → Socket × List StreamSignal
unfolding message_signals
signals [] s = (record s { terminated = true }, [])
signals (m ∷ messages) s = go_on (signals messages) (message_signals s m)
