-- ===== src/Persistence/Segments.antt =====
-- src/loreline/persistence/repositories.py: `TranscriptRepository`. The table is the list of its rows, in
-- the order of their row ids, and each SQL statement is a function on it.
use loreline.Prelude.{
  String, str_eq, Bool, false, not, ◌&&◌, Option, none, some, List, [], ◌∷◌, if◌then◌else◌, select,
}
use loreline.Prelude.Int.{ltb_ℤ}
use loreline.Transcript.{TranscriptEvent}

abbrev pub Segments : Type 0
Segments = List TranscriptEvent

-- In SQL a NULL conflicts with nothing.
abbrev pub same_turn : Option String → Option String → Bool
same_turn none u = false
same_turn (some t) none = false
same_turn (some t) (some u) = str_eq t u

-- `ON CONFLICT(session_id, source, turn_id)`
abbrev pub is_revision : TranscriptEvent → TranscriptEvent → Bool
is_revision row e =
    str_eq row.session_id e.session_id
    && str_eq row.source e.source
    && same_turn row.turn_id e.turn_id

unfoldable pub add : Segments → TranscriptEvent → Segments
add [] e = e ∷ []
add (row ∷ rows) e = if is_revision row e then e ∷ rows else row ∷ add rows e

abbrev pub in_session : String → TranscriptEvent → Bool
in_session session e = str_eq e.session_id session

unfoldable pub delete_interims : Segments → String → Segments
delete_interims rows session = select (λ e. not (in_session session e && not e.is_final)) rows

-- `ORDER BY start_ts`, rows that begin together in the order of their ids.
unfoldable pub place : TranscriptEvent → Segments → Segments
place e [] = e ∷ []
place e (row ∷ rows) = if ltb_ℤ e.start_ts row.start_ts then e ∷ row ∷ rows else row ∷ place e rows

unfoldable pub ordered : Segments → Segments → Segments
unfolding place
ordered done [] = done
ordered done (e ∷ rows) = ordered (place e done) rows

unfoldable pub for_session : Segments → String → Segments
unfolding ordered
for_session rows session = ordered [] (select (in_session session) rows)

abbrev pub is_of : String → String → TranscriptEvent → Bool
is_of session source e = in_session session e && str_eq e.source source

unfoldable pub delete_source : Segments → String → String → Segments
delete_source rows session source = select (λ e. not (is_of session source e)) rows

unfoldable pub delete_session : Segments → String → Segments
delete_session rows session = select (λ e. not (in_session session e)) rows
