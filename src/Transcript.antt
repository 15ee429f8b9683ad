-- ===== src/Transcript.antt =====
-- src/loreline/models.py: words and transcript events. Instants are whole microseconds of the
-- capture clock, and a confidence is a number of thousandths.
use loreline.Prelude.{ℕ, String, Bool, Option, List}
use loreline.Prelude.Int.{ℤ}

pub record Word : Type 0 where
  pub text : String
  pub start : ℤ
  pub end : ℤ
  pub confidence : Option ℕ
  pub speaker : Option String

pub record TranscriptEvent : Type 0 where
  pub session_id : String
  pub source : String
  pub text : String
  pub words : List Word
  pub speaker : Option String
  pub start_ts : ℤ
  pub end_ts : ℤ
  pub is_final : Bool
  pub turn_id : Option String

-- The source of the marker for audio that a dead connection swallowed.
abbrev pub gap_source : String
gap_source = "gap"
