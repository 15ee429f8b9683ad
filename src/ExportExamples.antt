-- ===== src/ExportExamples.antt =====
-- Concrete transcripts, and the theorems of the export at them.
use loreline.Prelude.{
  is_space, ◌+◌, ◌*◌, ◌≤◌, ◌<◌, ◌≡◌, ◌≢◌, refl, String, str_eq, true, none, some, List, [], ◌∷◌,
  map, length, eq_iff,
}
use loreline.Prelude.Int.{pos, pos_part}
use mathlib.Core.List.{Mem, Perm, mem-cons_self}
use loreline.Transcript.{TranscriptEvent}
use loreline.Export.Versions.{original_version, variant_view, variant_rows}
use loreline.Export.Views.{views_share_no_row}
use loreline.Export.Spans.{Row, Cue, align, word_spans}
use loreline.Export.Cues.{
  concat_map, cues_for, words_in, tokens_from, tokens, ends_sentence, add_token, pack_from, pack,
}
use loreline.Export.Layout.{subtitle_cues}
use loreline.Export.Playable.{PlayableAfter, subtitles_are_playable}
use loreline.Export.Runs.{flatten, AllFit, pack-flatten}
use loreline.Export.Clock.{stamp, milliseconds, shown_ms, read_stamp-stamp}

abbrev row_of : String → TranscriptEvent
row_of source = record {
  session_id = "s1";
  source = source;
  text = "hello";
  words = [];
  speaker = none;
  start_ts = pos 0;
  end_ts = pos 1000000;
  is_final = true;
  turn_id = none;
}

abbrev rows : List TranscriptEvent
rows = row_of "reprocess:j1" ∷ row_of "aai" ∷ []

first_is_shown : Mem (row_of "reprocess:j1") (variant_view rows "j1")
unfolding variant_view variant_rows
first_is_shown = mem-cons_self

not_original : "j1" ≢ original_version
not_original e =
    let same : str_eq "j1" original_version ≡ true = (eq_iff "j1" original_version).1 e in cc

views_share_no_row_example : ¬ Mem (row_of "reprocess:j1") (variant_view rows original_version)
views_share_no_row_example =
    views_share_no_row rows "j1" original_version (row_of "reprocess:j1") not_original
      first_is_shown

-- "ab. cd", "e" said at the same time.
abbrev spoken : List Row
spoken =
    record {
      text = 97 ∷ 98 ∷ 46 ∷ 32 ∷ 99 ∷ 100 ∷ [];
      speaker = some (65 ∷ []);
      words = [];
      start_ts = pos 0;
      end_ts = pos 6000000;
    }
    ∷ record {
      text = 101 ∷ [];
      speaker = none;
      words = [];
      start_ts = pos 5000000;
      end_ts = pos 5500000;
    }
    ∷ []

subtitles_are_playable_example :
    PlayableAfter none (subtitle_cues spoken)
    × Perm
        (map (λ (c : Cue). c.text) (subtitle_cues spoken))
        (map (λ (c : Cue). c.text) (concat_map cues_for spoken))
subtitles_are_playable_example = subtitles_are_playable spoken

abbrev ab_cd : Row
ab_cd = record {
  text = 97 ∷ 98 ∷ 46 ∷ 32 ∷ 99 ∷ 100 ∷ [];
  speaker = some (65 ∷ []);
  words = [];
  start_ts = pos 0;
  end_ts = pos 6000000;
}

pack-flatten_example :
    (flatten (pack (tokens ab_cd) ab_cd.text 24) ≡ tokens ab_cd)
    × AllFit 24 (pack (tokens ab_cd) ab_cd.text 24)
pack-flatten_example = pack-flatten (tokens ab_cd) ab_cd.text 24

-- The row is cut at the end of its sentence.
two_runs : length (pack (tokens ab_cd) ab_cd.text 24) ≡ 2
unfolding pack pack_from add_token ends_sentence tokens tokens_from words_in is_space word_spans
    align
two_runs = refl

read_stamp-stamp_example :
    ((stamp (milliseconds (pos 3661001499))).minutes < 60)
    × ((stamp (milliseconds (pos 3661001499))).secs < 60)
    × ((stamp (milliseconds (pos 3661001499))).ms < 1000)
    × (2 * (shown_ms (pos 3661001499) * 1000) ≤ 2 * pos_part (pos 3661001499) + 1000)
    × (2 * pos_part (pos 3661001499) ≤ 2 * (shown_ms (pos 3661001499) * 1000) + 1000)
read_stamp-stamp_example = read_stamp-stamp (pos 3661001499)
