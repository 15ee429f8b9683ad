-- ===== src/Session/Feed.antt =====
-- src/loreline/session/streaming.py: the rows of the session's feed, over all the providers that stream.
use loreline.Prelude.{
  ℕ, String, str_eq, ◌≡◌, refl, sym, ◌∙◌, Bool, true, false, not, ◌||◌, Option, none, some, List,
  [], ◌∷◌, arith, Bool-cases, if_ind, inl, inr,
}
use mathlib.Core.Logic.{if_pos, if_neg}
use loreline.Prelude.Int.{ℤ}
use loreline.Transcript.{TranscriptEvent, gap_source}
use loreline.Diarize.Merge.{
  SpeakerSegment, DiarizationMode, inline, remote, openai, off, assign_speakers, merge_diarization,
}
use loreline.Stream.Model.{PendingGap, Stream, new_stream}
use loreline.Stream.Queue.{stop}
use loreline.Stream.Gaps.{gap_event, note_event}
use loreline.Stream.Rows.{awaits}
use loreline.Stream.Serve.{AllSettled}
use loreline.Stream.Run.{
  Outcome, ended, dead, unsupported, Attempt, Turn, returned, raised, failures,
}
use loreline.Stream.Run
use loreline.Stream.Budget.{AllRestating, run_leaves_none_dimmed}
use loreline.Router.Model.{Role}
use loreline.Audio.Rolling.{RollingPcm, slice}
use loreline.Session.Path.{
  Vendor, Labelling, StreamPath, Diarized, timed_out, failed, segments, Streamed, PathEnd, Result,
  finished, streaming, or_event, label_inline, with_clip, publish_final, publish, label,
  settle_label, land_from, land, publish_all, opened_stream, leave_stream, stream_with,
  notify_failover, retire, after_stream, run_streams, close_gap, drain_labelling, close_path, run,
  unless_same, streamable, Event-discrete,
}

-- An event that keeps what decides a row: its turn, and whether it is final.
abbrev SameRow : TranscriptEvent → TranscriptEvent → Type 0
SameRow e e' = (e'.turn_id ≡ e.turn_id) × (e'.is_final ≡ e.is_final)

assign-SameRow :
    (e : TranscriptEvent) (found : List SpeakerSegment) → SameRow e (assign_speakers e found)
unfolding assign_speakers
assign-SameRow e [] = (refl, refl)
assign-SameRow e (s ∷ ss) = (refl, refl)

merge-SameRow :
    (e : TranscriptEvent) (start : ℤ) (mode : DiarizationMode)
    (diarizer : Option (Option (List SpeakerSegment)))
    → SameRow e (or_event (merge_diarization e start mode diarizer) e)
unfolding merge_diarization
merge-SameRow e start remote (some (some found)) = assign-SameRow e _
merge-SameRow e start remote (some none) = (refl, refl)
merge-SameRow e start remote none = (refl, refl)
merge-SameRow e start inline diarizer = assign-SameRow e _
merge-SameRow e start openai diarizer = (refl, refl)
merge-SameRow e start off diarizer = (refl, refl)

abbrev AllFinal : List Labelling → Type 0
AllFinal [] = Unit
AllFinal (l ∷ ls) = (l.event.is_final ≡ true) × AllFinal ls

-- The row `t` is dimmed on the bus only if `dimmed`, and only finals are being labelled.
record IsQuiet (t : String) (dimmed : Bool) (p : StreamPath) : Type 0 where
  row : awaits t p.bus ≡ true → dimmed ≡ true
  finals : AllFinal p.labelling

-- A final of a row, put on the bus after the fact, dims nothing.
final-dims :
    (t : String) (dimmed : Bool) (e e' : TranscriptEvent) (bus : List TranscriptEvent)
    → SameRow e e'
    → e.is_final ≡ true
    → (awaits t bus ≡ true → dimmed ≡ true)
    → awaits t (e' ∷ bus) ≡ true
    → dimmed ≡ true
unfolding awaits
final-dims t dimmed e e' bus same final h k = ground (arith, same.1, h)

unless_same-IsQuiet :
    (t : String) (b : Bool) (p : StreamPath) (e e' : TranscriptEvent)
    → IsQuiet t b p
    → SameRow e e'
    → e.is_final ≡ true
    → IsQuiet t b (unless_same p e e')
unless_same-IsQuiet t b p e e' v same f = elim (Event-discrete e' e) [
  | yes h ↦ rw (if_pos _ h) v
  | no h ↦
      rw (if_neg _ h) (record { row = final-dims t b e e' p.bus same f v.row; finals = v.finals })
]

label-IsQuiet :
    (t : String) (b : Bool) (p : StreamPath) (l : Labelling) (d : Diarized)
    → IsQuiet t b p
    → l.event.is_final ≡ true
    → IsQuiet t b (label p l d)
unfolding label
label-IsQuiet t b p l timed_out v f = v
label-IsQuiet t b p l failed v f = v
label-IsQuiet t b p l (segments found) v f =
    unless_same-IsQuiet t b p l.event
      (or_event (merge_diarization l.event l.clip_start p.mode (some (some found))) l.event) v
      (merge-SameRow l.event l.clip_start p.mode (some (some found))) f

settle_label-IsQuiet :
    (t : String) (b : Bool) (answer : Option Diarized) (l : Labelling) (p : StreamPath)
    → IsQuiet t b p
    → l.event.is_final ≡ true
    → IsQuiet t b (settle_label answer l p)
settle_label-IsQuiet t b none l p v f = record { row = v.row; finals = (f, v.finals) }
settle_label-IsQuiet t b (some d) l p v f = label-IsQuiet t b p l d v f

land_from-IsQuiet :
    (t : String) (b : Bool) (answers : Labelling → Option Diarized) (p : StreamPath)
    (ls : List Labelling)
    → IsQuiet t b p
    → AllFinal ls
    → IsQuiet t b (land_from answers p ls)
land_from-IsQuiet t b answers p [] v h = v
land_from-IsQuiet t b answers p (l ∷ ls) v (f, h) =
    settle_label-IsQuiet t b (answers l) l (land_from answers p ls)
      (land_from-IsQuiet t b answers p ls v h) f

land-IsQuiet :
    (t : String) (b : Bool) (answers : Labelling → Option Diarized) (p : StreamPath)
    → IsQuiet t b p
    → IsQuiet t b (land answers p)
unfolding land
land-IsQuiet t b answers p v =
    land_from-IsQuiet t b answers (record p { labelling = [] }) p.labelling
      (record { row = v.row; finals = tt }) v.finals

with_clip-IsQuiet :
    (t : String) (b : Bool) (p : StreamPath) (e : TranscriptEvent) (clip : List ℕ × ℤ)
    → IsQuiet t b p
    → e.is_final ≡ true
    → IsQuiet t b (with_clip p e clip)
with_clip-IsQuiet t b p e ([], start) v f = v
with_clip-IsQuiet t b p e (x ∷ xs, start) v f = record { row = v.row; finals = (f, v.finals) }

-- A final puts its own row to rest and leaves the others as they are.
final-row :
    (t : String) (e e' : TranscriptEvent) (older bus : List TranscriptEvent)
    → SameRow e e'
    → e.is_final ≡ true
    → (awaits t bus ≡ true → awaits t older ≡ true)
    → awaits t (e' ∷ bus) ≡ true
    → awaits t (e ∷ older) ≡ true
unfolding awaits
final-row t e e' older bus same final h k = ground (arith, same.0, same.1, h)

plain-row :
    (t : String) (e : TranscriptEvent) (older bus : List TranscriptEvent)
    → (awaits t bus ≡ true → awaits t older ≡ true)
    → awaits t (e ∷ bus) ≡ true
    → awaits t (e ∷ older) ≡ true
unfolding awaits
plain-row t e older bus h k = ground (arith, h)

module _ (t : String) (p : StreamPath) (e : TranscriptEvent) (older : List TranscriptEvent)
    (v : IsQuiet t (awaits t older) p) where
  publish_final-IsQuiet :
      (audio : Option RollingPcm)
      → e.is_final ≡ true
      → IsQuiet t (awaits t (e ∷ older)) (publish_final p audio e)
  unfolding label_inline
  publish_final-IsQuiet none f = record {
    row =
        final-row t e (label_inline p e) older p.bus (merge-SameRow e e.start_ts p.mode none) f
          v.row;
    finals = v.finals;
  }
  publish_final-IsQuiet (some audio) f =
      with_clip-IsQuiet t (awaits t (e ∷ older)) (record p { bus = e ∷ p.bus }) e
        (slice audio e.start_ts e.end_ts)
        (record { row = plain-row t e older p.bus v.row; finals = v.finals }) f

  publish-IsQuiet :
      (audio : Option RollingPcm) → IsQuiet t (awaits t (e ∷ older)) (publish p audio e)
  unfolding publish
  publish-IsQuiet audio = elim (Bool-cases (not e.is_final || str_eq e.source gap_source)) [
    | inl plain ↦ rw plain (record { row = plain-row t e older p.bus v.row; finals = v.finals })
    | inr final ↦ rw final (publish_final-IsQuiet audio (ground (arith, final)))
  ]

-- However labels land between them, publishing a stream's events dims no row of the path's bus that
-- the stream's own history does not.
publish_all-IsQuiet :
    (t : String) (w : Streamed) (p : StreamPath) (h : List TranscriptEvent)
    → IsQuiet t false p
    → IsQuiet t (awaits t h) (publish_all w p h)
unfolding publish_all awaits
publish_all-IsQuiet t w p [] v = v
publish_all-IsQuiet t w p (e ∷ older) v = land-IsQuiet t (awaits t (e ∷ older)) (w.answers e) _ (
    publish-IsQuiet t (publish_all w p older) e older (publish_all-IsQuiet t w p older v)
      (w.window e))

opened_stream-AllSettled : (p : StreamPath) (b : Vendor) → AllSettled (opened_stream p b)
unfolding new_stream stop awaits
opened_stream-AllSettled p b t = ground arith

-- Every row of the session is settled, and only finals are being labelled.
pub record IsSettled (p : StreamPath) : Type 0 where
  pub rows : (t : String) → awaits t p.bus ≡ false
  pub finals : AllFinal p.labelling

IsSettled-IsQuiet : (t : String) (p : StreamPath) → IsSettled p → IsQuiet t false p
IsSettled-IsQuiet t p v = record { row = λ h. sym (v.rows t) ∙ h; finals = v.finals }

not_true : (b : Bool) → (b ≡ true → false ≡ true) → b ≡ false
not_true true h = sym (h refl)
not_true false h = refl

leave-IsSettled :
    (p : StreamPath) (w : Streamed) (end : Stream × Turn)
    → IsSettled p
    → AllSettled end.0
    → IsSettled (leave_stream p w end).0
leave-IsSettled p w (s, turn) v settled =
    let after : (t : String) → IsQuiet t (awaits t s.published) (publish_all w p s.published) =
      λ t. publish_all-IsQuiet t w p s.published (IsSettled-IsQuiet t p v) in
    record {
      rows = λ t. not_true _ (λ h. sym (settled t) ∙ (after t).row h);
      finals = (after "").finals;
    }

stream_with-IsSettled :
    (p : StreamPath) (b : Vendor) (w : Streamed)
    → IsSettled p
    → AllRestating w.script
    → IsSettled (stream_with p b w).0
unfolding stream_with
stream_with-IsSettled p b w v q =
    leave-IsSettled p w (Run.run w.script (opened_stream p b) 0) v
      (run_leaves_none_dimmed w.script (opened_stream p b) 0 (opened_stream-AllSettled p b) q).0

retire-IsSettled : (p : StreamPath) (b : Vendor) → IsSettled p → IsSettled (retire p b)
unfolding retire notify_failover
retire-IsSettled p b v =
    if_ind IsSettled p.alerting (λ _. record { rows = v.rows; finals = v.finals })
      (λ _. record { rows = v.rows; finals = v.finals })

after-IsSettled :
    (loop : StreamPath → StreamPath × Option PathEnd) (b : Vendor) (left : StreamPath × Result)
    → ((p : StreamPath) → IsSettled p → IsSettled (loop p).0)
    → IsSettled left.0
    → IsSettled (after_stream loop b left).0
after-IsSettled loop b (p, streaming) k v = v
after-IsSettled loop b (p, finished ended) k v = v
after-IsSettled loop b (p, finished dead) k v = k (retire p b) (retire-IsSettled p b v)
after-IsSettled loop b (p, finished unsupported) k v =
    if_ind (λ (end : StreamPath × Option PathEnd). IsSettled end.0) b.calls
      (λ _. record { rows = v.rows; finals = v.finals })
      (λ _. k (retire p b) (retire-IsSettled p b v))

run_streams-IsSettled :
    (l : List (Vendor × Role)) (play : Role → Streamed) (p : StreamPath)
    → IsSettled p
    → ((role : Role) → AllRestating (play role).script)
    → IsSettled (run_streams l play p).0
unfolding run_streams
run_streams-IsSettled [] play p v q = v
run_streams-IsSettled ((b, role) ∷ rest) play p v q =
    if_ind (λ (end : StreamPath × Option PathEnd). IsSettled end.0) p.stopped (λ _. v)
      (λ _.
        after-IsSettled (run_streams rest play) b (stream_with p b (play role))
          (λ p' w. run_streams-IsSettled rest play p' w q)
          (stream_with-IsSettled p b (play role) v (q role)))

gap-row :
    (t session_id : String) (gap : Option PendingGap) (until : ℤ) (bus : List TranscriptEvent)
    → awaits t bus ≡ false
    → awaits t (note_event (gap_event session_id gap until) bus) ≡ false
unfolding gap_event awaits
gap-row t session_id gap until bus h = ground arith

close-IsSettled :
    (late : Labelling → Option Diarized) (left : StreamPath × Option PathEnd)
    → IsSettled left.0
    → IsSettled (close_path late left).0
unfolding close_gap drain_labelling
close-IsSettled late (p, none) v = v
close-IsSettled late (p, some end) v =
    let marked : IsSettled (close_gap p) = record {
      rows = λ t. gap-row t p.session_id p.gap p.last_frame_ts p.bus (v.rows t);
      finals = v.finals;
    } in
    record {
      rows = λ t.
          not_true _
            (land-IsQuiet t false late (close_gap p)
              (IsSettled-IsQuiet t (close_gap p) marked)).row;
      finals = tt;
    }

-- Whatever the providers of a session do - drop, refuse a model, die, hand over - and whenever the
-- diarizer's labels land, if no partial blanks a turn then no row of the session's feed is left dimmed,
-- neither when the path returns nor while its last stream goes on between two connections.
pub path_leaves_none_dimmed :
    (p : StreamPath) (play : Role → Streamed) (late : Labelling → Option Diarized) (t : String)
    → IsSettled p
    → ((role : Role) → AllRestating (play role).script)
    → awaits t (run p play late).0.bus ≡ false
unfolding run
path_leaves_none_dimmed p play late t v q =
    let streamed = run_streams-IsSettled (streamable p) play p v q in
    (close-IsSettled late (run_streams (streamable p) play p) streamed).rows t
