-- ===== src/Session/Ends.antt =====
-- src/loreline/session/streaming.py: how a path ends, and what it says of it.
use loreline.Prelude.{
  ℕ, String, str_eq, str_eq_refl, ◌≡◌, refl, sym, ap, ◌∙◌, subst, true, false, not, ◌||◌, Option,
  none, some, List, [], ◌∷◌, arith, if◌then◌else◌, if_ind, inl, inr, ◌⊎◌,
}
use mathlib.Core.Logic.{ite}
use loreline.Prelude.Int.{ℤ}
use loreline.Prelude.Dict.{Dict, put, lookup-put, has}
use loreline.Transcript.{TranscriptEvent, gap_source}
use loreline.Audio.Rolling.{RollingPcm, slice}
use loreline.Stream.Model.{Stream}
use loreline.Stream.Run.{Outcome, ended, dead, unsupported, Turn}
use loreline.Stream.Run
use loreline.Router.Model.{Role, primary, fallback}
use loreline.Session.Path.{
  retired_reason, timed_out, failed, segments, settle_label, land_from, land, label, unless_same,
  Event-discrete, publish, publish_all, with_clip, Vendor, Labelling, StreamPath, Diarized,
  Streamed, PathEnd, session_ended, handed_over, exhausted, Result, finished, streaming, is_none,
  streamable, streaming_of, candidates, handoff, call_pair, leave_stream, opened_stream,
  stream_with, notify_failover, retire, finish, after_stream, run_streams, close_gap,
  drain_labelling, close_path, run,
}

-- Who there is to ask, and what has been found out about them.
abbrev pub party : StreamPath → Vendor × Option Vendor × Dict String × Option Vendor
party p = (p.first, p.second, p.retired, p.call_shaped)

ite-party :
    (p : StreamPath) (e e' : TranscriptEvent) (same : Dec (e' ≡ e))
    → party (ite same p (record p { bus = e' ∷ p.bus })) ≡ party p
ite-party p e e' (yes h) = refl
ite-party p e e' (no h) = refl

unless_same-party : (p : StreamPath) (e e' : TranscriptEvent) → party (unless_same p e e') ≡ party p
unless_same-party p e e' = ite-party p e e' (Event-discrete e' e)

label-party : (p : StreamPath) (l : Labelling) (d : Diarized) → party (label p l d) ≡ party p
unfolding label
label-party p l timed_out = refl
label-party p l failed = refl
label-party p l (segments found) = unless_same-party p l.event _

settle_label-party :
    (answer : Option Diarized) (l : Labelling) (p : StreamPath)
    → party (settle_label answer l p) ≡ party p
settle_label-party none l p = ground arith
settle_label-party (some d) l p = label-party p l d

land_from-party :
    (answers : Labelling → Option Diarized) (p : StreamPath) (ls : List Labelling)
    → party (land_from answers p ls) ≡ party p
land_from-party answers p [] = refl
land_from-party answers p (l ∷ ls) =
    settle_label-party (answers l) l _ ∙ land_from-party answers p ls

ite-gap :
    (p : StreamPath) (e e' : TranscriptEvent) (same : Dec (e' ≡ e))
    → (ite same p (record p { bus = e' ∷ p.bus })).gap ≡ p.gap
ite-gap p e e' (yes h) = refl
ite-gap p e e' (no h) = refl

unless_same-gap : (p : StreamPath) (e e' : TranscriptEvent) → (unless_same p e e').gap ≡ p.gap
unless_same-gap p e e' = ite-gap p e e' (Event-discrete e' e)

settle_label-gap :
    (answer : Option Diarized) (l : Labelling) (p : StreamPath)
    → (settle_label answer l p).gap ≡ p.gap
unfolding label
settle_label-gap none l p = refl
settle_label-gap (some timed_out) l p = refl
settle_label-gap (some failed) l p = refl
settle_label-gap (some (segments found)) l p = unless_same-gap p l.event _

land_from-gap :
    (answers : Labelling → Option Diarized) (p : StreamPath) (ls : List Labelling)
    → (land_from answers p ls).gap ≡ p.gap
land_from-gap answers p [] = refl
land_from-gap answers p (l ∷ ls) = settle_label-gap (answers l) l _ ∙ land_from-gap answers p ls

pub land-party :
    (answers : Labelling → Option Diarized) (p : StreamPath) → party (land answers p) ≡ party p
unfolding land
land-party answers p = land_from-party answers (record p { labelling = [] }) p.labelling

with_clip-party :
    (p : StreamPath) (e : TranscriptEvent) (clip : List ℕ × ℤ)
    → party (with_clip p e clip) ≡ party p
with_clip-party p e ([], start) = refl
with_clip-party p e (x ∷ xs, start) = refl

publish-party :
    (p : StreamPath) (audio : Option RollingPcm) (e : TranscriptEvent)
    → party (publish p audio e) ≡ party p
unfolding publish
publish-party p none e = ground arith
publish-party p (some audio) e =
    if_ind (λ p'. party p' ≡ party p) (not e.is_final || str_eq e.source gap_source)
      (λ _. ground arith)
      (λ _. with_clip-party (record p { bus = e ∷ p.bus }) e (slice audio e.start_ts e.end_ts))

publish_all-party :
    (w : Streamed) (p : StreamPath) (h : List TranscriptEvent) → party (publish_all w p h) ≡ party p
unfolding publish_all
publish_all-party w p [] = refl
publish_all-party w p (e ∷ older) =
    land-party (w.answers e) _ ∙ publish-party _ (w.window e) e ∙ publish_all-party w p older

leave-party :
    (p : StreamPath) (w : Streamed) (end : Stream × Turn) → party (leave_stream p w end).0 ≡ party p
leave-party p w (s, turn) = publish_all-party w p s.published

pub stream_with-party :
    (p : StreamPath) (b : Vendor) (w : Streamed) → party (stream_with p b w).0 ≡ party p
unfolding stream_with
stream_with-party p b w = leave-party p w (Run.run w.script (opened_stream p b) 0)

-- A provider that is retired at `d` is retired at `d'`.
abbrev Grows : Dict String → Dict String → Type 0
Grows d d' = (k : String) → has k d ≡ true → has k d' ≡ true

put-Grows : (k : String) (v : String) (d : Dict String) → Grows d (put k v d)
put-Grows k v d j h = ground (arith, lookup-put k j v d)

streaming_of-Grows :
    (d d' : Dict String) (l : List (Vendor × Role))
    → Grows d d'
    → streaming_of d' (streaming_of d l) ≡ streaming_of d' l
streaming_of-Grows d d' [] g = refl
streaming_of-Grows d d' ((b, role) ∷ l) g = ground (arith, streaming_of-Grows d d' l g, g b.id)

abbrev pub Party : Type 0
Party = Vendor × Option Vendor × Dict String × Option Vendor

-- Of those who may still stream, all are ahead of the loop.
abbrev IsAhead : List (Vendor × Role) → Party → Type 0
IsAhead l q =
    streaming_of q.2 ((q.0, primary) ∷ (elim q.1 [ none ↦ [] | some b ↦ (b, fallback) ∷ [] ]))
    ≡ streaming_of q.2 l

retired_party : (p : StreamPath) (b : Vendor) → Party
retired_party p b = (p.first, p.second, put b.id (retired_reason b) p.retired, p.call_shaped)

retire-party : (p : StreamPath) (b : Vendor) → retired_party p b ≡ party (retire p b)
unfolding retire notify_failover retired_party
retire-party p b = ground arith

streaming_of-put :
    (b : Vendor) (role : Role) (reason : String) (d : Dict String) (l : List (Vendor × Role))
    → streaming_of (put b.id reason d) ((b, role) ∷ l) ≡ streaming_of (put b.id reason d) l
streaming_of-put b role reason d l = ground (arith, lookup-put b.id b.id reason d, str_eq_refl b.id)

retire-IsAhead :
    (b : Vendor) (role : Role) (rest : List (Vendor × Role)) (p : StreamPath)
    → IsAhead ((b, role) ∷ rest) (party p)
    → IsAhead rest (party (retire p b))
unfolding retired_party
retire-IsAhead b role rest p v =
    let r = p.retired in
    let r' = put b.id (retired_reason b) p.retired in
    let grows = put-Grows b.id (retired_reason b) p.retired in
    subst (IsAhead rest) (retire-party p b) (
      sym (streaming_of-Grows r r' (candidates p) grows)
      ∙ ap (streaming_of r') v
      ∙ streaming_of-Grows r r' ((b, role) ∷ rest) grows
      ∙ streaming_of-put b role (retired_reason b) r rest)

-- What an end means. Only an end of the input leaves a provider that might stream untried, or one that
-- streams but not this model and is called instead.
abbrev pub EndFits : StreamPath → PathEnd → Type 0
EndFits p session_ended = Unit
EndFits p handed_over =
    (is_none (handoff p) ≡ false) × ((streamable p ≡ []) ⊎ (is_none p.call_shaped ≡ false))
EndFits p exhausted = (handoff p ≡ none) × (p.call_shaped ≡ none) × (streamable p ≡ [])

abbrev Closes : StreamPath × Option PathEnd → Type 0
Closes (p, none) = Unit
Closes (p, some end) = EndFits p end

call_pair-none : (call second : Option Vendor) → call_pair call second ≡ none → call ≡ none
call_pair-none none second e = refl
call_pair-none (some b) second e = cc

none_streams :
    (p : StreamPath)
    → (streamable p ≡ []) ⊎ (is_none p.call_shaped ≡ false)
    → p.call_shaped ≡ none
    → streamable p ≡ []
none_streams p (inl h) e = h
none_streams p (inr h) e = let nobody : is_none p.call_shaped ≡ true = ap is_none e in cc

finish-fits :
    (p : StreamPath) (pair : Option (Vendor × Option Vendor))
    → call_pair p.call_shaped p.second ≡ pair
    → (streamable p ≡ []) ⊎ (is_none p.call_shaped ≡ false)
    → EndFits p (if is_none pair then exhausted else handed_over)
unfolding handoff
finish-fits p none e v =
    let nobody = call_pair-none p.call_shaped p.second e in (e, nobody, none_streams p v nobody)
finish-fits p (some pair) e v = (ap is_none e, v)

finish-Closes :
    (p : StreamPath) → (streamable p ≡ []) ⊎ (is_none p.call_shaped ≡ false) → Closes (finish p)
unfolding handoff
finish-Closes p v = finish-fits p (handoff p) refl v

after-Closes :
    (loop : StreamPath → StreamPath × Option PathEnd) (b : Vendor) (role : Role)
    (rest : List (Vendor × Role)) (left : StreamPath × Result)
    → ((p : StreamPath) → IsAhead rest (party p) → Closes (loop p))
    → IsAhead ((b, role) ∷ rest) (party left.0)
    → Closes (after_stream loop b left)
after-Closes loop b role rest (p, streaming) k v = tt
after-Closes loop b role rest (p, finished ended) k v = tt
after-Closes loop b role rest (p, finished dead) k v =
    k (retire p b) (retire-IsAhead b role rest p v)
after-Closes loop b role rest (p, finished unsupported) k v =
    if_ind Closes b.calls (λ _. finish-Closes _ (inr refl))
      (λ _. k (retire p b) (retire-IsAhead b role rest p v))

run_streams-Closes :
    (l : List (Vendor × Role)) (play : Role → Streamed) (p : StreamPath)
    → IsAhead l (party p)
    → Closes (run_streams l play p)
unfolding run_streams streamable
run_streams-Closes [] play p v = finish-Closes p (inl v)
run_streams-Closes ((b, role) ∷ rest) play p v =
    if_ind Closes p.stopped (λ _. tt)
      (λ _.
        after-Closes (run_streams rest play) b role rest (stream_with p b (play role))
          (λ p' w. run_streams-Closes rest play p' w)
          (subst (IsAhead ((b, role) ∷ rest)) (sym (stream_with-party p b (play role))) v))

-- The state of a path that has returned: no span is pending, nothing is in flight, and it ended as it says.
pub record IsClosed (p : StreamPath) (end : PathEnd) : Type 0 where
  pub no_gap : p.gap ≡ none
  pub no_labels : p.labelling ≡ []
  pub end_lem : EndFits p end

abbrev left_to_stream : Party → List (Vendor × Role)
left_to_stream q =
    streaming_of q.2 ((q.0, primary) ∷ (elim q.1 [ none ↦ [] | some b ↦ (b, fallback) ∷ [] ]))

abbrev PartyFits : PathEnd → Party → Type 0
PartyFits session_ended q = Unit
PartyFits handed_over q =
    (is_none (call_pair q.3 q.1) ≡ false) × ((left_to_stream q ≡ []) ⊎ (is_none q.3 ≡ false))
PartyFits exhausted q = (call_pair q.3 q.1 ≡ none) × (q.3 ≡ none) × (left_to_stream q ≡ [])

EndFits-party :
    (p p' : StreamPath) (end : PathEnd) → party p' ≡ party p → EndFits p end → EndFits p' end
unfolding streamable handoff
EndFits-party p p' session_ended e v = tt
EndFits-party p p' handed_over e v = subst (PartyFits handed_over) (sym e) v
EndFits-party p p' exhausted e v = subst (PartyFits exhausted) (sym e) v

abbrev ReturnsClosed : StreamPath × Option PathEnd → Type 0
ReturnsClosed (p, none) = Unit
ReturnsClosed (p, some end) = IsClosed p end

land-gap : (answers : Labelling → Option Diarized) (p : StreamPath) → (land answers p).gap ≡ p.gap
unfolding land
land-gap answers p = land_from-gap answers (record p { labelling = [] }) p.labelling

close-ReturnsClosed :
    (late : Labelling → Option Diarized) (left : StreamPath × Option PathEnd)
    → Closes left
    → ReturnsClosed (close_path late left)
unfolding close_gap drain_labelling
close-ReturnsClosed late (p, none) v = tt
close-ReturnsClosed late (p, some end) v = record {
  no_gap = land-gap late (close_gap p);
  no_labels = refl;
  end_lem = EndFits-party p _ end (land-party late (close_gap p)) v;
}

-- A path that returns has no lost span pending and no label in flight; where it is exhausted no
-- provider is left, to stream or to call, and where it hands over there is one to call, and those that
-- stream have all been retired unless one refused the model.
pub run-IsClosed :
    (p p' : StreamPath) (play : Role → Streamed) (late : Labelling → Option Diarized)
    (end : PathEnd)
    → run p play late ≡ (p', some end)
    → IsClosed p' end
unfolding run streamable
run-IsClosed p p' play late end e =
    let ahead : IsAhead (streamable p) (party p) =
      sym (streaming_of-Grows p.retired p.retired (candidates p) (λ k h. h)) in
    subst ReturnsClosed e (
      close-ReturnsClosed late (run_streams (streamable p) play p)
        (run_streams-Closes (streamable p) play p ahead))
