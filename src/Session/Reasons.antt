-- ===== src/Session/Reasons.antt =====
-- src/loreline/session/manager.py: a session that stops transcribing says why, and says it once.
use loreline.Prelude.{
  String, ◌≡◌, refl, ap, ◌∙◌, arith, Bool, true, false, not, ◌&&◌, Option, none, some, List, [],
  ◌∷◌, if◌then◌else◌, if_ind,
}
use loreline.Prelude.Dict.{Dict, lookup, values}
use loreline.Router.Model.{Router, Request, Role, primary, fallback, is_empty, join}
use loreline.Router.Model
use loreline.Router.Exhaustion.{run_raises_terminal_error}
use loreline.Session.Path.{
  Vendor, StreamPath, Streamed, Labelling, Diarized, PathEnd, session_ended, handed_over, exhausted,
  Result, finished, streaming, is_none, streamable, streaming_of, is_exhausted, handoff, retire,
  notify_failover, stream_with, after_stream, run_streams, close_gap, drain_labelling, close_path,
  run,
}
use loreline.Session.Path
use loreline.Stream.Run.{ended, dead, unsupported}
use loreline.Session.Ends.{Party, land-party, stream_with-party, IsClosed, run-IsClosed}
use loreline.Session.Live.{
  LiveConfig, Live, LiveRest, running, input_ended, recording_only, unanswered, build_router,
  stopped_message, stt_exhausted, settle_router, drive_router, hand_to, or_blank, after_path,
  start_live_path, stt_error,
}

first_of : Party → Vendor
first_of q = q.0

retire-first : (p : StreamPath) (b : Vendor) → (retire p b).first ≡ p.first
unfolding retire notify_failover
retire-first p b = if_ind (λ (x : StreamPath). x.first ≡ p.first) p.alerting (λ _. refl) (λ _. refl)

abbrev Keeps : Vendor → StreamPath × Option PathEnd → Type 0
Keeps v left = left.0.first ≡ v

after-Keeps :
    (v : Vendor) (loop : StreamPath → StreamPath × Option PathEnd) (b : Vendor)
    (left : StreamPath × Result)
    → ((p : StreamPath) → p.first ≡ v → Keeps v (loop p))
    → left.0.first ≡ v
    → Keeps v (after_stream loop b left)
after-Keeps v loop b (p, streaming) k h = h
after-Keeps v loop b (p, finished ended) k h = h
after-Keeps v loop b (p, finished dead) k h = k (retire p b) (retire-first p b ∙ h)
after-Keeps v loop b (p, finished unsupported) k h =
    if_ind (Keeps v) b.calls (λ _. h) (λ _. k (retire p b) (retire-first p b ∙ h))

run_streams-Keeps :
    (v : Vendor) (l : List (Vendor × Role)) (play : Role → Streamed) (p : StreamPath)
    → p.first ≡ v
    → Keeps v (run_streams l play p)
unfolding run_streams first_of
run_streams-Keeps v [] play p h = h
run_streams-Keeps v ((b, role) ∷ rest) play p h =
    if_ind (Keeps v) p.stopped (λ _. h)
      (λ _.
        after-Keeps v (run_streams rest play) b (stream_with p b (play role))
          (λ p' w. run_streams-Keeps v rest play p' w)
          (ap first_of (stream_with-party p b (play role)) ∙ h))

close-Keeps :
    (v : Vendor) (late : Labelling → Option Diarized) (left : StreamPath × Option PathEnd)
    → Keeps v left
    → Keeps v (close_path late left)
unfolding close_gap drain_labelling first_of
close-Keeps v late (p, none) h = h
close-Keeps v late (p, some end) h = ap first_of (land-party late (close_gap p)) ∙ h

run-Keeps :
    (p : StreamPath) (play : Role → Streamed) (late : Labelling → Option Diarized)
    → Keeps p.first (run p play late)
unfolding run
run-Keeps p play late =
    close-Keeps p.first late (run_streams (streamable p) play p)
      (run_streams-Keeps p.first (streamable p) play p refl)

none_left :
    (d : Dict String) (b : Vendor) (role : Role) (rest : List (Vendor × Role))
    → b.streams ≡ true
    → streaming_of d ((b, role) ∷ rest) ≡ []
    → is_empty d ≡ false
unfolding lookup
none_left [] b role rest on h = ground (arith, on, h)
none_left (entry ∷ d) b role rest on h = refl

-- What a live path has told when it has come this far.
abbrev pub Says : Live × LiveRest → Type 0
Says (live, running) = live.alerts ≡ []
Says (live, input_ended) = live.alerts ≡ []
Says (live, recording_only) =
    (why : String) × (stt_error live ≡ some why) × (live.alerts ≡ stopped_message why ∷ [])
Says (live, unanswered) = ⊥

router-Says :
    (live : Live) (left : Router × Option String)
    → live.alerts ≡ []
    → ((why : String) → left.1 ≡ some why → Model.terminal_error left.0 ≡ some why)
    → Says (settle_router live left)
unfolding stt_exhausted stt_error
router-Says live (r, none) quiet h = quiet
router-Says live (r, some why) quiet h = (why, h why refl, ap (λ l. stopped_message why ∷ l) quiet)

drive-Says :
    (requests : List Request) (r : Router) (live : Live)
    → live.alerts ≡ []
    → Says (drive_router requests r live)
unfolding drive_router
drive-Says requests r live quiet =
    let left = Model.run requests r in
    router-Says live left quiet (λ why e.
      (run_raises_terminal_error requests r left.0 why
        (ap (λ (o : Option String). (left.0, o)) e)).0)

hand-Says :
    (cfg : LiveConfig) (requests : List Request) (p : StreamPath)
    (pair : Option (Vendor × Option Vendor))
    → is_none pair ≡ false
    → Says (hand_to cfg requests p pair)
hand-Says cfg requests p none h = cc
hand-Says cfg requests p (some (first, second)) h =
    drive-Says requests (build_router cfg first second) _ refl

error_lem :
    (fresh over nobody : Bool) (why : String)
    → fresh ≡ false
    → over ≡ true
    → nobody ≡ true
    → (if not fresh && over && nobody then some why else none)
      ≡ some (or_blank (if not fresh && over && nobody then some why else none))
error_lem fresh over nobody why h k l = ground (arith, h, k, l)

exhausted-error :
    (p : StreamPath)
    → p.first.streams ≡ true
    → streamable p ≡ []
    → p.call_shaped ≡ none
    → Path.terminal_error p ≡ some (or_blank (Path.terminal_error p))
unfolding Path.terminal_error is_exhausted streamable
exhausted-error p on h nobody =
    let others : List (Vendor × Role) = elim p.second [ none ↦ [] | some b ↦ (b, fallback) ∷ [] ] in
    error_lem (is_empty p.retired) (is_empty (streamable p)) (is_none p.call_shaped)
      (join (values p.retired)) (none_left p.retired p.first primary others on h) (ap is_empty h)
      (ap is_none nobody)

left-Says :
    (cfg : LiveConfig) (requests : List Request) (left : StreamPath × Option PathEnd)
    → left.0.first.streams ≡ true
    → ((end : PathEnd) → left.1 ≡ some end → IsClosed left.0 end)
    → Says (after_path cfg requests left)
unfolding after_path stt_exhausted stt_error
left-Says cfg requests (p, none) on h = refl
left-Says cfg requests (p, some session_ended) on h = refl
left-Says cfg requests (p, some handed_over) on h =
    hand-Says cfg requests p (handoff p) (h handed_over refl).end_lem.0
left-Says cfg requests (p, some exhausted) on h =
    let fits = (h exhausted refl).end_lem in
    (or_blank (Path.terminal_error p), exhausted-error p on fits.2 fits.1, refl)

-- Whatever the providers of a session do - streaming, called, or one after the other - it never stops
-- transcribing in silence. While it transcribes, or where the input has ended, no such alert has gone out;
-- where it only records, one has, and its reason is the error that the dashboard shows. A path never hands
-- over to nobody.
pub live_path_gives_its_reason :
    (cfg : LiveConfig) (p : StreamPath) (play : Role → Streamed)
    (late : Labelling → Option Diarized) (requests : List Request)
    → Says (start_live_path cfg p play late requests)
unfolding start_live_path
live_path_gives_its_reason cfg p play late requests =
    if_ind Says p.first.streams
      (λ on.
        let left = run p play late in
        left-Says cfg requests left (ap (λ (v : Vendor). v.streams) (run-Keeps p play late) ∙ on)
          (λ end e.
            run-IsClosed p left.0 play late end (ap (λ (o : Option PathEnd). (left.0, o)) e)))
      (λ _.
        drive-Says requests (build_router cfg p.first p.second)
          (record { path = none; router = none; alerts = [] }) refl)
