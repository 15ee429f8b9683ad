-- ===== src/Audio/Mic.antt =====
-- src/loreline/audio/client_source.py: `ClientMic`, which one browser socket at a time may feed. A token
-- is the number of the connection it was made for.
use loreline.Prelude.{ℕ, suc, Bool, false, not, Option, none, some, List, ◌==◌, if◌then◌else◌}
use loreline.Prelude.Int.{ℤ, pos, ◌-ℤ◌, max_ℤ}
use loreline.Audio.Client.{
  ClientHello, ClientCaptureSource, Converter, new_source, rewire, socket_lost, submit, is_nothing,
}

pub record ClientMic : Type 0 where
  pub reconnect_window_us : ℕ
  pub preflight_fresh_us : ℕ
  pub next_token : ℕ
  pub token : Option ℕ
  pub hello : Option ClientHello
  pub last_frame_mono : Option ℤ
  pub source : Option ClientCaptureSource

unfoldable pub new_mic : ℕ → ℕ → ClientMic
new_mic window fresh = record {
  reconnect_window_us = window;
  preflight_fresh_us = fresh;
  next_token = 0;
  token = none;
  hello = none;
  last_frame_mono = none;
  source = none;
}

unfoldable pub connected : ClientMic → Bool
connected m = not (is_nothing m.token)

abbrev pub age : Option ℤ → ℤ → Option ℤ
age none now = none
age (some last) now = some (max_ℤ (pos 0) (now -ℤ last))

unfoldable pub last_frame_age : ClientMic → ℤ → Option ℤ
last_frame_age m now = age m.last_frame_mono now

-- `_live_source`, as it leaves the field: none for a source that the session has stopped.
abbrev pub live_source : Option ClientCaptureSource → Option ClientCaptureSource
live_source none = none
live_source (some s) = if s.stopped then none else some s

abbrev pub on_source :
    (ClientCaptureSource → ClientCaptureSource)
    → Option ClientCaptureSource
    → Option ClientCaptureSource
on_source f none = none
on_source f (some s) = some (f s)

abbrev pub with_live : (ClientCaptureSource → ClientCaptureSource) → ClientMic → ClientMic
with_live f m = record m { source = on_source f (live_source m.source) }

-- `connect`: the token, or none where it raises `ClientMicBusyError`.
unfoldable pub connect : Converter → ClientMic → ClientHello → ℤ → ClientMic × Option ℕ
unfolding rewire
connect build m hello now =
    if is_nothing m.token
    then (
      with_live (λ s. rewire build s hello now)
          (record m {
            token = some m.next_token;
            next_token = suc m.next_token;
            hello = some hello;
          }),
      some m.next_token,
    )
    else (m, none)

abbrev pub holds : Option ℕ → ℕ → Bool
holds none token = false
holds (some held) token = held == token

unfoldable pub disconnect : ClientMic → ℕ → ℤ → ClientMic
unfolding socket_lost
disconnect m token now =
    if holds m.token token
    then with_live (λ s. socket_lost s now) (record m { token = none; hello = none })
    else m

unfoldable pub feed : (ℕ → List ℕ → List ℕ) → ClientMic → ℕ → List ℕ → ℤ → ClientMic
unfolding submit
feed convert m token pcm now =
    if holds m.token token
    then with_live (λ s. submit convert s pcm now) (record m { last_frame_mono = some now })
    else m

abbrev pub hello_rate : Option ClientHello → ℕ → ℕ
hello_rate none sample_rate = sample_rate
hello_rate (some h) sample_rate = h.sample_rate

abbrev pub hello_channels : Option ClientHello → ℕ
hello_channels none = 1
hello_channels (some h) = h.channels

-- `open`
unfoldable pub open_source : Converter → ClientMic → ℕ → ℤ → ClientMic × ClientCaptureSource
unfolding new_source connected
open_source build m sample_rate now =
    let s =
      new_source build sample_rate (hello_rate m.hello sample_rate) (hello_channels m.hello)
        (if connected m then none else some now) m.last_frame_mono m.preflight_fresh_us
        m.reconnect_window_us in
    (record m { source = some s }, s)
