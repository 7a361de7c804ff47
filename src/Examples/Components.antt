-- ===== src/Examples/Components.antt =====
-- The theorems on the components below the supervisor at concrete inputs.
use spout_relay.Base.{
  zero, suc, ltb, negsuc, pos_part, ℕ, ◌+◌, ◌*◌, ◌<◌, ◌^◌, ◌≤ℤ◌, Bool, true, false, List, [], ◌∷◌,
  Option, none, some, ℤ, pos, ◌≡◌, refl, arith, if◌then◌else◌, ◌==◌,
}
use spout_relay.Common.Types.{init, idle, probing, streaming, fatal, stopping}
use spout_relay.Common.Backoff.{FloatOps, BackoffState, next_delay}
use spout_relay.Common.Backoff
use spout_relay.Common.Backoff.Bounds.{IsFloat, IsWithin, after, next_delay-bounded}
use spout_relay.Spout.Monitor.{SpoutMonitor, new_monitor, receive_latest_frame}
use spout_relay.Spout.Monitor.Frame.{Answer, receive_latest_frame-Answer}
use spout_relay.Capture.FramePump.{Frame, new_pump}
use spout_relay.Capture.FramePump.Queue.{
  IsBounded, Reachable, fresh, step, starts, captures, pops, enqueue_all, newest,
  Reachable-IsBounded, enqueue_all_lem,
}
use spout_relay.Capture.FramePump.Queue
use spout_relay.Encoder.Types.{Encoder, new_encoder, request_next_idr, default_config}
use spout_relay.Encoder.Init
use spout_relay.Encoder.Init.Ready.{Result, init-Result}
use spout_relay.Encoder.Encode.{encode}
use spout_relay.Encoder.Encode.Sent.{Advanced, encode-Advanced}
use spout_relay.Encoder.Encode.Session.{
  Ran, opened, encodes, requests, IsNumbered, Ran-IsNumbered, Ran-IsReady,
}
use spout_relay.Encoder.Types.{IsReady}
use spout_relay.Rtsp.Client.{RtspClient, new_client, connect, send_packet}
use spout_relay.Rtsp.Client.Count.{Used, connects, sends, count, Used-IsCounted}
use spout_relay.Rtsp.Client.Count
use spout_relay.Rtsp.Client.Session.{IsConsistent, Connected, connect-Connected}
use spout_relay.App.StateMachine.{StateMachine, can_transition}
use spout_relay.App.StateMachine.Diagram.{
  is_target, targets, can_transition-targets, Walk, noting, request_all, request_all-Walk,
}
use spout_relay.App.Supervisor.EncodeThread.{send_all}
use spout_relay.App.Supervisor.EncodeThread.Send.{SentOf, send_all-SentOf}
use spout_relay.Config.Loader.{is_valid_hex_color}
use spout_relay.Placeholder.Color.{rgb, parse_hex_color}
use spout_relay.Placeholder.Color.Valid.{digit_at, parse_hex_color-digits}
use spout_relay.Placeholder.Gdi.{Gdi}
use spout_relay.Placeholder.Renderer.Clean.{IsClean, render-IsClean}
use spout_relay.Placeholder.Renderer.{render, render_placeholder_frame}
use spout_relay.Placeholder.Renderer.Size.{IsFrame, Fits, render_placeholder_frame-IsFrame}
use spout_relay.Examples.Inputs.{
  codec, encoding, picture, picture_meta, reception, stream, rtsp_settings, good_connection,
  settings, sending, packet_of,
}

init-Result_example :
    let (ok, _, e) = Init.init (λ i. codec) default_config 640 480 false 28 new_encoder in
    Result default_config ok e
init-Result_example = init-Result (λ i. codec) default_config 640 480 false 28 new_encoder

abbrev opened_encoder : Encoder
opened_encoder = (Init.init (λ i. codec) default_config 640 480 false 28 new_encoder).2

abbrev session : Encoder
session =
    (encode encoding picture false []
      (request_next_idr (encode encoding picture true [] opened_encoder).2)).2

session-Ran : Ran session
unfolding Init.init if◌then◌else◌
session-Ran =
    encodes
      (requests (
        encodes (opened (λ i. codec) default_config 640 480 false 28 new_encoder refl) encoding
          picture true []))
      encoding picture false []

Ran-IsNumbered_example : IsNumbered session.frame_count session.sent
Ran-IsNumbered_example = Ran-IsNumbered session-Ran

Ran-IsReady_example : IsReady session
Ran-IsReady_example = Ran-IsReady session-Ran

encode-Advanced_example : Advanced opened_encoder (encode encoding picture true [] opened_encoder).2
encode-Advanced_example = encode-Advanced encoding picture true [] opened_encoder

abbrev client : RtspClient
client = record {
  fmt_ctx = some (record {
    url = "rtsp://localhost:8554/live";
    stream = stream;
    timeout_us = pos 5000000;
    written = [];
  });
  pkt = true;
  fps = pos 30;
  connected = true;
  trailers = 0;
}

client-IsConsistent : IsConsistent client
client-IsConsistent = record { context = λ _. refl; packet = λ _. refl }

-- A client whose session is up connects anew.
connect-Connected_example :
    let (ok, _, c) = connect good_connection rtsp_settings stream client in
    Connected rtsp_settings stream client ok c
connect-Connected_example =
    connect-Connected good_connection rtsp_settings stream client client-IsConsistent

abbrev connected_client : RtspClient
connected_client = (connect good_connection rtsp_settings stream new_client).2

-- A session that is lost, one that is ended in order by the next call of `connect`, and one that is up.
abbrev used_client : RtspClient
used_client =
    (connect good_connection rtsp_settings stream
      (connect good_connection rtsp_settings stream
        (send_packet (record sending { written = false }) (packet_of 0) connected_client).1).2).2

used_client-Used : Used 3 1 used_client
unfolding connect send_packet if◌then◌else◌
used_client-Used =
    connects
      (connects
        (sends (connects Count.fresh good_connection rtsp_settings stream)
          (record sending { written = false }) (packet_of 0))
        good_connection rtsp_settings stream)
      good_connection rtsp_settings stream

Used-IsCounted_example : 3 ≡ used_client.trailers + 1 + count used_client.connected
Used-IsCounted_example = Used-IsCounted used_client-Used

send_all-SentOf_example :
    let (ok, c) = send_all (λ i. sending) 0 (packet_of 0 ∷ packet_of 1 ∷ []) client in
    SentOf (packet_of 0 ∷ packet_of 1 ∷ []) client ok c
send_all-SentOf_example =
    send_all-SentOf (λ i. sending) 0 (packet_of 0 ∷ packet_of 1 ∷ []) client client-IsConsistent

Reachable-IsBounded_example : IsBounded (
    Queue.after pops (
      Queue.after
        (captures reception 2000 2000 new_monitor)
        (Queue.after (starts 1000 (pos 5)) new_pump)))
Reachable-IsBounded_example =
    Reachable-IsBounded (
      step (step (step fresh (starts 1000 (pos 5))) (captures reception 2000 2000 new_monitor))
        pops)

abbrev frame : ℕ → Frame
frame n = (picture, record picture_meta { sequence = n })

enqueue_all_lem_example :
    enqueue_all [] (frame 1 ∷ frame 2 ∷ frame 3 ∷ frame 4 ∷ frame 5 ∷ [])
    ≡ frame 2 ∷ frame 3 ∷ frame 4 ∷ frame 5 ∷ []
unfolding newest spout_relay.Base.drop
enqueue_all_lem_example = enqueue_all_lem (frame 1 ∷ frame 2 ∷ frame 3 ∷ frame 4 ∷ frame 5 ∷ [])

abbrev in_streaming : StateMachine Bool
in_streaming = record { current = streaming; callback = none }

can_transition-targets_example : can_transition in_streaming fatal ≡ false
unfolding is_target targets spout_relay.App.StateMachine.same
can_transition-targets_example = can_transition-targets in_streaming fatal

request_all-Walk_example :
    let (m, history) = request_all (idle ∷ streaming ∷ probing ∷ stopping ∷ []) (noting init) [] in
    Walk init m.current history
request_all-Walk_example = request_all-Walk init (idle ∷ streaming ∷ probing ∷ stopping ∷ [])

-- Numbers from 0 on as their successors, and 0 for NaN, which is below nothing and above nothing.
abbrev is_amount : ℕ → Bool
is_amount zero = false
is_amount (suc x) = true

abbrev times : ℕ → ℕ → ℕ
times (suc x) (suc y) = suc (x * y)
times _ _ = 0

abbrev less : ℕ → ℕ → Bool
less (suc x) (suc y) = ltb x y
less _ _ = false

abbrev truncated : ℕ → ℤ
truncated zero = negsuc 2147483647
truncated (suc x) = pos x

abbrev floats_and_nan : FloatOps
floats_and_nan = record {
  of_int = λ n. suc (pos_part n);
  mul = times;
  lt = less;
  to_int = truncated;
}

at_most :
    (x n : ℕ)
    → is_amount x ≡ true
    → less (suc n) x ≡ false
    → (pos 0 ≤ℤ truncated x) × (truncated x ≤ℤ pos n)
at_most zero n number h = cc
at_most (suc x) n number h = ground (arith, h)

floats_and_nan-IsFloat : IsFloat floats_and_nan is_amount 3
floats_and_nan-IsFloat = record {
  exact = λ n h. refl;
  below = λ x n _ number h. at_most x n number h;
  product = λ n. refl;
}

abbrev backoff : BackoffState
backoff = record { attempt = pos 0; delay_ms = pos 1000 }

next_delay-bounded_example :
    IsWithin 30000
      (next_delay floats_and_nan
        (pos 30000)
        3
        (after floats_and_nan (pos 30000) 3 9 (Backoff.reset (pos 1000) backoff))).0
next_delay-bounded_example =
    next_delay-bounded floats_and_nan is_amount 1000 30000 30000 3 9 backoff floats_and_nan-IsFloat
      (omega arith) (omega arith) (omega arith)

abbrev two_pixels : Gdi
two_pixels = record {
  dc = true;
  dib = true;
  bits = true;
  dib_selected = true;
  brush = true;
  font = λ i. true;
  font_selected = λ i. i == 0;
  paint = λ calls. 1 ∷ 2 ∷ 3 ∷ 0 ∷ 4 ∷ 5 ∷ 6 ∷ 0 ∷ [];
  utf16 = λ s. 78 ∷ 79 ∷ 0 ∷ [];
}

render_placeholder_frame-IsFrame_example :
    IsFrame (render_placeholder_frame two_pixels settings.placeholder "game" 2 1)
render_placeholder_frame-IsFrame_example =
    render_placeholder_frame-IsFrame two_pixels settings.placeholder "game" 2 1
      (unfold Fits in λ calls. omega arith)

render-IsClean_example : IsClean (render two_pixels settings.placeholder "game" 2 1).1
render-IsClean_example = render-IsClean two_pixels settings.placeholder "game" 2 1

parse_hex_color-digits_example :
    (parse_hex_color "#1A2b3c"
      ≡ rgb
          (digit_at "#1A2b3c" 1 * 16 + digit_at "#1A2b3c" 2)
          (digit_at "#1A2b3c" 3 * 16 + digit_at "#1A2b3c" 4)
          (digit_at "#1A2b3c" 5 * 16 + digit_at "#1A2b3c" 6))
    × ((i : ℕ) → digit_at "#1A2b3c" i < 16)
parse_hex_color-digits_example =
    parse_hex_color-digits "#1A2b3c" (unfold is_valid_hex_color if◌then◌else◌ in refl)

-- A text that the validation refuses, and that is not black.
odd_color : parse_hex_color "#-1 2+3" ≡ rgb 255 2 3
unfolding parse_hex_color if◌then◌else◌
odd_color = refl

abbrev connected_monitor : SpoutMonitor
connected_monitor = record new_monitor { connected = true }

receive_latest_frame-Answer_example :
    Answer connected_monitor
      (receive_latest_frame reception picture picture_meta false connected_monitor)
receive_latest_frame-Answer_example =
    receive_latest_frame-Answer reception picture picture_meta false connected_monitor
      (record { same_length = λ pixels. refl })
