-- ===== src/Rtsp/Client.antt =====
-- src/rtsp/rtsp_publisher_client.cpp. The answers of FFmpeg are arguments of each call.
pub mod Session
pub mod Count
use spout_relay.Base.{
  ℕ, suc, Bool, true, false, not, ◌||◌, List, [], ◌∷◌, Option, none, some, String, ℤ, pos, ◌*ℤ◌,
  narrow, if◌then◌else◌, is_empty,
}
use Prim.Native.String.{◌++◌ as append}
use spout_relay.Common.Types.{RtspConfig}
use spout_relay.Encoder.Types.{EncodedPacket, CodecInfo}

-- The muxer's context: what it was opened with, the packets that it took, newest first.
pub record FormatContext : Type 0 where
  pub url : String
  pub stream : CodecInfo
  pub timeout_us : ℤ
  pub written : List EncodedPacket

-- `trailers` counts the trailers written, each the orderly end of a session.
pub record RtspClient : Type 0 where
  pub fmt_ctx : Option FormatContext
  pub pkt : Bool
  pub fps : ℤ
  pub connected : Bool
  pub trailers : ℕ

abbrev pub new_client : RtspClient
new_client = record { fmt_ctx = none; pkt = false; fps = pos 30; connected = false; trailers = 0 }

unfoldable pub close_context : Option FormatContext → RtspClient → RtspClient
close_context none c = c
close_context (some _) c = record c {
  trailers = if c.connected then suc c.trailers else c.trailers;
  fmt_ctx = none;
  pkt = false;
  connected = false;
}

unfoldable pub disconnect : RtspClient → RtspClient
unfolding close_context
disconnect c = close_context c.fmt_ctx c

-- `alloc_error` and `header_error` are the texts of a failed call.
pub record ConnectAnswers : Type 0 where
  pub alloc_error : Option String
  pub new_stream : Bool
  pub extradata_alloc : Bool
  pub header_error : Option String
  pub packet_alloc : Bool

unfoldable pub write_header :
    ConnectAnswers
    → Option String
    → RtspConfig
    → CodecInfo
    → RtspClient
    → Bool × String × RtspClient
unfolding ◌*ℤ◌ narrow
write_header a (some what) config info c =
    (false, append "RTSP connect (write_header) failed: " what, c)
write_header a none config info c =
    if not a.packet_alloc
    then (false, "Failed to allocate reusable AVPacket", record c { fps = info.fps })
    else (
      true,
      "",
      record c {
        fmt_ctx = some (record {
          url = config.url;
          stream = info;
          timeout_us = narrow (config.connect_timeout_ms *ℤ pos 1000);
          written = [];
        });
        pkt = true;
        fps = info.fps;
        connected = true;
      },
    )

unfoldable pub add_stream :
    ConnectAnswers
    → Option String
    → RtspConfig
    → CodecInfo
    → RtspClient
    → Bool × String × RtspClient
unfolding write_header
add_stream a (some what) config info c =
    (false, append "avformat_alloc_output_context2 failed: " what, c)
add_stream a none config info c =
    if not a.new_stream
    then (false, "avformat_new_stream failed", c)
    else if not (is_empty info.extradata || a.extradata_alloc)
    then (false, "Failed to allocate codec extradata buffer", c)
    else write_header a a.header_error config info c

unfoldable pub connect :
    ConnectAnswers → RtspConfig → CodecInfo → RtspClient → Bool × String × RtspClient
unfolding disconnect add_stream
connect a config info c = add_stream a a.alloc_error config info (disconnect c)

pub record SendAnswers : Type 0 where
  pub packet_data : Bool
  pub written : Bool

unfoldable pub send_through :
    SendAnswers → EncodedPacket → Option FormatContext → RtspClient → Bool × RtspClient
send_through a pkt none c = (false, c)
send_through a pkt (some ctx) c =
    if not c.connected || not c.pkt
    then (false, c)
    else if not a.packet_data
    then (false, c)
    else if not a.written
    then (false, record c { connected = false })
    else (true, record c { fmt_ctx = some (record ctx { written = pkt ∷ ctx.written }) })

unfoldable pub send_packet : SendAnswers → EncodedPacket → RtspClient → Bool × RtspClient
unfolding send_through
send_packet a pkt c = send_through a pkt c.fmt_ctx c
