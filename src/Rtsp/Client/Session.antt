-- ===== src/Rtsp/Client/Session.antt =====
-- The session of src/rtsp/rtsp_publisher_client.cpp: when it is up, and what it carries.
use spout_relay.Base.{
  ℕ, ◌∙◌, suc, Bool, true, false, not, ◌||◌, List, [], ◌∷◌, Option, none, some, is_some, is_empty,
  String, ◌≡◌, refl, arith, if◌then◌else◌, choose,
}
use spout_relay.Common.Types.{RtspConfig}
use spout_relay.Encoder.Types.{EncodedPacket, CodecInfo}
use spout_relay.Rtsp.Client.{
  FormatContext, RtspClient, ConnectAnswers, SendAnswers, close_context, disconnect, write_header,
  add_stream, connect, send_through,
}

-- A connected client has a context and a packet to send with.
pub record IsConsistent (c : RtspClient) : Type 0 where
  pub context : c.connected ≡ true → is_some c.fmt_ctx ≡ true
  pub packet : is_some c.fmt_ctx ≡ true → c.pkt ≡ true

-- Of a client `c` after an attempt to connect that began with one of these trailers.
pub record Tried (config : RtspConfig) (info : CodecInfo) (trailers : ℕ) (ok : Bool)
    (c : RtspClient) : Type 0 where
  pub ended : c.trailers ≡ trailers
  pub consistent : IsConsistent c
  pub flag : c.connected ≡ ok
  pub context :
      ok ≡ true
      → (x : FormatContext) × (c.fmt_ctx ≡ some x)
        × (x.stream ≡ info)
        × (x.url ≡ config.url)
        × (x.written ≡ [])
  pub no_context : ok ≡ false → c.fmt_ctx ≡ none

-- A session that was up ends with exactly one trailer; after it nothing is held.
pub record Closed (c c' : RtspClient) : Type 0 where
  pub no_context : c'.fmt_ctx ≡ none
  pub down : c'.connected ≡ false
  pub ended : c.connected ≡ true → c'.trailers ≡ suc c.trailers
  pub not_ended : c.connected ≡ false → c'.trailers ≡ c.trailers

close_context-Closed :
    (o : Option FormatContext) (c : RtspClient)
    → c.fmt_ctx ≡ o
    → IsConsistent c
    → Closed c (close_context o c)
unfolding close_context if◌then◌else◌
close_context-Closed none c e h = ground arith
close_context-Closed (some x) c e h = ground arith

pub disconnect-Closed : (c : RtspClient) → IsConsistent c → Closed c (disconnect c)
unfolding disconnect
disconnect-Closed c h = close_context-Closed c.fmt_ctx c refl h

write_header-Tried :
    (a : ConnectAnswers) (o : Option String) (config : RtspConfig) (info : CodecInfo)
    (c : RtspClient)
    → c.fmt_ctx ≡ none
    → c.connected ≡ false
    → let (ok, _, c') = write_header a o config info c in Tried config info c.trailers ok c'
unfolding write_header
write_header-Tried a (some what) config info c e d = ground arith
write_header-Tried a none config info c e d =
    choose (λ (r : Bool × String × RtspClient). Tried config info c.trailers r.0 r.2)
      (not a.packet_alloc) (λ _. (ground arith))
      λ _. record {
        ended = refl;
        consistent = record { context = λ _. refl; packet = λ _. refl };
        flag = refl;
        context = λ _. (_, refl, refl, refl, refl);
        no_context = λ h. cc;
      }

add_stream-Tried :
    (a : ConnectAnswers) (o : Option String) (config : RtspConfig) (info : CodecInfo)
    (c : RtspClient)
    → c.fmt_ctx ≡ none
    → c.connected ≡ false
    → let (ok, _, c') = add_stream a o config info c in Tried config info c.trailers ok c'
unfolding add_stream
add_stream-Tried a (some what) config info c e d = (ground arith)
add_stream-Tried a none config info c e d =
    choose tried (not a.new_stream) (λ _. (ground arith))
      λ _.
        choose tried (not (is_empty info.extradata || a.extradata_alloc)) (λ _. (ground arith))
          (λ _. write_header-Tried a a.header_error config info c e d)
  where
    tried : Bool × String × RtspClient → Type 0
    tried r = Tried config info c.trailers r.0 r.2

-- `connect` on a client that was up writes exactly one trailer, on one that was not none.
pub record Connected (config : RtspConfig) (info : CodecInfo) (c : RtspClient) (ok : Bool)
    (c' : RtspClient) : Type 0 where
  pub consistent : IsConsistent c'
  pub flag : c'.connected ≡ ok
  pub context :
      ok ≡ true
      → (x : FormatContext) × (c'.fmt_ctx ≡ some x)
        × (x.stream ≡ info)
        × (x.url ≡ config.url)
        × (x.written ≡ [])
  pub no_context : ok ≡ false → c'.fmt_ctx ≡ none
  pub ended : c.connected ≡ true → c'.trailers ≡ suc c.trailers
  pub not_ended : c.connected ≡ false → c'.trailers ≡ c.trailers

-- `connect` reports success exactly if the client is connected afterwards: then its session has
-- the URL of the settings and the stream of the codec, and nothing written yet. At any failure no
-- context is left. In either case a session that was up before has got its one trailer, and none is
-- written where no session was up.
pub connect-Connected :
    (a : ConnectAnswers) (config : RtspConfig) (info : CodecInfo) (c : RtspClient)
    → IsConsistent c
    → let (ok, _, c') = connect a config info c in Connected config info c ok c'
unfolding connect
connect-Connected a config info c h =
    let closed = disconnect-Closed c h in
    let t =
      add_stream-Tried a a.alloc_error config info (disconnect c) closed.no_context closed.down in
    record {
      consistent = t.consistent;
      flag = t.flag;
      context = t.context;
      no_context = t.no_context;
      ended = λ up. t.ended ∙ closed.ended up;
      not_ended = λ down. t.ended ∙ closed.not_ended down;
    }

-- What the muxer took in the session, newest first.
unfoldable pub written_of : Option FormatContext → List EncodedPacket
written_of none = []
written_of (some x) = x.written

-- Of sending one packet: `ok` if it is the last that was written, and otherwise none is.
pub record Sent (pkt : EncodedPacket) (c : RtspClient) (ok : Bool) (c' : RtspClient) : Type 0 where
  pub consistent : IsConsistent c'
  pub written :
      written_of c'.fmt_ctx ≡ (if ok then pkt ∷ written_of c.fmt_ctx else written_of c.fmt_ctx)
  pub up : ok ≡ true → c.connected ≡ true
  pub still_up : c'.connected ≡ true → c.connected ≡ true
  pub trailers : c'.trailers ≡ c.trailers

pub send_through-Sent :
    (a : SendAnswers) (pkt : EncodedPacket) (o : Option FormatContext) (c : RtspClient)
    → c.fmt_ctx ≡ o
    → IsConsistent c
    → Sent pkt c (send_through a pkt o c).0 (send_through a pkt o c).1
unfolding send_through written_of if◌then◌else◌
send_through-Sent a pkt none c e h = record {
  consistent = h;
  written = refl;
  up = λ h. cc;
  still_up = λ h. h;
  trailers = refl;
}
send_through-Sent a pkt (some x) c e h = ground arith
