-- ===== src/Encoder/Encode.antt =====
-- `drain_encoder`, `encode` and `flush` of src/encoder/encoder_controller.cpp. The answers of FFmpeg
-- and Direct3D are arguments. `frame_count` is an `int64_t` that is counted up and does not wrap.
pub mod Retained
pub mod Sent
pub mod Session
use spout_relay.Base.{
  ℕ, suc, ◌*◌, ◌%◌, ◌^◌, Bool, true, false, not, ◌&&◌, ◌||◌, ◌==◌, List, [], ◌∷◌, ◌++◌, Option,
  none, some, ℤ, pos, ltb_ℤ, if◌then◌else◌, is_some, is_empty,
}
use spout_relay.Common.Types.{FrameBuffer}
use spout_relay.Encoder.Types.{EncodedPacket, Encoder}

pub record RawPacket : Type 0 where
  pub payload : List ℕ
  pub pts : ℤ
  pub dts : ℤ
  pub duration : ℤ
  pub key : Bool

-- One answer of `avcodec_receive_packet`.
pub data Drained : Type 0 where
  packet : RawPacket → Drained
  again : Drained
  eof : Drained
  error : Drained

unfoldable pub encoded : ℤ → RawPacket → EncodedPacket
encoded fps raw = record {
  payload = raw.payload;
  pts = raw.pts;
  dts = raw.dts;
  duration = if ltb_ℤ (pos 0) raw.duration then raw.duration else pos 1;
  is_key_frame = raw.key;
  time_base_num = pos 1;
  time_base_den = fps;
}

-- The codec's answers up to its next EAGAIN; the end of the list is one.
unfoldable pub drain_encoder : List Drained → ℤ → List EncodedPacket → Bool × List EncodedPacket
unfolding encoded
drain_encoder [] fps out = (true, out)
drain_encoder (again ∷ _) fps out = (true, out)
drain_encoder (eof ∷ _) fps out = (true, out)
drain_encoder (error ∷ _) fps out = (false, out)
drain_encoder (packet raw ∷ more) fps out = drain_encoder more fps (out ++ encoded fps raw ∷ [])

-- Whether each call that `encode` makes succeeds.
pub record EncodeAnswers : Type 0 where
  pub device_removed : Bool
  pub frame_alloc : Bool
  pub pool_buffer : Bool
  pub keep_ref : Bool
  pub send_alloc : Bool
  pub send_ref : Bool
  pub make_writable : Bool
  pub send : Bool
  pub drained : List Drained

-- The result, the packets, and the encoder after the call.
abbrev pub Encoded : Type 0
Encoded = Bool × List EncodedPacket × Encoder

-- `avcodec_send_frame` of the filled frame, and the drain.
unfoldable pub send_frame : EncodeAnswers → List EncodedPacket → Encoder → Encoded
unfolding drain_encoder
send_frame a out e =
    let e' : Encoder = record e {
      frame_count = suc e.frame_count;
      force_next_idr = false;
      sent = record { pts = e.frame_count; idr = e.force_next_idr; picture = e.picture } ∷ e.sent;
    } in
    if not a.send
    then (false, out, e')
    else let (ok, out') = drain_encoder a.drained e.config.fps out in (ok, out', e')

has_buffer : Option Bool → Bool
has_buffer none = false
has_buffer (some b) = b

-- A call through `d3d_ctx`.
unfoldable pub through_context : Encoder → Encoder
through_context e = record e { null_call = e.null_call || not e.d3d_ctx }

-- Filling a frame of the pool, by `CopySubresourceRegion` or `UpdateSubresource`, and keeping it in
-- `last_hw_frame`.
unfoldable pub copy_to_pool : EncodeAnswers → FrameBuffer → Encoder → Bool × Encoder
copy_to_pool a frame e =
    if not a.frame_alloc
    then (false, e)
    else if not a.pool_buffer
    then (false, e)
    else if not (is_some frame.gpu_texture) && (frame.width * 4) % 2 ^ 32 == 0
    then (false, e)
    else let e' : Encoder = through_context e in
      if not a.keep_ref
      then (false, record e' { last_hw_frame = some false })
      else (true, record e' { last_hw_frame = some true; picture = some frame })

unfoldable pub encode_gpu :
    EncodeAnswers → FrameBuffer → Bool → List EncodedPacket → Encoder → Encoded
unfolding copy_to_pool send_frame has_buffer
encode_gpu a frame content_changed out e =
    if e.d3d_device && a.device_removed
    then (false, out, e)
    else if not (is_some frame.gpu_texture) && is_empty frame.pixels
    then (true, out, e)
    else let need_copy =
        content_changed || (e.frame_count == 0 || not (has_buffer e.last_hw_frame)) in
      let (copied, e') = if need_copy then copy_to_pool a frame e else (true, e) in
      if not copied
      then (false, out, e')
      else if not a.send_alloc
      then (false, out, e')
      else if not a.send_ref
      then (false, out, e')
      else send_frame a out e'

unfoldable pub encode_cpu :
    EncodeAnswers → FrameBuffer → Bool → List EncodedPacket → Encoder → Encoded
unfolding send_frame
encode_cpu a frame content_changed out e =
    if not e.sws_ctx || not e.yuv_frame
    then (false, out, e)
    else if content_changed || e.frame_count == 0
    then if not a.make_writable
      then (false, out, e)
      else send_frame a out (record e { picture = some frame })
    else send_frame a out e

unfoldable pub encode : EncodeAnswers → FrameBuffer → Bool → List EncodedPacket → Encoder → Encoded
unfolding encode_gpu encode_cpu
encode a frame content_changed out e =
    if not (is_some e.codec_ctx)
    then (false, out, e)
    else if e.gpu_path
    then encode_gpu a frame content_changed out e
    else encode_cpu a frame content_changed out e

-- `refused` says that `avcodec_send_frame(ctx, nullptr)` failed with another code than EOF.
unfoldable pub flush :
    Bool → List Drained → List EncodedPacket → Encoder → Bool × List EncodedPacket
unfolding drain_encoder
flush refused drained out e =
    if not (is_some e.codec_ctx)
    then (true, out)
    else if refused
    then (false, out)
    else drain_encoder drained e.config.fps out
