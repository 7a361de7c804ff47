-- ===== src/Encoder/Encode/Retained.antt =====
-- What `encode` of src/encoder/encoder_controller.cpp leaves held.
use spout_relay.Base.{Bool, true, Option, none, some, is_some, ◌≡◌, refl, sym, arith, ◌∙◌}
use spout_relay.Encoder.Types.{Encoder, IsReady}
use spout_relay.Encoder.Encode.{through_context}

-- The objects that `encode` works on stay.
pub record Retained (e e' : Encoder) : Type 0 where
  pub codec : e'.codec_ctx ≡ e.codec_ctx
  pub packet : e'.pkt ≡ e.pkt
  pub path : e'.gpu_path ≡ e.gpu_path
  pub frames : e'.hw_frames_ctx ≡ e.hw_frames_ctx
  pub scaler : e'.sws_ctx ≡ e.sws_ctx
  pub yuv : e'.yuv_frame ≡ e.yuv_frame
  pub config : e'.config ≡ e.config
  pub context : e'.d3d_ctx ≡ e.d3d_ctx
  pub calls : (e.gpu_path ≡ true → e.d3d_ctx ≡ true) → e'.null_call ≡ e.null_call
  pub hw_frame : is_some e.last_hw_frame ≡ true → is_some e'.last_hw_frame ≡ true

pub Retained-refl : {e : Encoder} → Retained e e
Retained-refl = record {
  codec = refl;
  packet = refl;
  path = refl;
  frames = refl;
  scaler = refl;
  yuv = refl;
  config = refl;
  context = refl;
  calls = λ h. refl;
  hw_frame = λ h. h;
}

pub Retained-trans : {e e' e'' : Encoder} → Retained e e' → Retained e' e'' → Retained e e''
Retained-trans g h = record {
  codec = h.codec ∙ g.codec;
  packet = h.packet ∙ g.packet;
  path = h.path ∙ g.path;
  frames = h.frames ∙ g.frames;
  scaler = h.scaler ∙ g.scaler;
  yuv = h.yuv ∙ g.yuv;
  config = h.config ∙ g.config;
  context = h.context ∙ g.context;
  calls = λ held. h.calls (λ gpu. g.context ∙ held (sym g.path ∙ gpu)) ∙ g.calls held;
  hw_frame = λ held. h.hw_frame (g.hw_frame held);
}

pub through_context-calls :
    (e : Encoder) → e.d3d_ctx ≡ true → (through_context e).null_call ≡ e.null_call
unfolding through_context
through_context-calls e h = ground (arith, h)

present : {o : Option Bool} → is_some o ≡ true → (b : Bool) × (o ≡ some b)
present {o = none} h = cc
present {o = some b} h = (b, refl)

is_present : {o : Option Bool} → (b : Bool) × (o ≡ some b) → is_some o ≡ true
is_present (b, e) = rw e refl

pub IsReady-after : {e e' : Encoder} → Retained e e' → IsReady e → IsReady e'
IsReady-after r h = record {
  open_codec = (h.open_codec.0, r.codec ∙ h.open_codec.1);
  packet = r.packet ∙ h.packet;
  gpu_objects = λ gpu.
      let g = h.gpu_objects (sym r.path ∙ gpu) in
      (r.frames ∙ g.0, present (r.hw_frame (is_present g.1)));
  gpu_context = λ gpu. r.context ∙ h.gpu_context (sym r.path ∙ gpu);
  no_null_call = r.calls h.gpu_context ∙ h.no_null_call;
  cpu_objects = λ cpu. let g = h.cpu_objects (sym r.path ∙ cpu) in (r.scaler ∙ g.0, r.yuv ∙ g.1);
}
