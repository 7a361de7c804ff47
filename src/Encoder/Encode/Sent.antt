-- ===== src/Encoder/Encode/Sent.antt =====
-- What `encode` of src/encoder/encoder_controller.cpp gives the codec.
use spout_relay.Base.{
  suc, Bool, true, false, not, List, ◌∷◌, Option, some, ◌≡◌, refl, arith, ap, ◌∙◌, if◌then◌else◌,
  choose,
}
use spout_relay.Common.Types.{FrameBuffer}
use spout_relay.Encoder.Types.{EncodedPacket, SentFrame, Encoder, IsReady}
use spout_relay.Encoder.Encode.{
  EncodeAnswers, Encoded, send_frame, through_context, copy_to_pool, encode_gpu, encode_cpu, encode,
}
use spout_relay.Encoder.Encode.Retained.{
  Retained, Retained-refl, Retained-trans, through_context-calls, IsReady-after,
}

-- `e` after at most one frame more: numbered by the counter, an IDR if one was asked for.
pub data Advanced (e e' : Encoder) : Type 0 where
  unsent :
      e'.sent ≡ e.sent
      → e'.frame_count ≡ e.frame_count
      → e'.force_next_idr ≡ e.force_next_idr
      → Advanced e e'
  sent :
      (picture : Option FrameBuffer)
      → e'.sent ≡ record { pts = e.frame_count; idr = e.force_next_idr; picture = picture } ∷ e.sent
      → e'.frame_count ≡ suc e.frame_count
      → e'.force_next_idr ≡ false
      → Advanced e e'

-- Both of a call of `encode`.
record Call (e e' : Encoder) : Type 0 where
  advanced : Advanced e e'
  retained : Retained e e'

abbrev Calls : Encoder → Encoded → Type 0
Calls e r = Call e r.2

send_frame-Call :
    (a : EncodeAnswers) (out : List EncodedPacket) (e : Encoder) → Call e (send_frame a out e).2
unfolding send_frame
send_frame-Call a out e = choose (Calls e) _ (λ _. given) (λ _. given)
  where
    given : Call e (record e {
      frame_count = suc e.frame_count;
      force_next_idr = false;
      sent = record { pts = e.frame_count; idr = e.force_next_idr; picture = e.picture } ∷ e.sent;
    })
    given = record { advanced = sent e.picture refl refl refl; retained = ground arith }

-- Filling a frame touches neither the counter nor the flag.
record Filled (e e' : Encoder) : Type 0 where
  same_sent : e'.sent ≡ e.sent
  same_count : e'.frame_count ≡ e.frame_count
  same_flag : e'.force_next_idr ≡ e.force_next_idr
  same_objects : Retained e e'

copied :
    (ref : Bool) (e : Encoder) (kept : Option FrameBuffer)
    → e.gpu_path ≡ true
    → Filled e (record (through_context e) { last_hw_frame = some ref; picture = kept })
unfolding through_context
copied ref e kept gpu = record {
  same_sent = refl;
  same_count = refl;
  same_flag = refl;
  same_objects = record {
    codec = refl;
    packet = refl;
    path = refl;
    frames = refl;
    scaler = refl;
    yuv = refl;
    config = refl;
    context = refl;
    calls = λ held. through_context-calls e (held gpu);
    hw_frame = λ h. refl;
  };
}

unfilled : {e : Encoder} → Filled e e
unfilled = record {
  same_sent = refl;
  same_count = refl;
  same_flag = refl;
  same_objects = Retained-refl;
}

copy_to_pool-Filled :
    (a : EncodeAnswers) (frame : FrameBuffer) (e : Encoder)
    → e.gpu_path ≡ true
    → Filled e (copy_to_pool a frame e).1
unfolding copy_to_pool through_context
copy_to_pool-Filled a frame e gpu =
    choose filled _ (λ _. unfilled)
      λ _.
        choose filled _ (λ _. unfilled)
          λ _.
            choose filled _ (λ _. unfilled)
              λ _.
                choose filled _ (λ _. copied false e e.picture gpu)
                  (λ _. copied true e (some frame) gpu)
  where
    filled : Bool × Encoder → Type 0
    filled r = Filled e r.1

number_after : {e e' e'' : Encoder} → Filled e e' → Advanced e' e'' → Advanced e e''
number_after f (unsent p q r) = unsent (p ∙ f.same_sent) (q ∙ f.same_count) (r ∙ f.same_flag)
number_after {e} {e'} {e''} f (sent picture p q r) =
    sent picture (p ∙ entry) (q ∙ ap suc f.same_count) r
  where
    entry :
        Path
          (List SentFrame)
          (record { pts = e'.frame_count; idr = e'.force_next_idr; picture = picture } ∷ e'.sent)
          (record { pts = e.frame_count; idr = e.force_next_idr; picture = picture } ∷ e.sent)
    entry = rw (f.same_sent, f.same_count, f.same_flag) refl

nothing : {e : Encoder} → Call e e
nothing = record { advanced = unsent refl refl refl; retained = Retained-refl }

after_fill : {e e' e'' : Encoder} → Filled e e' → Call e' e'' → Call e e''
after_fill f c = record {
  advanced = number_after f c.advanced;
  retained = Retained-trans f.same_objects c.retained;
}

after_copy :
    (a : EncodeAnswers) (out : List EncodedPacket) (e : Encoder) (p : Bool × Encoder)
    → Filled e p.1
    → Calls e (
        if not p.0
        then (false, out, p.1)
        else if not a.send_alloc
        then (false, out, p.1)
        else if not a.send_ref
        then (false, out, p.1)
        else send_frame a out p.1)
after_copy a out e p f =
    choose (Calls e) _ (λ _. after_fill f nothing)
      λ _.
        choose (Calls e) _ (λ _. after_fill f nothing)
          λ _.
            choose (Calls e) _ (λ _. after_fill f nothing)
              λ _. after_fill f (send_frame-Call a out p.1)

encode_gpu-Call :
    (a : EncodeAnswers) (frame : FrameBuffer) (changed : Bool) (out : List EncodedPacket)
    (e : Encoder)
    → e.gpu_path ≡ true
    → Calls e (encode_gpu a frame changed out e)
unfolding encode_gpu
encode_gpu-Call a frame changed out e gpu =
    choose (Calls e) _ (λ _. nothing)
      λ _.
        choose (Calls e) _ (λ _. nothing)
          λ _. after_copy a out e _ (
            choose (λ (r : Bool × Encoder). Filled e r.1) _ (λ _. copy_to_pool-Filled a frame e gpu)
              (λ _. unfilled))

encode_cpu-Call :
    (a : EncodeAnswers) (frame : FrameBuffer) (changed : Bool) (out : List EncodedPacket)
    (e : Encoder)
    → Calls e (encode_cpu a frame changed out e)
unfolding encode_cpu
encode_cpu-Call a frame changed out e =
    choose (Calls e) _ (λ _. nothing)
      λ _.
        choose (Calls e) _
          (λ _.
            choose (Calls e) _ (λ _. nothing)
              λ _.
                after_fill
                  (record {
                    same_sent = refl;
                    same_count = refl;
                    same_flag = refl;
                    same_objects = ground arith;
                  })
                  (send_frame-Call a out (record e { picture = some frame })))
          (λ _. send_frame-Call a out e)

encode-Call :
    (a : EncodeAnswers) (frame : FrameBuffer) (changed : Bool) (out : List EncodedPacket)
    (e : Encoder)
    → Calls e (encode a frame changed out e)
unfolding encode
encode-Call a frame changed out e =
    choose (Calls e) _ (λ _. nothing)
      λ _.
        choose (Calls e) _ (λ gpu. encode_gpu-Call a frame changed out e gpu)
          (λ _. encode_cpu-Call a frame changed out e)

-- A call of `encode`, whatever fails in it, gives the codec at most one frame: numbered by the
-- frame counter, which it advances by one, and forced to be an IDR exactly if one had been asked
-- for, which it answers once. A call that gives none leaves counter and request as they were.
pub encode-Advanced :
    (a : EncodeAnswers) (frame : FrameBuffer) (content_changed : Bool) (out : List EncodedPacket)
    (e : Encoder)
    → Advanced e (encode a frame content_changed out e).2
encode-Advanced a frame changed out e = (encode-Call a frame changed out e).advanced

-- An encoder that is ready stays so through a call of `encode`, whatever fails in it.
pub encode-IsReady :
    (a : EncodeAnswers) (frame : FrameBuffer) (content_changed : Bool) (out : List EncodedPacket)
    (e : Encoder)
    → IsReady e
    → IsReady (encode a frame content_changed out e).2
encode-IsReady a frame changed out e h =
    IsReady-after (encode-Call a frame changed out e).retained h
