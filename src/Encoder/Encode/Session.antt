-- ===== src/Encoder/Encode/Session.antt =====
-- An encoder of src/encoder/encoder_controller.cpp from `init` on, over any calls.
use spout_relay.Base.{ℕ, suc, Bool, true, false, List, [], ◌∷◌, ◌≡◌, refl, sym, subst, arith}
use spout_relay.Common.Types.{FrameBuffer, EncoderConfig}
use spout_relay.Encoder.Types.{EncodedPacket, SentFrame, Encoder, IsReady, request_next_idr}
use spout_relay.Encoder.Init.{CodecAnswers, init}
use spout_relay.Encoder.Init.Ready.{Result, init-Result}
use spout_relay.Encoder.Encode.{EncodeAnswers, encode}
use spout_relay.Encoder.Encode.Sent.{Advanced, unsent, sent, encode-Advanced, encode-IsReady}

-- The encoders that calls of `encode` and `request_next_idr` lead to from one that `init` set up.
pub data Ran : Encoder → Type 0 where
  opened :
      (attempts : ℕ → CodecAnswers) (config : EncoderConfig) (width height : ℕ) (device : Bool)
      (format : ℕ) (e : Encoder)
      → (init attempts config width height device format e).0 ≡ true
      → Ran (init attempts config width height device format e).2
  encodes :
      {e : Encoder}
      → Ran e
      → (a : EncodeAnswers) (frame : FrameBuffer) (content_changed : Bool)
        (out : List EncodedPacket)
      → Ran (encode a frame content_changed out e).2
  requests : {e : Encoder} → Ran e → Ran (request_next_idr e)

-- The frames, newest first, are numbered down to 0 from the one before `n`.
pub data IsNumbered : ℕ → List SentFrame → Type 0 where
  none_yet : IsNumbered 0 []
  and_next :
      {n : ℕ} {f : SentFrame} {fs : List SentFrame}
      → f.pts ≡ n
      → IsNumbered n fs
      → IsNumbered (suc n) (f ∷ fs)

record Good (e : Encoder) : Type 0 where
  ready : IsReady e
  numbered : IsNumbered e.frame_count e.sent

set_up :
    (config : EncoderConfig) (ok : Bool) (e : Encoder) → ok ≡ true → Result config ok e → Good e
set_up config true e h r = record {
  ready = r.ready;
  numbered =
      subst (λ n. IsNumbered n e.sent) (sym r.none_counted)
        (subst (IsNumbered 0) (sym r.no_frames) none_yet);
}
set_up config false e h r = cc

advanced :
    {e e' : Encoder}
    → Advanced e e'
    → IsNumbered e.frame_count e.sent
    → IsNumbered e'.frame_count e'.sent
advanced {e} {e'} (unsent p q r) n =
    subst (λ k. IsNumbered k e'.sent) (sym q) (subst (IsNumbered e.frame_count) (sym p) n)
advanced {e} {e'} (sent picture p q r) n =
    subst (λ k. IsNumbered k e'.sent) (sym q)
      (subst (IsNumbered (suc e.frame_count)) (sym p) (and_next refl n))

ran : {e : Encoder} → Ran e → Good e
unfolding request_next_idr
ran (opened attempts config width height device format e ok) =
    set_up config _ _ ok (init-Result attempts config width height device format e)
ran (encodes {e} r a frame changed out) =
    let g = ran r in
    record {
      ready = encode-IsReady a frame changed out e g.ready;
      numbered = advanced (encode-Advanced a frame changed out e) g.numbered;
    }
ran (requests {e} r) = let g = ran r in record { ready = ground arith; numbered = g.numbered }

-- In any session of the encoder, from a successful `init` over any calls of `encode` and
-- `request_next_idr`, the frames given to the codec have the presentation times 0, 1, 2, … with
-- none left out or used twice, also where calls failed in between.
pub Ran-IsNumbered : {e : Encoder} → Ran e → IsNumbered e.frame_count e.sent
Ran-IsNumbered r = (ran r).numbered

-- In any such session the objects that `encode` works on stay held, and no call of `encode` has gone
-- through an empty `d3d_ctx`.
pub Ran-IsReady : {e : Encoder} → Ran e → IsReady e
Ran-IsReady r = (ran r).ready
