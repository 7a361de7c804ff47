-- ===== src/Spout/Monitor/Frame.antt =====
-- The frames of `receive_latest_frame` in src/spout/spout_monitor.cpp: their size and their number.
use spout_relay.Base.{
  ℕ, zero, suc, ◌+◌, ◌%◌, ◌^◌, Bool, true, false, not, ◌&&◌, ◌||◌, ◌==◌, List, [], ◌∷◌, Option,
  none, some, ◌≡◌, refl, sym, ap, ◌∙◌, length, if◌then◌else◌, choose,
}
use spout_relay.Common.Types.{FrameBuffer, FrameMeta}
use spout_relay.Spout.Monitor.{
  SpoutMonitor, Reception, Received, resize, byte_size, size_changed, take_over, stamp,
  receive_texture, receive_image, receive_sized, ask_size, receive_latest_frame,
}

pub length-resize : (n : ℕ) (xs : List ℕ) → length (resize n xs) ≡ n
unfolding resize
length-resize zero xs = refl
length-resize (suc n) [] = ap suc (length-resize n [])
length-resize (suc n) (x ∷ xs) = ap suc (length-resize n xs)

-- What `ReceiveImage` writes into the buffer it is given has the buffer's length.
pub record InPlace (a : Reception) : Type 0 where
  pub same_length : (pixels : List ℕ) → length (a.image pixels) ≡ length pixels

-- A frame with the next number, whose bytes are those of its size: all of them without the GPU, and
-- none with it.
pub record IsWhole (m : SpoutMonitor) (r : Received) : Type 0 where
  pub next : r.monitor.sequence ≡ (m.sequence + 1) % 2 ^ 64
  pub number : r.info.sequence ≡ r.monitor.sequence
  pub width : r.info.width ≡ r.buf.width
  pub height : r.info.height ≡ r.buf.height
  pub mode : r.monitor.gpu_mode ≡ m.gpu_mode
  pub bytes : length r.buf.pixels ≡ (if m.gpu_mode then 0 else byte_size r.buf.width r.buf.height)

-- Without a frame the number stays.
pub data Answer (m : SpoutMonitor) (r : Received) : Type 0 where
  whole : r.ok ≡ true → IsWhole m r → Answer m r
  no_frame : r.ok ≡ false → r.monitor.sequence ≡ m.sequence → Answer m r

-- A call that has not got a frame yet.
record Open (m : SpoutMonitor) (r : Received) : Type 0 where
  failed : r.ok ≡ false
  same_number : r.monitor.sequence ≡ m.sequence
  same_mode : r.monitor.gpu_mode ≡ m.gpu_mode

-- Number and mode are those of the monitor at the call.
record Untouched (m n : SpoutMonitor) : Type 0 where
  number : n.sequence ≡ m.sequence
  mode : n.gpu_mode ≡ m.gpu_mode

take_over-Untouched :
    (b : Bool) (a : Reception) (w h : ℕ) (m n : SpoutMonitor)
    → Untouched m n
    → Untouched m (if b then take_over a w h n else n)
unfolding take_over
take_over-Untouched b a w h m n u =
    choose (Untouched m) b (λ _. record { number = u.number; mode = u.mode }) (λ _. u)

stamp-Answer :
    (a : Reception) (w h : ℕ) (buf : FrameBuffer) (is_new : Bool) (m n : SpoutMonitor)
    → Untouched m n
    → buf.width ≡ w
    → buf.height ≡ h
    → length buf.pixels ≡ (if m.gpu_mode then 0 else byte_size buf.width buf.height)
    → Answer m (stamp a w h buf is_new n)
unfolding stamp
stamp-Answer a w h buf is_new m n u ew eh bytes = whole refl (record {
  next = ap (λ k. (k + 1) % 2 ^ 64) u.number;
  number = refl;
  width = sym ew;
  height = sym eh;
  mode = u.mode;
  bytes = bytes;
})

when_true : (b : Bool) (x y : ℕ) → b ≡ true → (if b then x else y) ≡ x
unfolding if◌then◌else◌
when_true b x y e = rw e refl

when_false : (b : Bool) (x y : ℕ) → b ≡ false → (if b then x else y) ≡ y
unfolding if◌then◌else◌
when_false b x y e = rw e refl

-- The buffer on the CPU path, with the size that it is resized to at an update event.
image-bytes :
    (changed : Bool) (a : Reception) (w h : ℕ) (pixels : List ℕ)
    → InPlace a
    → let w' = if changed then a.sender_width else w in
      let h' = if changed then a.sender_height else h in
      let copied = a.image (resize (byte_size w h) pixels) in
      length (if changed then resize (byte_size w' h') copied else copied) ≡ byte_size w' h'
unfolding if◌then◌else◌
image-bytes true a w h pixels p = length-resize _ _
image-bytes false a w h pixels p = p.same_length _ ∙ length-resize _ pixels

receive_texture-Answer :
    (a : Reception) (w h : ℕ) (m : SpoutMonitor) (r : Received)
    → Open m r
    → m.gpu_mode ≡ true
    → Answer m (receive_texture a w h r)
unfolding receive_texture
receive_texture-Answer a w h m r o g =
    choose (Answer m) a.device_removed (λ _. no_frame o.failed o.same_number)
      λ _.
        choose (Answer m) (not a.received) (λ _. no_frame o.failed o.same_number)
          λ _.
            stamp-Answer a _ _ _ _ m _
              (take_over-Untouched _ a w h m r.monitor
                (record { number = o.same_number; mode = o.same_mode }))
              refl refl (sym (when_true _ _ _ g))

receive_image-Answer :
    (a : Reception) (w h : ℕ) (m : SpoutMonitor) (r : Received)
    → InPlace a
    → Open m r
    → m.gpu_mode ≡ false
    → Answer m (receive_image a w h r)
unfolding receive_image
receive_image-Answer a w h m r p o g =
    choose (Answer m) (not a.received) (λ _. no_frame o.failed o.same_number)
      λ _.
        stamp-Answer a _ _ _ _ m _
          (take_over-Untouched _ a w h m r.monitor
            (record { number = o.same_number; mode = o.same_mode }))
          refl refl
          (image-bytes (a.updated && size_changed a w h) a w h r.buf.pixels p
            ∙ sym (when_false _ _ _ g))

receive_sized-Answer :
    (a : Reception) (w h : ℕ) (m : SpoutMonitor) (r : Received)
    → InPlace a
    → Open m r
    → Answer m (receive_sized a w h r)
unfolding receive_sized
receive_sized-Answer a w h m r p o =
    choose (Answer m) r.monitor.gpu_mode
      (λ g. receive_texture-Answer a w h m r o (sym o.same_mode ∙ g))
      (λ g. receive_image-Answer a w h m r p o (sym o.same_mode ∙ g))

ask_size-Answer :
    (a : Reception) (o : Option (ℕ × ℕ)) (m : SpoutMonitor) (r : Received)
    → InPlace a
    → Open m r
    → Answer m (ask_size a o r)
unfolding ask_size
ask_size-Answer a none m r p o = no_frame o.failed o.same_number
ask_size-Answer a (some (w, h)) m r p o =
    choose (Answer m) (w == 0 || h == 0) (λ _. no_frame o.failed o.same_number)
      λ _.
        receive_sized-Answer a w h m _ p
          (record { failed = o.failed; same_number = o.same_number; same_mode = o.same_mode })

-- Given that `ReceiveImage` writes within the buffer it is handed, each call of
-- `receive_latest_frame` either succeeds, with the next sequence number, a description of the size
-- of the buffer, and, off the GPU, exactly four bytes (modulo 2^64) for each pixel of that size, also
-- when the sender changes its size within the call; or it fails and uses no sequence number up.
pub receive_latest_frame-Answer :
    (a : Reception) (buf : FrameBuffer) (info : FrameMeta) (is_new : Bool) (m : SpoutMonitor)
    → InPlace a
    → Answer m (receive_latest_frame a buf info is_new m)
unfolding receive_latest_frame
receive_latest_frame-Answer a buf info is_new m p =
    let r : Received = record {
      ok = false;
      buf = buf;
      info = info;
      is_new = is_new;
      monitor = m;
    } in
    let o : Open m r = record { failed = refl; same_number = refl; same_mode = refl } in
    choose (Answer m) (not m.connected) (λ _. no_frame refl refl)
      λ _.
        choose (Answer m) (m.current_info.width == 0 || m.current_info.height == 0)
          (λ _. ask_size-Answer a a.sender_size m r p o) (λ _. receive_sized-Answer a _ _ m r p o)
