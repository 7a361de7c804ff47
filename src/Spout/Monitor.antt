-- ===== src/Spout/Monitor.antt =====
-- src/spout/spout_monitor.cpp. What SpoutDX and Direct3D answer is an argument of each call; the
-- mutex makes each call one step. Calls of SpoutDX that return nothing leave no trace here.
pub mod Frame
use spout_relay.Base.{
  ℕ, zero, suc, ◌+◌, ◌*◌, ◌%◌, ◌^◌, Bool, true, false, not, ◌&&◌, ◌||◌, ◌==◌, ◌!=◌, List, [], ◌∷◌,
  Option, none, some, String, if◌then◌else◌,
}
use spout_relay.Common.Types.{Float, rgba, bgra, FrameBuffer, FrameMeta, SenderInfo, empty_sender}

pub record SpoutMonitor : Type 0 where
  pub current_info : SenderInfo
  pub connected : Bool
  pub sequence : ℕ
  pub gpu_mode : Bool

abbrev pub new_monitor : SpoutMonitor
new_monitor = record {
  current_info = empty_sender;
  connected = false;
  sequence = 0;
  gpu_mode = false;
}

-- `opened` is the answer of `OpenDirectX11()`.
unfoldable pub init : Bool → SpoutMonitor → Bool × String × SpoutMonitor
init opened m =
    if not opened
    then (false, "Failed to initialise DirectX 11 for Spout receiver", m)
    else (true, "", m)

-- `found` is the answer of `GetSenderInfo(name, ...)`; nothing of the monitor changes.
unfoldable pub probe_sender : Bool → SpoutMonitor → Bool
probe_sender found m = found

unfoldable pub connect : String → SpoutMonitor → Bool × String × SpoutMonitor
connect name m = (
  true,
  "",
  record m {
    connected = true;
    current_info = record m.current_info { name = name; valid = false };
  },
)

unfoldable pub disconnect : SpoutMonitor → SpoutMonitor
disconnect m =
    if m.connected then (record m { connected = false; current_info = empty_sender }) else m

-- The answers to one `receive_latest_frame()`. `sender_size` is that of `GetSenderInfo()`, `received`
-- that of `ReceiveTexture()` or `ReceiveImage()`, `image` what `ReceiveImage()` makes of the buffer.
pub record Reception : Type 0 where
  pub sender_size : Option (ℕ × ℕ)
  pub device_removed : Bool
  pub received : Bool
  pub sender_width : ℕ
  pub sender_height : ℕ
  pub updated : Bool
  pub sender_name : String
  pub sender_fps : Float
  pub frame_new : Bool
  pub texture : Option ℕ
  pub dxgi_format : ℕ
  pub image : List ℕ → List ℕ
  pub now_us : ℕ

-- `return` value, the three reference arguments and the monitor after a call.
pub record Received : Type 0 where
  pub ok : Bool
  pub buf : FrameBuffer
  pub info : FrameMeta
  pub is_new : Bool
  pub monitor : SpoutMonitor

-- `std::vector::resize(n)`.
unfoldable pub resize : ℕ → List ℕ → List ℕ
resize zero xs = []
resize (suc n) [] = 0 ∷ resize n []
resize (suc n) (x ∷ xs) = x ∷ resize n xs

abbrev pub rgba_format : ℕ
rgba_format = 28

abbrev pub or_else : ℕ → ℕ → ℕ
or_else n fallback = if n != 0 then n else fallback

-- `nw && nh && (nw != w || nh != h)`.
unfoldable pub size_changed : Reception → ℕ → ℕ → Bool
size_changed a w h =
    a.sender_width != 0 && (a.sender_height != 0 && (a.sender_width != w || a.sender_height != h))

-- The update event: the sender's description is taken over.
unfoldable pub take_over : Reception → ℕ → ℕ → SpoutMonitor → SpoutMonitor
take_over a w h m = record m {
  current_info = record m.current_info {
    width = or_else a.sender_width w;
    height = or_else a.sender_height h;
    name = a.sender_name;
    fps = a.sender_fps;
  };
}

-- The tail of `receive_latest_frame`, where `meta` is filled.
unfoldable pub stamp : Reception → ℕ → ℕ → FrameBuffer → Bool → SpoutMonitor → Received
stamp a w h buf is_new m =
    let sequence = (m.sequence + 1) % 2 ^ 64 in
    record {
      ok = true;
      buf = buf;
      info = record { sequence = sequence; timestamp_us = a.now_us; width = w; height = h };
      is_new = is_new;
      monitor = record m { sequence = sequence };
    }

unfoldable pub receive_texture : Reception → ℕ → ℕ → Received → Received
unfolding size_changed take_over stamp
receive_texture a w h r =
    if a.device_removed
    then r
    else if not a.received
    then r
    else let changed = size_changed a w h in
      let event = a.updated || changed in
      let w' = if changed then a.sender_width else w in
      let h' = if changed then a.sender_height else h in
      let buf : FrameBuffer = record {
        pixels = [];
        gpu_texture = a.texture;
        width = w';
        height = h';
        format = if a.dxgi_format == rgba_format then rgba else bgra;
      } in
      stamp a w' h' buf (if event then false else a.frame_new)
        (if event then take_over a w h r.monitor else r.monitor)

-- `static_cast<size_t>(w) * h * 4`.
abbrev pub byte_size : ℕ → ℕ → ℕ
byte_size w h = (w * h * 4) % 2 ^ 64

unfoldable pub receive_image : Reception → ℕ → ℕ → Received → Received
unfolding size_changed take_over stamp resize
receive_image a w h r =
    let copied = a.image (resize (byte_size w h) r.buf.pixels) in
    if not a.received
    then (record r { buf = record r.buf { pixels = copied } })
    else let changed = a.updated && size_changed a w h in
      let w' = if changed then a.sender_width else w in
      let h' = if changed then a.sender_height else h in
      let buf : FrameBuffer = record {
        pixels = if changed then resize (byte_size w' h') copied else copied;
        gpu_texture = none;
        width = w';
        height = h';
        format = rgba;
      } in
      stamp a w' h' buf (if a.updated then false else a.frame_new)
        (if a.updated then take_over a w h r.monitor else r.monitor)

-- The two receive paths, once the sender's size is known.
unfoldable pub receive_sized : Reception → ℕ → ℕ → Received → Received
unfolding receive_texture receive_image
receive_sized a w h r =
    if r.monitor.gpu_mode then receive_texture a w h r else receive_image a w h r

-- `GetSenderInfo()` for a sender whose size is unknown.
unfoldable pub ask_size : Reception → Option (ℕ × ℕ) → Received → Received
unfolding receive_sized
ask_size a none r = r
ask_size a (some (w, h)) r =
    if w == 0 || h == 0
    then r
    else receive_sized a w h (record r {
      monitor = record r.monitor {
        current_info = record r.monitor.current_info { width = w; height = h; valid = true };
      };
    })

unfoldable pub receive_latest_frame :
    Reception → FrameBuffer → FrameMeta → Bool → SpoutMonitor → Received
unfolding ask_size receive_sized
receive_latest_frame a buf info is_new m =
    let r : Received = record {
      ok = false;
      buf = buf;
      info = info;
      is_new = is_new;
      monitor = m;
    } in
    if not m.connected
    then r
    else if m.current_info.width == 0 || m.current_info.height == 0
    then ask_size a a.sender_size r
    else receive_sized a m.current_info.width m.current_info.height r

unfoldable pub set_gpu_mode : Bool → SpoutMonitor → SpoutMonitor
set_gpu_mode enabled m = record m { gpu_mode = enabled }

-- `live` is the answer of `IsConnected()`, `format` that of `GetSenderFormat()`.
unfoldable pub get_sender_dxgi_format : Bool → ℕ → SpoutMonitor → ℕ
get_sender_dxgi_format live format m = if not m.connected || not live then 0 else format

unfoldable pub is_connected : Bool → SpoutMonitor → Bool
is_connected live m = m.connected && live

-- `has_device` and `removed` are the answers of `GetDX11Device()` and `GetDeviceRemovedReason()`.
unfoldable pub is_device_removed : Bool → Bool → SpoutMonitor → Bool
is_device_removed has_device removed m = if not has_device then false else removed

unfoldable pub reinit_device : Bool → SpoutMonitor → Bool × String × SpoutMonitor
reinit_device opened m =
    let m' = record m { connected = false; current_info = empty_sender; gpu_mode = false } in
    if not opened
    then (false, "Failed to re-create DirectX 11 device after device loss", m')
    else (true, "", m')
