-- ===== src/Encoder/Init.antt =====
-- `pick_pix_fmt`, `try_init_gpu_path` and `init` of src/encoder/encoder_controller.cpp.
pub mod Ready
use spout_relay.Base.{
  ℕ, suc, Bool, true, false, not, ◌&&◌, ◌||◌, ◌==◌, List, [], ◌∷◌, ◌++◌, Option, none, some, String,
  ℤ, pos, ◌*ℤ◌, ltb_ℤ, to_int, narrow, if◌then◌else◌, is_some,
}
use text.Mathlib.Text.{◌==◌ as str_eq, find?}
use Prim.Native.String.{◌++◌ as append}
use spout_relay.Common.Types.{EncoderConfig}
use spout_relay.Encoder.Types.{
  AvPixelFormat, yuv420p, nv12, av_bgra, av_rgba, d3d11, no_format, other_format, CodecContext,
  Encoder, reset,
}

unfoldable pub format_code : AvPixelFormat → ℕ
format_code yuv420p = 0
format_code nv12 = 1
format_code av_bgra = 2
format_code av_rgba = 3
format_code d3d11 = 4
format_code no_format = 5
format_code (other_format n) = suc (suc (suc (suc (suc (suc n)))))

-- `for (p = fmts; *p != AV_PIX_FMT_NONE; ++p) if (*p == f)`; the list holds what stands before NONE.
unfoldable pub supports : List AvPixelFormat → AvPixelFormat → Bool
unfolding format_code
supports [] f = false
supports (g ∷ rest) f = format_code g == format_code f || supports rest f

first_format : List AvPixelFormat → AvPixelFormat
first_format [] = no_format
first_format (f ∷ _) = f

unfoldable pub pick_pix_fmt : Option (List AvPixelFormat) → AvPixelFormat
unfolding supports first_format
pick_pix_fmt none = yuv420p
pick_pix_fmt (some formats) =
    if supports formats yuv420p
    then yuv420p
    else if supports formats nv12
    then nv12
    else first_format formats

-- Which call succeeds. `GetImmediateContext` returns nothing and always gives the device's context.
pub record GpuAnswers : Type 0 where
  pub device_alloc : Bool
  pub device_init : Bool
  pub frames_alloc : Bool
  pub frames_init : Bool

-- The result and the out parameters.
pub record GpuPath : Type 0 where
  pub ok : Bool
  pub hw_device_ctx : Bool
  pub hw_frames_ctx : Bool
  pub d3d_ctx : Bool

abbrev pub no_gpu_path : GpuPath
no_gpu_path = record { ok = false; hw_device_ctx = false; hw_frames_ctx = false; d3d_ctx = false }

unfoldable pub try_init_gpu_path : GpuAnswers → Bool → GpuPath
try_init_gpu_path a raw_device =
    if not raw_device
    then no_gpu_path
    else if not a.device_alloc
    then no_gpu_path
    else if not a.device_init
    then no_gpu_path
    else if not a.frames_alloc
    then no_gpu_path
    else if not a.frames_init
    then no_gpu_path
    else record { ok = true; hw_device_ctx = true; hw_frames_ctx = true; d3d_ctx = true }

-- The answers for one codec of the list. `open_error` is the text of a failed `avcodec_open2`.
pub record CodecAnswers : Type 0 where
  pub found : Bool
  pub context_alloc : Bool
  pub codec_id : ℤ
  pub formats : Option (List AvPixelFormat)
  pub gpu : GpuAnswers
  pub open_error : Option String
  pub extradata : List ℕ
  pub hw_frame_alloc : Bool
  pub packet_alloc : Bool
  pub sws_context : Bool
  pub sws_colorspace : Bool
  pub frame_alloc : Bool
  pub frame_buffer : Bool

unfoldable pub is_hw_codec : String → Bool
is_hw_codec name =
    is_some (find? name "nvenc") || (is_some (find? name "amf") || is_some (find? name "qsv"))

abbrev pub rgba_dxgi_format : ℕ
rgba_dxgi_format = 28

-- The format of the GPU pool's textures.
unfoldable pub gpu_sw_fmt : ℕ → AvPixelFormat
gpu_sw_fmt sender_dxgi_format = if sender_dxgi_format == rgba_dxgi_format then av_rgba else av_bgra

unfoldable pub codec_options : EncoderConfig → Bool → List (String × String)
codec_options config hw =
    (if str_eq config.preset "" then [] else (("preset", config.preset) ∷ []))
    ++ (if hw
        then (("rc", "cbr") ∷ ("delay", "0") ∷ [])
        else if str_eq config.tune ""
        then []
        else (("tune", config.tune) ∷ []))

unfoldable pub codec_context : CodecAnswers → EncoderConfig → ℕ → ℕ → Bool → Bool → CodecContext
unfolding ◌*ℤ◌ pick_pix_fmt codec_options to_int narrow
codec_context a config width height hw gpu =
    let bit_rate = config.bitrate_kbps *ℤ pos 1000 in
    record {
      codec_id = a.codec_id;
      bit_rate = bit_rate;
      rc_max_rate = bit_rate;
      rc_buffer_size = narrow bit_rate;
      width = to_int width;
      height = to_int height;
      time_base_num = pos 1;
      time_base_den = config.fps;
      gop_size = config.gop_size;
      max_b_frames = config.max_b_frames;
      pix_fmt = if gpu then d3d11 else pick_pix_fmt a.formats;
      thread_count = if ltb_ℤ (pos 0) config.threads then some config.threads else none;
      hw_frames = gpu;
      options = codec_options config hw;
      extradata = a.extradata;
    }

-- What one round of the loop over the codecs does: `continue`, or `return`.
pub data Attempt : Type 0 where
  next : String → Encoder → Attempt
  returned : Bool → String → Encoder → Attempt

unfoldable pub finish_gpu : CodecAnswers → String → GpuPath → AvPixelFormat → Encoder → Attempt
unfolding reset
finish_gpu a error path pool e =
    let e' : Encoder = record e {
      gpu_path = true;
      hw_device_ctx = path.hw_device_ctx;
      hw_frames_ctx = path.hw_frames_ctx;
      pool_format = pool;
      d3d_ctx = path.d3d_ctx;
      d3d_device = true;
    } in
    if not a.hw_frame_alloc
    then returned false "av_frame_alloc failed for last_hw_frame (GPU path)" (reset e')
    else if not a.packet_alloc
    then returned false "av_packet_alloc failed (GPU path)" (reset e')
    else returned true error (record e' { last_hw_frame = some false; pkt = true; frame_count = 0 })

unfoldable pub finish_cpu : CodecAnswers → String → Encoder → Attempt
finish_cpu a error e =
    let freed : Encoder = record e { codec_ctx = none } in
    if not a.sws_context
    then next "sws_getContext failed" freed
    else if not a.sws_colorspace
    then next "sws_setColorspaceDetails failed" freed
    else if not a.frame_alloc
    then returned false "av_frame_alloc failed" freed
    else if not a.frame_buffer
    then returned false "av_frame_get_buffer failed" freed
    else if not a.packet_alloc
    then returned false "av_packet_alloc failed" freed
    else returned true error
        (record e { sws_ctx = true; yuv_frame = true; pkt = true; frame_count = 0 })

-- With a codec that opened: the objects of the path that was established.
unfoldable pub with_codec :
    CodecAnswers
    → String
    → String
    → Option String
    → CodecContext
    → GpuPath
    → AvPixelFormat
    → Encoder
    → Attempt
unfolding finish_gpu finish_cpu
with_codec a name error (some what) ctx path pool e =
    next (append name (append ": avcodec_open2 failed: " what)) e
with_codec a name error none ctx path pool e =
    let opened : Encoder = record e { codec_ctx = some ctx; codec_name = name } in
    if path.ok then finish_gpu a error path pool opened else finish_cpu a error opened

unfoldable pub try_codec : CodecAnswers → String → String → ℕ → ℕ → Bool → ℕ → Encoder → Attempt
unfolding is_hw_codec gpu_sw_fmt try_init_gpu_path codec_context with_codec
try_codec a name error width height d3d_device sender_dxgi_format e =
    if not a.found
    then next error e
    else if not a.context_alloc
    then next error e
    else let hw = is_hw_codec name in
      let pool = gpu_sw_fmt sender_dxgi_format in
      let path = if hw && d3d_device then try_init_gpu_path a.gpu d3d_device else no_gpu_path in
      with_codec a name error a.open_error (codec_context a e.config width height hw path.ok) path
        pool e

-- `attempts` answers for each name of the list in turn.
unfoldable pub try_codecs :
    (ℕ → CodecAnswers)
    → ℕ
    → List String
    → String
    → ℕ
    → ℕ
    → Bool
    → ℕ
    → Encoder
    → Bool × String × Encoder
unfolding try_codec
try_codecs attempts i [] error width height d3d_device format e = (
  false,
  if str_eq error ""
      then append "No encoder found for '"
          (append e.config.codec (append "' or fallback '" (append e.config.fallback_codec "'")))
      else error,
  e,
)
try_codecs attempts i (name ∷ names) error width height d3d_device format e =
    elim (try_codec (attempts i) name error width height d3d_device format e) [
      | next error' e' ↦ try_codecs attempts (suc i) names error' width height d3d_device format e'
      | returned ok error' e' ↦ (ok, error', e')
    ]

unfoldable pub codecs_to_try : EncoderConfig → List String
codecs_to_try config =
    if str_eq config.fallback_codec ""
    then (config.codec ∷ [])
    else (config.codec ∷ config.fallback_codec ∷ [])

-- `error` comes in empty, as every caller passes it.
unfoldable pub init :
    (ℕ → CodecAnswers) → EncoderConfig → ℕ → ℕ → Bool → ℕ → Encoder → Bool × String × Encoder
unfolding reset codecs_to_try try_codecs
init attempts config width height d3d_device sender_dxgi_format e =
    try_codecs attempts 0 (codecs_to_try config) "" width height d3d_device sender_dxgi_format
      (record (reset e) { config = config; width = width; height = height })
