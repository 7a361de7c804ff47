-- ===== src/Placeholder/Renderer.antt =====
-- `render_placeholder_frame` of src/placeholder/placeholder_renderer.cpp. What GDI
-- draws is an argument.
pub mod Size
pub mod Clean
use spout_relay.Base.{
  ℕ, zero, suc, ◌*◌, ◌^◌, ◌/◌, ◌-◌, Bool, true, false, not, ◌&&◌, ◌||◌, ◌==◌, ltb, List, [], ◌∷◌,
  ◌++◌, none, String, codes, if◌then◌else◌,
}
use text.Mathlib.Text.{◌==◌ as str_eq}
use spout_relay.Config.Types.{PlaceholderSettings}
use spout_relay.Placeholder.Color.{parse_hex_color}
use spout_relay.Placeholder.Gdi.{
  Gdi, Rect, Call, create_brush, fill_rect, delete_brush, gdi_flush, read_bits, to_wide,
  open_canvas, valid, close_canvas, draw_centered_text,
}
use spout_relay.Common.Types.{FrameBuffer, rgba}

abbrev pub max_dim : ℕ
max_dim = 8192

-- L"Waiting for: "
abbrev pub waiting_for : List ℕ
waiting_for = codes "Waiting for: "

-- `out.data.assign(n, 0)`.
unfoldable pub zeros : ℕ → List ℕ
zeros zero = []
zeros (suc n) = 0 ∷ zeros n

-- BGRA bytes to RGBA bytes, opaque, for `n` pixels.
unfoldable pub to_rgba : ℕ → List ℕ → List ℕ
to_rgba zero bits = []
to_rgba (suc n) (b ∷ g ∷ r ∷ a ∷ rest) = r ∷ g ∷ b ∷ 255 ∷ to_rgba n rest
to_rgba (suc n) _ = []

-- `out.data` behind the drawing, given the canvas and what was drawn on it.
unfoldable pub pixels_of : Gdi → Bool → List Call → ℕ → ℕ → List ℕ
unfolding zeros to_rgba
pixels_of gdi drawn calls width height =
    if drawn then to_rgba (width * height) (gdi.paint calls) else zeros (width * height * 4)

unfoldable pub max_of : ℕ → ℕ → ℕ
max_of a b = if ltb a b then b else a

-- The texts: the message in the upper half and the name below it, or the message alone.
unfoldable pub two_texts : Gdi → Rect → List ℕ → List ℕ → ℕ → ℕ → ℕ → List Call
unfolding draw_centered_text
two_texts gdi full message sub fg message_font_height sub_font_height =
    let mid = full.bottom / 2 in
    draw_centered_text gdi 0 (record full { bottom = mid }) message fg message_font_height true
    ++ draw_centered_text gdi 1 (record full { top = mid }) sub fg sub_font_height false

unfoldable pub texts : Gdi → PlaceholderSettings → String → ℕ → ℕ → List Call
unfolding two_texts draw_centered_text to_wide parse_hex_color max_of
texts gdi cfg sender_name width height =
    let fg = parse_hex_color cfg.text_hex in
    let full : Rect = record { left = 0; top = 0; right = width; bottom = height } in
    let message_font_height = max_of 16 (height / 12) in
    let sub_font_height = max_of 12 (height / 24) in
    if cfg.show_sender_name && not (str_eq sender_name "")
    then two_texts gdi full (to_wide gdi cfg.message) (waiting_for ++ to_wide gdi sender_name) fg
        message_font_height sub_font_height
    else draw_centered_text gdi 0 full (to_wide gdi cfg.message) fg message_font_height true

unfoldable pub background : Gdi → ℕ → Rect → List Call
background gdi bg full =
    (if gdi.brush then create_brush bg ∷ [] else [])
    ++ (fill_rect gdi.brush full ∷ delete_brush gdi.brush ∷ [])

-- The background, the texts, and the end of the drawing.
unfoldable pub scene : Gdi → PlaceholderSettings → String → ℕ → ℕ → List Call
unfolding background texts parse_hex_color
scene gdi cfg sender_name width height =
    let full : Rect = record { left = 0; top = 0; right = width; bottom = height } in
    background gdi (parse_hex_color cfg.background_hex) full
    ++ texts gdi cfg sender_name width height
    ++ (gdi_flush ∷ [])

-- Everything that is drawn, from the constructor of the canvas to its destructor.
unfoldable pub drawing : Gdi → PlaceholderSettings → String → ℕ → ℕ → List Call
unfolding open_canvas valid close_canvas scene
drawing gdi cfg sender_name width height =
    let (canvas, opening) = open_canvas gdi width height in
    opening
    ++ (if valid canvas then scene gdi cfg sender_name width height ++ (read_bits ∷ []) else [])
    ++ close_canvas canvas

-- `size_t` has 64 bits. The calls of GDI are kept beside the frame.
unfoldable pub render : Gdi → PlaceholderSettings → String → ℕ → ℕ → FrameBuffer × List Call
unfolding pixels_of scene drawing open_canvas valid
render gdi cfg sender_name width height =
    let out : FrameBuffer = record {
      pixels = [];
      width = width;
      height = height;
      format = rgba;
      gpu_texture = none;
    } in
    if width == 0 || height == 0
    then (out, [])
    else if ltb max_dim width || (ltb max_dim height || ltb (max_dim * max_dim) (width * height))
    then (record out { width = 0; height = 0 }, [])
    else if ltb ((2 ^ 64 - 1) / 4) (width * height)
    then (record out { width = 0; height = 0 }, [])
    else (
      record out {
        pixels =
            pixels_of gdi (valid (open_canvas gdi width height).0)
              (scene gdi cfg sender_name width height) width height;
      },
      drawing gdi cfg sender_name width height,
    )

unfoldable pub render_placeholder_frame : Gdi → PlaceholderSettings → String → ℕ → ℕ → FrameBuffer
unfolding render
render_placeholder_frame gdi cfg sender_name width height =
    (render gdi cfg sender_name width height).0
