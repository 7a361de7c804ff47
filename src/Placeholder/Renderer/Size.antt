-- ===== src/Placeholder/Renderer/Size.antt =====
-- The size of the frames of src/placeholder/placeholder_renderer.cpp.
use spout_relay.Base.{
  ℕ, zero, suc, ◌*◌, ◌≤◌, true, ◌||◌, ◌==◌, List, [], ◌∷◌, String, Bool, none, ◌≡◌, refl, ap, arith,
  length, choose,
}
use spout_relay.Common.Types.{FrameBuffer}
use spout_relay.Config.Types.{PlaceholderSettings}
use spout_relay.Placeholder.Gdi.{Gdi, Call}
use spout_relay.Placeholder.Renderer.{zeros, to_rgba, pixels_of, render, render_placeholder_frame}

pub length-zeros : (n : ℕ) → length (zeros n) ≡ n
unfolding zeros
length-zeros zero = refl
length-zeros (suc n) = ap suc (length-zeros n)

pub length-to_rgba : (n : ℕ) (bits : List ℕ) → n * 4 ≤ length bits → length (to_rgba n bits) ≡ n * 4
unfolding to_rgba
length-to_rgba zero bits h = refl
length-to_rgba (suc n) [] h = absurd (omega arith)
length-to_rgba (suc n) (b ∷ []) h = absurd (omega arith)
length-to_rgba (suc n) (b ∷ g ∷ []) h = absurd (omega arith)
length-to_rgba (suc n) (b ∷ g ∷ r ∷ []) h = absurd (omega arith)
length-to_rgba (suc n) (b ∷ g ∷ r ∷ a ∷ rest) h = omega (arith, length-to_rgba n rest (omega arith))

-- The canvas has a byte for each channel of each pixel, whatever is drawn.
unfoldable pub Fits : ℕ → Gdi → Type 0
Fits size gdi = (calls : List Call) → size ≤ length (gdi.paint calls)

length-pixels_of :
    (gdi : Gdi) (drawn : Bool) (calls : List Call) (width height : ℕ)
    → Fits (width * height * 4) gdi
    → length (pixels_of gdi drawn calls width height) ≡ width * height * 4
unfolding pixels_of Fits
length-pixels_of gdi drawn calls width height h =
    choose (λ (p : List ℕ). length p ≡ width * height * 4) drawn
      (λ _. length-to_rgba (width * height) (gdi.paint calls) (h calls))
      (λ _. length-zeros (width * height * 4))

-- A frame whose bytes are those of its size, which is within the limits.
pub record IsFrame (f : FrameBuffer) : Type 0 where
  pub bytes : length f.pixels ≡ f.width * f.height * 4
  pub no_texture : f.gpu_texture ≡ none

no_area : (width height : ℕ) → (width == 0 || height == 0) ≡ true → 0 ≡ width * height * 4
no_area zero height e = omega arith
no_area (suc width) zero e = omega arith
no_area (suc width) (suc height) e = ground arith

-- Whatever size is asked for and whatever GDI refuses, the placeholder frame has exactly four bytes for
-- each pixel of the size that it reports, and no texture, given that the canvas has that many bytes.
pub render_placeholder_frame-IsFrame :
    (gdi : Gdi) (cfg : PlaceholderSettings) (sender_name : String) (width height : ℕ)
    → Fits (width * height * 4) gdi
    → IsFrame (render_placeholder_frame gdi cfg sender_name width height)
unfolding render_placeholder_frame render
render_placeholder_frame-IsFrame gdi cfg sender_name width height h =
    choose (λ (r : FrameBuffer × List Call). IsFrame r.0) (width == 0 || height == 0)
      (λ empty. record { bytes = no_area width height empty; no_texture = refl })
      (λ _.
        choose (λ (r : FrameBuffer × List Call). IsFrame r.0) _
          (λ _. record { bytes = refl; no_texture = refl })
          λ _.
            choose (λ (r : FrameBuffer × List Call). IsFrame r.0) _
              (λ _. record { bytes = refl; no_texture = refl })
              (λ _. record { bytes = length-pixels_of gdi _ _ width height h; no_texture = refl }))
