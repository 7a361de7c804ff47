-- ===== src/Placeholder/Renderer/Clean.antt =====
-- `render_placeholder_frame` of src/placeholder/placeholder_renderer.cpp leaves nothing of GDI behind.
use spout_relay.Base.{
  ℕ, ◌/◌, Bool, true, false, not, ◌||◌, ◌==◌, List, [], ◌∷◌, ◌++◌, some, String, if◌then◌else◌, ◌≡◌,
  refl, ◌∙◌, choose,
}
use spout_relay.Common.Types.{FrameBuffer}
use spout_relay.Config.Types.{PlaceholderSettings}
use spout_relay.Placeholder.Color.{parse_hex_color}
use spout_relay.Placeholder.Gdi.{
  Gdi, Call, Rect, DibCanvas, gdi_flush, read_bits, open_canvas, valid, close_canvas, to_wide,
  create_brush, fill_rect, delete_brush, create_dc, create_dib, select_dib, restore_dib, delete_dib,
  delete_dc,
}
use spout_relay.Placeholder.Gdi.Ledger.{
  clean, ready, enter_all, enter_all-append, enter_all-draw_centered_text,
}
use spout_relay.Placeholder.Renderer.{
  max_of, waiting_for, two_texts, background, texts, scene, drawing, render,
}

-- Drawing on the canvas changes nothing but the picture.
abbrev IsNeutral : List Call → Type 0
IsNeutral calls = enter_all calls ready ≡ some ready

IsNeutral-append : (xs ys : List Call) → IsNeutral xs → IsNeutral ys → IsNeutral (xs ++ ys)
IsNeutral-append xs ys hx hy = enter_all-append xs ys ready ready hx ∙ hy

IsNeutral-two_texts :
    (gdi : Gdi) (full : Rect) (message sub : List ℕ) (fg message_font_height sub_font_height : ℕ)
    → IsNeutral (two_texts gdi full message sub fg message_font_height sub_font_height)
unfolding two_texts
IsNeutral-two_texts gdi full message sub fg message_font_height sub_font_height =
    IsNeutral-append _ _
      (enter_all-draw_centered_text gdi 0 (record full { bottom = full.bottom / 2 }) message fg
        message_font_height true)
      (enter_all-draw_centered_text gdi 1 (record full { top = full.bottom / 2 }) sub fg
        sub_font_height false)

IsNeutral-texts :
    (gdi : Gdi) (cfg : PlaceholderSettings) (sender_name : String) (width height : ℕ)
    → IsNeutral (texts gdi cfg sender_name width height)
unfolding texts
IsNeutral-texts gdi cfg sender_name width height =
    choose IsNeutral _
      (λ _.
        IsNeutral-two_texts gdi _ (to_wide gdi cfg.message) (waiting_for ++ to_wide gdi sender_name)
          (parse_hex_color cfg.text_hex) (max_of 16 (height / 12)) (max_of 12 (height / 24)))
      (λ _. enter_all-draw_centered_text gdi 0 _ _ _ _ true)

IsNeutral-background : (gdi : Gdi) (bg : ℕ) (full : Rect) → IsNeutral (background gdi bg full)
unfolding background enter_all if◌then◌else◌
IsNeutral-background gdi bg full = filled gdi.brush
  where
    filled :
        (b : Bool)
        → IsNeutral
            ((if b then create_brush bg ∷ [] else []) ++ (fill_rect b full ∷ delete_brush b ∷ []))
    filled true = refl
    filled false = refl

IsNeutral-scene :
    (gdi : Gdi) (cfg : PlaceholderSettings) (sender_name : String) (width height : ℕ)
    → IsNeutral (scene gdi cfg sender_name width height)
unfolding scene
IsNeutral-scene gdi cfg sender_name width height =
    IsNeutral-append _ (gdi_flush ∷ [])
      (IsNeutral-append _ (texts gdi cfg sender_name width height) (IsNeutral-background gdi _ _)
        (IsNeutral-texts gdi cfg sender_name width height))
      (unfold enter_all in refl)

-- The canvas around some drawing.
around : List Call → DibCanvas × List Call → List Call
around body (canvas, opening) =
    opening ++ (if valid canvas then body else []) ++ close_canvas canvas

abbrev pub IsClean : List Call → Type 0
IsClean calls = enter_all calls clean ≡ some clean

closing-IsClean :
    (bits : Bool) (body : List Call)
    → IsNeutral body
    → enter_all ((if bits then body else []) ++ (restore_dib ∷ delete_dib ∷ delete_dc ∷ [])) ready
      ≡ some clean
unfolding if◌then◌else◌
closing-IsClean true body neutral =
    enter_all-append body _ ready ready neutral ∙ (unfold enter_all in refl)
closing-IsClean false body neutral = unfold enter_all in refl

module _ (body : List Call) (neutral : IsNeutral body) (width height : ℕ) where
  untouched :
      IsClean
        (around body (record { dc = false; bitmap = false; old_bitmap = false; bits = false }, []))
  unfolding around valid close_canvas enter_all if◌then◌else◌
  untouched = refl

  no_dib : IsClean (
      around body
        (record { dc = true; bitmap = false; old_bitmap = false; bits = false }, create_dc ∷ []))
  unfolding around valid close_canvas enter_all if◌then◌else◌
  no_dib = refl

  not_selected : IsClean (
      around body (
        record { dc = true; bitmap = false; old_bitmap = false; bits = false },
        create_dc ∷ create_dib width height ∷ delete_dib ∷ [],
      ))
  unfolding around valid close_canvas enter_all if◌then◌else◌
  not_selected = refl

  selected :
      (bits : Bool)
      → IsClean (
          around body (
            record { dc = true; bitmap = true; old_bitmap = true; bits = bits },
            create_dc ∷ create_dib width height ∷ select_dib ∷ [],
          ))
  unfolding around valid close_canvas enter_all if◌then◌else◌
  selected bits = closing-IsClean bits body neutral

around_open-IsClean :
    (gdi : Gdi) (width height : ℕ) (body : List Call)
    → IsNeutral body
    → IsClean (around body (open_canvas gdi width height))
unfolding open_canvas
around_open-IsClean gdi width height body neutral =
    choose (λ (r : DibCanvas × List Call). IsClean (around body r)) (not gdi.dc)
      (λ _. untouched body neutral width height)
      (λ _.
        choose (λ (r : DibCanvas × List Call). IsClean (around body r)) (not gdi.dib)
          (λ _. no_dib body neutral width height)
          (λ _.
            choose (λ (r : DibCanvas × List Call). IsClean (around body r)) gdi.dib_selected
              (λ _. selected body neutral width height gdi.bits)
              (λ _. not_selected body neutral width height)))

drawing-IsClean :
    (gdi : Gdi) (cfg : PlaceholderSettings) (sender_name : String) (width height : ℕ)
    → IsClean (drawing gdi cfg sender_name width height)
unfolding drawing around
drawing-IsClean gdi cfg sender_name width height =
    around_open-IsClean gdi width height
      (scene gdi cfg sender_name width height ++ (read_bits ∷ []))
      (IsNeutral-append _ (read_bits ∷ []) (IsNeutral-scene gdi cfg sender_name width height)
        (unfold enter_all if◌then◌else◌ in refl))

-- Whatever size is asked for, whatever the settings say and whatever GDI refuses, the calls that render a
-- placeholder frame use and delete each object only while it exists, delete none that is selected, draw
-- only on a canvas that is there, and leave no object behind.
pub render-IsClean :
    (gdi : Gdi) (cfg : PlaceholderSettings) (sender_name : String) (width height : ℕ)
    → IsClean (render gdi cfg sender_name width height).1
unfolding render
render-IsClean gdi cfg sender_name width height =
    choose (λ (r : FrameBuffer × List Call). IsClean r.1) (width == 0 || height == 0)
      (λ _. unfold enter_all in refl)
      (λ _.
        choose (λ (r : FrameBuffer × List Call). IsClean r.1) _ (λ _. unfold enter_all in refl)
          (λ _.
            choose (λ (r : FrameBuffer × List Call). IsClean r.1) _ (λ _. unfold enter_all in refl)
              (λ _. drawing-IsClean gdi cfg sender_name width height)))
