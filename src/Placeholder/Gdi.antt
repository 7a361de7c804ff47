-- ===== src/Placeholder/Gdi.antt =====
-- The drawing of src/placeholder/placeholder_renderer.cpp as the calls of GDI, in their order. A creation
-- and a selection stand for those that succeed; what succeeds, and what is seen then, is an argument.
pub mod Ledger
use spout_relay.Base.{
  ℕ, zero, Bool, true, false, not, ◌&&◌, List, [], ◌∷◌, ◌++◌, String, is_empty, if◌then◌else◌,
}
use text.Mathlib.Text.{◌==◌ as str_eq}

pub record Rect : Type 0 where
  pub left : ℕ
  pub top : ℕ
  pub right : ℕ
  pub bottom : ℕ

-- `fill_rect` and `delete_brush` say whether the brush that they are given is not null. A text is in UTF-16.
pub data Call : Type 0 where
  create_dc : Call
  create_dib : ℕ → ℕ → Call
  select_dib restore_dib delete_dib delete_dc : Call
  create_brush : ℕ → Call
  fill_rect : Bool → Rect → Call
  delete_brush : Bool → Call
  create_font : ℕ → Bool → Call
  select_font restore_font delete_font : Call
  set_text_color : ℕ → Call
  set_bk_mode : Call
  draw_text : Rect → List ℕ → Call
  gdi_flush read_bits : Call

-- `font` and `select_font` say it for each text; `paint` is what the DIB holds after some calls; `utf16`
-- is MultiByteToWideChar with the terminating zero, empty where it fails.
pub record Gdi : Type 0 where
  pub dc : Bool
  pub dib : Bool
  pub bits : Bool
  pub dib_selected : Bool
  pub brush : Bool
  pub font : ℕ → Bool
  pub font_selected : ℕ → Bool
  pub paint : List Call → List ℕ
  pub utf16 : String → List ℕ

-- `pop_back` of a last zero.
unfoldable pub drop_nul : List ℕ → List ℕ
drop_nul [] = []
drop_nul (zero ∷ []) = []
drop_nul (c ∷ w) = c ∷ drop_nul w

unfoldable pub to_wide : Gdi → String → List ℕ
unfolding drop_nul
to_wide gdi s = if str_eq s "" then [] else drop_nul (gdi.utf16 s)

-- The fields of a `DibCanvas`: whether each is not null.
pub record DibCanvas : Type 0 where
  pub dc : Bool
  pub bitmap : Bool
  pub old_bitmap : Bool
  pub bits : Bool

-- The constructor.
unfoldable pub open_canvas : Gdi → ℕ → ℕ → DibCanvas × List Call
open_canvas gdi width height =
    let none : DibCanvas = record {
      dc = false;
      bitmap = false;
      old_bitmap = false;
      bits = false;
    } in
    if not gdi.dc
    then (none, [])
    else if not gdi.dib
    then (record none { dc = true; bits = false }, create_dc ∷ [])
    else if gdi.dib_selected
    then (
      record { dc = true; bitmap = true; old_bitmap = true; bits = gdi.bits },
      create_dc ∷ create_dib width height ∷ select_dib ∷ [],
    )
    else (record none { dc = true }, create_dc ∷ create_dib width height ∷ delete_dib ∷ [])

unfoldable pub valid : DibCanvas → Bool
valid c = c.dc && c.bitmap && c.bits

-- The destructor.
unfoldable pub close_canvas : DibCanvas → List Call
close_canvas c =
    (if c.dc && c.old_bitmap then restore_dib ∷ [] else [])
    ++ (if c.bitmap then delete_dib ∷ [] else [])
    ++ (if c.dc then delete_dc ∷ [] else [])

-- With the text of number `i`. The font is deleted when the function returns.
unfoldable pub draw_centered_text : Gdi → ℕ → Rect → List ℕ → ℕ → ℕ → Bool → List Call
draw_centered_text gdi i rect text color font_height bold =
    let draw = set_text_color color ∷ set_bk_mode ∷ draw_text rect text ∷ [] in
    if is_empty text
    then []
    else if gdi.font i
    then create_font font_height bold
      ∷ (if gdi.font_selected i
          then select_font ∷ draw ++ (restore_font ∷ delete_font ∷ [])
          else draw ++ (delete_font ∷ []))
    else draw
