-- ===== src/Placeholder/Gdi/Ledger.antt =====
-- What GDI expects of the calls in src/placeholder/placeholder_renderer.cpp: an object is used and deleted
-- only while it exists, none is deleted while it is selected, and drawing needs the DIB in its DC. A null
-- brush may be given only where none exists.
use spout_relay.Base.{
  ℕ, Bool, true, false, not, ◌&&◌, List, [], ◌∷◌, ◌++◌, Option, none, some, if◌then◌else◌, ◌≡◌,
  refl, choose,
}
use spout_relay.Placeholder.Gdi.{
  Call, create_dc, create_dib, select_dib, restore_dib, delete_dib, delete_dc, create_brush,
  fill_rect, delete_brush, create_font, select_font, restore_font, delete_font, set_text_color,
  set_bk_mode, draw_text, gdi_flush, read_bits, Gdi, Rect, draw_centered_text,
}

-- The objects that exist, and whether the DIB and the font are selected.
pub record Ledger : Type 0 where
  pub dc : Bool
  pub dib : Bool
  pub dib_selected : Bool
  pub brush : Bool
  pub font : Bool
  pub font_selected : Bool

-- Nothing is left.
abbrev pub clean : Ledger
clean = record {
  dc = false;
  dib = false;
  dib_selected = false;
  brush = false;
  font = false;
  font_selected = false;
}

-- A canvas to draw on.
abbrev pub ready : Ledger
ready = record clean { dc = true; dib = true; dib_selected = true }

-- A brush that is not null exists, and none is left undeleted where null is given.
abbrev agrees : Bool → Ledger → Bool
agrees true l = l.brush
agrees false l = not l.brush

unfoldable pub enter : Call → Ledger → Option Ledger
enter create_dc l = if l.dc then none else some (record l { dc = true })
enter (create_dib _ _) l = if l.dc && not l.dib then some (record l { dib = true }) else none
enter select_dib l =
    if l.dc && l.dib && not l.dib_selected then some (record l { dib_selected = true }) else none
enter restore_dib l = if l.dib_selected then some (record l { dib_selected = false }) else none
enter delete_dib l = if l.dib && not l.dib_selected then some (record l { dib = false }) else none
enter delete_dc l =
    if l.dc && not l.dib_selected && not l.font_selected
    then some (record l { dc = false })
    else none
enter (create_brush _) l = if l.brush then none else some (record l { brush = true })
enter (fill_rect brush _) l = if l.dib_selected && agrees brush l then some l else none
enter (delete_brush brush) l = if agrees brush l then some (record l { brush = false }) else none
enter (create_font _ _) l = if l.font then none else some (record l { font = true })
enter select_font l =
    if l.dc && l.font && not l.font_selected then some (record l { font_selected = true }) else none
enter restore_font l = if l.font_selected then some (record l { font_selected = false }) else none
enter delete_font l =
    if l.font && not l.font_selected then some (record l { font = false }) else none
enter (set_text_color _) l = if l.dc then some l else none
enter set_bk_mode l = if l.dc then some l else none
enter (draw_text _ _) l = if l.dib_selected then some l else none
enter gdi_flush l = some l
enter read_bits l = if l.dib then some l else none

unfoldable pub enter_all : List Call → Ledger → Option Ledger
unfolding enter
enter_all [] l = some l
enter_all (c ∷ calls) l = elim (enter c l) [ none ↦ none | some l' ↦ enter_all calls l' ]

pub enter_all-append :
    (xs ys : List Call) (l m : Ledger)
    → enter_all xs l ≡ some m
    → enter_all (xs ++ ys) l ≡ enter_all ys m
unfolding enter_all
enter_all-append [] ys l m e = cc e
enter_all-append (c ∷ xs) ys l m e = after (enter c l) (λ l'. enter_all-append xs ys l' m) e
  where
    after :
        (o : Option Ledger)
        → ((l' : Ledger) → enter_all xs l' ≡ some m → enter_all (xs ++ ys) l' ≡ enter_all ys m)
        → elim o as (λ x. Option Ledger) [ none ↦ none | some l' ↦ enter_all xs l' ] ≡ some m
        → elim o as (λ x. Option Ledger) [ none ↦ none | some l' ↦ enter_all (xs ++ ys) l' ]
          ≡ enter_all ys m
    after none next e = cc
    after (some l') next e = next l' e

-- A text leaves no font behind.
pub enter_all-draw_centered_text :
    (gdi : Gdi) (i : ℕ) (rect : Rect) (text : List ℕ) (color font_height : ℕ) (bold : Bool)
    → enter_all (draw_centered_text gdi i rect text color font_height bold) ready ≡ some ready
unfolding draw_centered_text
enter_all-draw_centered_text gdi i rect text color font_height bold =
    choose (λ calls. enter_all calls ready ≡ some ready) _ (λ _. unfold enter_all in refl)
      (λ _.
        choose (λ calls. enter_all calls ready ≡ some ready) _
          (λ _.
            choose (λ calls. enter_all (create_font font_height bold ∷ calls) ready ≡ some ready) _
              (λ _. unfold enter_all if◌then◌else◌ in refl)
              (λ _. unfold enter_all if◌then◌else◌ in refl))
          (λ _. unfold enter_all if◌then◌else◌ in refl))
