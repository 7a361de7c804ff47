-- ===== src/Placeholder/Color/Valid.antt =====
-- `parse_hex_color` of src/placeholder/placeholder_renderer.cpp on the colours that the validation of the
-- settings lets through.
use spout_relay.Base.{
  ℕ, suc, ◌+◌, ◌*◌, ◌<◌, Bool, true, false, ◌||◌, ◌!=◌, Option, none, some, String, if◌then◌else◌,
  ◌≡◌, refl, arith, choose,
}
use Prim.Native.String.{len, char_at}
use Prim.Native.Char.{Char, code}
use spout_relay.Config.Loader.{is_valid_hex_color, all_xdigits, is_xdigit}
use spout_relay.Placeholder.Color.{
  rgb, hex_digit, stoul_byte, stoul_digits, parse_hex_color, channels,
}

-- The value of the digit at a position.
digit_or_zero : Option ℕ → ℕ
digit_or_zero none = 0
digit_or_zero (some n) = n

pub digit_at : String → ℕ → ℕ
digit_at hex i = digit_or_zero (hex_digit (code (char_at hex i)))

digit_or_zero-hex_digit_lt : (c : ℕ) → digit_or_zero (hex_digit c) < 16
unfolding digit_or_zero hex_digit if◌then◌else◌
digit_or_zero-hex_digit_lt c = ground arith

hex_digit-is_xdigit :
    (c : Char) → is_xdigit c ≡ true → hex_digit (code c) ≡ some (digit_or_zero (hex_digit (code c)))
unfolding digit_or_zero hex_digit if◌then◌else◌
hex_digit-is_xdigit c h = ground (arith, h)

stoul_byte-digits :
    (c d : ℕ) {m n : ℕ}
    → hex_digit c ≡ some m
    → hex_digit d ≡ some n
    → stoul_byte c d ≡ some (m * 16 + n)
unfolding stoul_byte
stoul_byte-digits c d hc hd = λ i. stoul_digits c (hc i) (hd i)

xdigit_at :
    (hex : String) (n i : ℕ)
    → all_xdigits i (suc n) hex ≡ true
    → (hex_digit (code (char_at hex i)) ≡ some (digit_at hex i))
      × (all_xdigits (suc i) n hex ≡ true)
unfolding all_xdigits digit_at
xdigit_at hex n i h = (hex_digit-is_xdigit (char_at hex i) (ground (arith, h)), ground (arith, h))

passed : (b c : Bool) → (if b then false else c) ≡ true → (b ≡ false) × (c ≡ true)
unfolding if◌then◌else◌
passed true c h = absurd (ground (arith, h))
passed false c h = (refl, h)

-- A colour that the validation of the settings lets through is read digit by digit: red, green and blue are
-- the values of the three pairs of its hexadecimal digits, each digit below 16, so no part of it is cut
-- off by the cast to a byte and the black of a malformed text is not used.
pub parse_hex_color-digits :
    (hex : String)
    → is_valid_hex_color hex ≡ true
    → (parse_hex_color hex
        ≡ rgb
            (digit_at hex 1 * 16 + digit_at hex 2)
            (digit_at hex 3 * 16 + digit_at hex 4)
            (digit_at hex 5 * 16 + digit_at hex 6))
      × ((i : ℕ) → digit_at hex i < 16)
unfolding is_valid_hex_color parse_hex_color
parse_hex_color-digits hex h =
    let (start, rest) =
      passed (len hex != 7 || code (char_at hex 0) != 35) (all_xdigits 1 6 hex) h in
    let (d1, r1) = xdigit_at hex 5 1 rest in
    let (d2, r2) = xdigit_at hex 4 2 r1 in
    let (d3, r3) = xdigit_at hex 3 3 r2 in
    let (d4, r4) = xdigit_at hex 2 4 r3 in
    let (d5, r5) = xdigit_at hex 1 5 r4 in
    let (d6, _) = xdigit_at hex 0 6 r5 in
    let read = λ (i : ℕ). code (char_at hex i) in
    (
      choose
          (λ c.
            c
            ≡ rgb (digit_at hex 1 * 16 + digit_at hex 2) (digit_at hex 3 * 16 + digit_at hex 4)
                (digit_at hex 5 * 16 + digit_at hex 6))
          (len hex != 7 || code (char_at hex 0) != 35) (λ bad. absurd (cc (bad, start)))
          (λ _ i.
            channels (stoul_byte-digits (read 1) (read 2) d1 d2 i)
              (stoul_byte-digits (read 3) (read 4) d3 d4 i)
              (stoul_byte-digits (read 5) (read 6) d5 d6 i)),
      λ i. unfold digit_at in digit_or_zero-hex_digit_lt (code (char_at hex i)),
    )
