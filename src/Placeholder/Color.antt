-- ===== src/Placeholder/Color.antt =====
-- `parse_hex_color` of src/placeholder/placeholder_renderer.cpp. A colour is a COLORREF: 0x00bbggrr.
pub mod Valid
use spout_relay.Base.{
  ℕ, ◌+◌, ◌-◌, ◌*◌, ◌%◌, ◌^◌, Bool, ◌&&◌, ◌||◌, ◌==◌, ◌!=◌, leb, Option, none, some, String,
  if◌then◌else◌,
}
use Prim.Native.String.{len, char_at}
use Prim.Native.Char.{code}

-- `RGB`
abbrev pub rgb : ℕ → ℕ → ℕ → ℕ
rgb r g b = r + g * 2 ^ 8 + b * 2 ^ 16

-- The value of a hexadecimal digit.
unfoldable pub hex_digit : ℕ → Option ℕ
hex_digit c =
    if leb b'0' c && leb c b'9'
    then some (c - b'0')
    else if leb b'A' c && leb c b'F'
    then some (c - b'A' + 10)
    else if leb b'a' c && leb c b'f'
    then some (c - b'a' + 10)
    else none

-- `isspace` of the "C" locale.
unfoldable pub is_space : ℕ → Bool
is_space c = c == b' ' || leb 9 c && leb c 13

two_places : ℕ → Option ℕ → ℕ
two_places h none = h
two_places h (some l) = h * 16 + l

-- The number behind a sign or a space, or from a first digit on: `first` and `second` are what the two
-- characters are as digits, `c` is the first of them. `unsigned long` has 32 bits.
unfoldable pub stoul_digits : ℕ → Option ℕ → Option ℕ → Option ℕ
unfolding is_space two_places
stoul_digits c (some h) second = some (two_places h second)
stoul_digits c none second =
    if is_space c || c == b'+'
    then second
    else if c == b'-'
    then elim second [ none ↦ none | some l ↦ some ((2 ^ 32 - l) % 2 ^ 32 % 2 ^ 8) ]
    else none

-- `std::stoul(s, nullptr, 16)` of the two characters `c` and `d`, cast to BYTE; none where it throws. Behind
-- a space or a sign one digit is left; behind a digit anything but a digit ends the number.
unfoldable pub stoul_byte : ℕ → ℕ → Option ℕ
unfolding hex_digit stoul_digits
stoul_byte c d = stoul_digits c (hex_digit c) (hex_digit d)

-- The colour, or black if one of the numbers threw.
unfoldable pub channels : Option ℕ → Option ℕ → Option ℕ → ℕ
channels (some r) (some g) (some b) = rgb r g b
channels _ _ _ = rgb 0 0 0

unfoldable pub parse_hex_color : String → ℕ
unfolding stoul_byte channels
parse_hex_color hex =
    let at = λ (i : ℕ). code (char_at hex i) in
    if len hex != 7 || at 0 != b'#'
    then rgb 0 0 0
    else channels (stoul_byte (at 1) (at 2)) (stoul_byte (at 3) (at 4)) (stoul_byte (at 5) (at 6))
