-- ===== src/Logging/Json/OneLine.antt =====
-- A record of the log is one line: what `build_json` of src/logging/log_sink.cpp writes never ends a line.
use spout_relay.Base.{
  ℕ, ◌+◌, ◌%◌, Bool, true, not, ◌&&◌, ◌||◌, [], ◌∷◌, ◌++◌, String, Codes, codes, ◌==◌,
  if◌then◌else◌, ◌≡◌, refl, arith,
}
use spout_relay.Common.Time.{Tm, iso8601, two_digits}
use spout_relay.Logging.Sink.{Fields}
use spout_relay.Logging.Json.{
  escape_char, json_escape, value_codes, in_key_order, member, members, build_json,
}

-- Neither a line feed nor a carriage return.
unfoldable pub on_line : ℕ → Bool
on_line c = not (c == b'\n' || c == b'\r')

unfoldable pub is_one_line : Codes → Bool
unfolding on_line
is_one_line [] = true
is_one_line (c ∷ s) = on_line c && is_one_line s

is_one_line-append :
    (s t : Codes) → is_one_line s ≡ true → is_one_line t ≡ true → is_one_line (s ++ t) ≡ true
unfolding is_one_line
is_one_line-append [] t hs ht = ht
is_one_line-append (c ∷ s) t hs ht = ground (arith, is_one_line-append s t)

is_one_line-escape_char : (c : ℕ) → is_one_line (escape_char c) ≡ true
unfolding is_one_line escape_char if◌then◌else◌
is_one_line-escape_char c = ground arith

is_one_line-json_escape : (s : Codes) → is_one_line (json_escape s) ≡ true
unfolding json_escape
is_one_line-json_escape [] = unfold is_one_line in refl
is_one_line-json_escape (c ∷ s) =
    is_one_line-append (escape_char c) (json_escape s) (is_one_line-escape_char c)
      (is_one_line-json_escape s)

is_one_line-member : (k v : Codes) → is_one_line (member k v) ≡ true
unfolding member is_one_line
is_one_line-member k v = ground (
  arith,
  is_one_line-append (json_escape k ++ b'"' ∷ b':' ∷ b'"' ∷ json_escape v) (b'"' ∷ []),
  is_one_line-append (json_escape k) (b'"' ∷ b':' ∷ b'"' ∷ json_escape v),
  is_one_line-json_escape k,
  is_one_line-json_escape v,
)

is_one_line-members : (fields : Fields) → is_one_line (members fields) ≡ true
unfolding members
is_one_line-members [] = unfold is_one_line in refl
is_one_line-members ((k, v) ∷ fields) =
    is_one_line-append (member (codes k) (value_codes v)) (members fields)
      (is_one_line-member (codes k) (value_codes v)) (is_one_line-members fields)

on_line_digit : (n : ℕ) → on_line (b'0' + n % 10) ≡ true
unfolding on_line
on_line_digit n = ground arith

is_one_line-iso8601 : (now : Tm) (ms : ℕ) → is_one_line (iso8601 now ms) ≡ true
unfolding is_one_line iso8601 two_digits
is_one_line-iso8601 now ms = simp on_line_digit

-- The text of any event at any time holds neither a line feed nor a carriage return, whatever its fields
-- hold.
pub is_one_line-build_json :
    (now : Tm) (ms : ℕ) (event : String) (fields : Fields)
    → is_one_line (build_json now ms event fields) ≡ true
is_one_line-build_json now ms event fields =
    let close : is_one_line (codes "\"") ≡ true = unfold is_one_line in refl in
    let time =
      is_one_line-append (codes "{\"ts\":\"") (iso8601 now ms) (unfold is_one_line in refl)
        (is_one_line-iso8601 now ms) in
    let head =
      is_one_line-append _ (codes ",\"event\":\"") (is_one_line-append _ (codes "\"") time close)
        (unfold is_one_line in refl) in
    let named =
      is_one_line-append _ (codes "\"")
        (is_one_line-append _ (json_escape (codes event)) head
          (is_one_line-json_escape (codes event)))
        close in
    let all =
      is_one_line-append _ (members (in_key_order fields)) named
        (is_one_line-members (in_key_order fields)) in
    unfold build_json in is_one_line-append _ (codes "}") all (unfold is_one_line in refl)
