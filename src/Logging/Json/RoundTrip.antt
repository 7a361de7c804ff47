-- ===== src/Logging/Json/RoundTrip.antt =====
-- What a reader of JSON sees in the line that `build_json` of src/logging/log_sink.cpp writes.
use spout_relay.Base.{
  ℕ, zero, suc, ◌+◌, ◌%◌, ◌≤◌, ◌<◌, Bool, true, false, ◌&&◌, ◌||◌, List, [], ◌∷◌, ◌++◌, none, some,
  String, Codes, codes, length, length-append, leb, ◌==◌, if◌then◌else◌, ◌≡◌, inl, inr, Bool-cases,
  refl, ap, ◌∙◌, arith,
}
use mathlib.Core.List.{append_assoc}
use spout_relay.Common.Time.{Tm, iso8601, two_digits}
use spout_relay.Logging.Sink.{Value, str, Fields}
use spout_relay.Logging.Json.{
  escape_char, json_escape, value_codes, in_key_order, member, members, build_json,
}
use spout_relay.Logging.Json.Reader.{
  push, read_string, expect, read_quoted, read_member, read_members, read_others, read_line,
}

-- Not a control character, or one that `json_escape` turns into an escape.
unfoldable pub is_writable : ℕ → Bool
is_writable c = leb 32 c || (c == b'\n' || (c == b'\r' || c == b'\t'))

unfoldable pub all_writable : Codes → Bool
unfolding is_writable
all_writable [] = true
all_writable (c ∷ s) = is_writable c && all_writable s

read_string-escape_char :
    (c : ℕ) (s : Codes)
    → read_string false (escape_char c ++ s)
      ≡ push (if is_writable c then some c else none) (read_string false s)
unfolding read_string escape_char is_writable push if◌then◌else◌
read_string-escape_char c s = ground arith

read_string-json_escape :
    (s rest : Codes)
    → read_string false (json_escape s ++ b'"' ∷ rest)
      ≡ (if all_writable s then some (s, rest) else none)
unfolding json_escape all_writable if◌then◌else◌
read_string-json_escape [] rest = unfold read_string in refl
read_string-json_escape (c ∷ s) rest =
    rw (append_assoc, read_string-escape_char, read_string-json_escape s rest)
      (unfold push in ground arith)

read_quoted-json_escape :
    (s rest : Codes)
    → read_quoted (b'"' ∷ json_escape s ++ b'"' ∷ rest)
      ≡ (if all_writable s then some (s, rest) else none)
unfolding read_quoted if◌then◌else◌
read_quoted-json_escape s rest = read_string-json_escape s rest

-- `member` without its comma.
read_member-json_escape :
    (k v rest : Codes)
    → read_member (b'"' ∷ (json_escape k ++ b'"' ∷ b':' ∷ b'"' ∷ (json_escape v ++ b'"' ∷ rest)))
      ≡ (if all_writable k && all_writable v then some ((k, v), rest) else none)
unfolding read_member if◌then◌else◌
read_member-json_escape k v rest =
    rw (read_quoted-json_escape k (b':' ∷ b'"' ∷ (json_escape v ++ b'"' ∷ rest)))
      (elim (Bool-cases (all_writable k)) [
        | inl h ↦ rw h (unfold expect in rw (read_quoted-json_escape v rest) (ground arith))
        | inr h ↦ rw h refl
      ])

member-append :
    (k v rest : Codes)
    → member k v ++ rest
      ≡ b',' ∷ b'"' ∷ (json_escape k ++ b'"' ∷ b':' ∷ b'"' ∷ (json_escape v ++ b'"' ∷ rest))
unfolding member
member-append k v rest =
    ap (λ s. b',' ∷ b'"' ∷ s)
      (append_assoc (json_escape k ++ b'"' ∷ b':' ∷ b'"' ∷ json_escape v) (b'"' ∷ []) rest
        ∙ append_assoc (json_escape k) (b'"' ∷ b':' ∷ b'"' ∷ json_escape v) (b'"' ∷ rest))

members-append :
    (k : String) (v : Value) (fields : Fields) (s : Codes)
    → members ((k, v) ∷ fields) ++ s
      ≡ b','
        ∷ b'"'
        ∷ (json_escape (codes k)
            ++ b'"' ∷ b':' ∷ b'"' ∷ (json_escape (value_codes v) ++ b'"' ∷ (members fields ++ s)))
unfolding members
members-append k v fields s =
    append_assoc (member (codes k) (value_codes v)) (members fields) s
    ∙ member-append (codes k) (value_codes v) (members fields ++ s)

-- The members that a reader is to find.
unfoldable pub entries : Fields → List (Codes × Codes)
entries [] = []
entries ((k, v) ∷ fields) = (codes k, value_codes v) ∷ entries fields

unfoldable pub fields_writable : Fields → Bool
fields_writable [] = true
fields_writable ((k, v) ∷ fields) =
    (all_writable (codes k) && all_writable (value_codes v)) && fields_writable fields

read_members-members :
    (n : ℕ) (fields : Fields) (rest : Codes)
    → length fields < n
    → read_members n (members fields ++ b'}' ∷ rest)
      ≡ (if fields_writable fields then some (entries fields, rest) else none)
unfolding read_members members entries fields_writable if◌then◌else◌
read_members-members zero fields rest h = absurd (omega arith)
read_members-members (suc n) [] rest h = refl
read_members-members (suc n) ((k, v) ∷ fields) rest h =
    let later = members fields ++ b'}' ∷ rest in
    ap (read_members (suc n)) (members-append k v fields (b'}' ∷ rest))
    ∙ rw (read_member-json_escape (codes k) (value_codes v) later)
        (elim (Bool-cases (all_writable (codes k) && all_writable (value_codes v))) [
          | inl w ↦ rw (w, read_members-members n fields rest (omega arith)) (ground arith)
          | inr w ↦ rw w refl
        ])

length-members : (fields : Fields) → length fields ≤ length (members fields)
unfolding members member
length-members [] = omega arith
length-members ((k, v) ∷ fields) = rw length-append (omega (arith, length-members fields))

-- A character from '-' to 'Z' stands for itself in a string.
is_plain : ℕ → Bool
is_plain c = leb b'-' c && leb c b'Z'

all_plain : Codes → Bool
unfolding is_plain
all_plain [] = true
all_plain (c ∷ s) = is_plain c && all_plain s

is_plain_digit : (n : ℕ) → is_plain (b'0' + n % 10) ≡ true
unfolding is_plain
is_plain_digit n = ground arith

all_plain-iso8601 : (now : Tm) (ms : ℕ) → all_plain (iso8601 now ms) ≡ true
unfolding all_plain iso8601 two_digits
all_plain-iso8601 now ms = simp is_plain_digit

escape_char_plain : (c : ℕ) → is_plain c ≡ true → escape_char c ≡ c ∷ []
unfolding is_plain escape_char if◌then◌else◌
escape_char_plain c h = ground arith

json_escape_plain : (s : Codes) → all_plain s ≡ true → json_escape s ≡ s
unfolding all_plain json_escape
json_escape_plain [] h = refl
json_escape_plain (c ∷ s) h = ground (arith, escape_char_plain c, json_escape_plain s)

all_writable_plain : (s : Codes) → all_plain s ≡ true → all_writable s ≡ true
unfolding all_plain is_plain all_writable is_writable
all_writable_plain [] h = refl
all_writable_plain (c ∷ s) h = ground (arith, all_writable_plain s)

abbrev pub all_fields : String → Fields → Fields
all_fields event fields = ("event", str event) ∷ in_key_order fields

build_json-members :
    (now : Tm) (ms : ℕ) (event : String) (fields : Fields)
    → build_json now ms event fields
      ≡ b'{'
        ∷ b'"'
        ∷ (json_escape (codes "ts")
            ++ b'"'
              ∷ b':'
              ∷ b'"'
              ∷ (json_escape (iso8601 now ms)
                  ++ b'"' ∷ (members (all_fields event fields) ++ b'}' ∷ [])))
unfolding build_json members member value_codes
build_json-members now ms event fields =
    rw (json_escape_plain (iso8601 now ms) (all_plain-iso8601 now ms))
      (unfold json_escape escape_char if◌then◌else◌ iso8601 two_digits in simp append_assoc)

first_member : Codes → Codes → Codes → Codes
first_member k v rest =
    b'"' ∷ (json_escape k ++ b'"' ∷ b':' ∷ b'"' ∷ (json_escape v ++ b'"' ∷ rest))

length-first_member : (k v rest : Codes) → length rest < length (first_member k v rest)
unfolding first_member
length-first_member k v rest =
    rw length-append (omega (arith, length-append (json_escape v) (b'"' ∷ rest)))

read_others-members :
    (n : ℕ) (m : Codes × Codes) (fields : Fields)
    → length fields < n
    → read_others n m (members fields ++ b'}' ∷ [])
      ≡ (if fields_writable fields then some (m ∷ entries fields) else none)
unfolding read_others if◌then◌else◌
read_others-members n m fields h =
    rw (read_members-members n fields [] h)
      (elim (Bool-cases (fields_writable fields)) [ inl w ↦ rw w refl | inr w ↦ rw w refl ])

read_line-members :
    (k v : Codes) (fields : Fields)
    → all_writable k ≡ true
    → all_writable v ≡ true
    → read_line (b'{' ∷ first_member k v (members fields ++ b'}' ∷ []))
      ≡ (if fields_writable fields then some ((k, v) ∷ entries fields) else none)
unfolding first_member if◌then◌else◌
read_line-members k v fields hk hv =
    let later = members fields ++ b'}' ∷ [] in
    let bound : length fields < length (first_member k v later) = omega (
      arith,
      length-first_member k v later,
      length-members fields,
      length-append (members fields) (b'}' ∷ []),
    ) in
    unfold read_line in
    rw (read_member-json_escape k v later, hk, hv)
      (read_others-members (suc (length (first_member k v later))) (k, v) fields
        (omega (arith, bound)))

-- A reader of JSON gets from the line of any event at any time exactly the time stamp, the event and the
-- fields in the order of their keys, if no text among them holds a control character other than a line
-- feed, a carriage return or a tab; if one does, the reader refuses the line.
pub read_line-build_json :
    (now : Tm) (ms : ℕ) (event : String) (fields : Fields)
    → read_line (build_json now ms event fields) ≡ (
        if fields_writable (all_fields event fields)
        then some ((codes "ts", iso8601 now ms) ∷ entries (all_fields event fields))
        else none)
unfolding if◌then◌else◌ all_writable is_writable first_member
read_line-build_json now ms event fields =
    ap read_line (build_json-members now ms event fields)
    ∙ read_line-members (codes "ts") (iso8601 now ms) (all_fields event fields) refl
        (all_writable_plain (iso8601 now ms) (all_plain-iso8601 now ms))
