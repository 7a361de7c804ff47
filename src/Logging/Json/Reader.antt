-- ===== src/Logging/Json/Reader.antt =====
-- Reading a log line back: an object of strings as RFC 8259 describes it, the `\u` escapes left out, for
-- the text that `build_json` of src/logging/log_sink.cpp writes.
use spout_relay.Base.{
  ℕ, zero, suc, Bool, false, not, ◌&&◌, ◌||◌, List, [], ◌∷◌, Option, none, some, Codes, length, ltb,
  ◌==◌, if◌then◌else◌,
}

-- The character that a two-character escape stands for.
unfoldable pub unescape_char : ℕ → Option ℕ
unescape_char c =
    if c == b'"' || (c == b'\\' || c == b'/')
    then some c
    else if c == b'b'
    then some 8
    else if c == b'f'
    then some 12
    else if c == b'n'
    then some b'\n'
    else if c == b'r'
    then some b'\r'
    else if c == b't'
    then some b'\t'
    else none

unfoldable pub push : Option ℕ → Option (Codes × Codes) → Option (Codes × Codes)
push none r = none
push (some c) none = none
push (some c) (some (s, rest)) = some (c ∷ s, rest)

-- The text up to the closing quote, and what follows the quote. `escaped` says that a backslash was read
-- just before. A control character may not stand in a string.
unfoldable pub read_string : Bool → Codes → Option (Codes × Codes)
unfolding push unescape_char
read_string escaped [] = none
read_string escaped (c ∷ s) =
    let rest = read_string (not escaped && c == b'\\') s in
    if escaped
    then push (unescape_char c) rest
    else if c == b'"'
    then some ([], s)
    else if c == b'\\'
    then rest
    else if ltb c 32
    then none
    else push (some c) rest

unfoldable pub expect : ℕ → Codes → Option Codes
expect d [] = none
expect d (c ∷ s) = if c == d then some s else none

abbrev then_read {ℓ} : {A B : Type ℓ} → Option A → (A → Option B) → Option B
then_read none k = none
then_read (some a) k = k a

-- A quoted text.
unfoldable pub read_quoted : Codes → Option (Codes × Codes)
unfolding expect read_string
read_quoted s = then_read (expect b'"' s) (read_string false)

unfoldable pub read_member : Codes → Option ((Codes × Codes) × Codes)
unfolding read_quoted expect
read_member s = then_read (read_quoted s) (λ (k, s1).
    then_read (expect b':' s1) (λ s2. then_read (read_quoted s2) (λ (v, s3). some ((k, v), s3))))

-- The members that are left, and what follows the brace. The fuel is above their number.
unfoldable pub read_members : ℕ → Codes → Option (List (Codes × Codes) × Codes)
unfolding read_member
read_members zero s = none
read_members (suc n) [] = none
read_members (suc n) (c ∷ s) =
    if c == b'}'
    then some ([], s)
    else if c == b','
    then then_read (read_member s)
        (λ (m, s1). then_read (read_members n s1) (λ (ms, s2). some (m ∷ ms, s2)))
    else none

-- After the first member: the other ones and the brace, and nothing behind it.
unfoldable pub read_others : ℕ → Codes × Codes → Codes → Option (List (Codes × Codes))
unfolding read_members
read_others fuel m s =
    then_read (read_members fuel s) (λ (ms, rest). elim rest [ [] ↦ some (m ∷ ms) | _ ∷ _ ↦ none ])

-- A whole line: one object and nothing else.
unfoldable pub read_line : Codes → Option (List (Codes × Codes))
unfolding expect read_member read_others
read_line s =
    then_read (expect b'{' s)
      (λ s1. then_read (read_member s1) (λ (m, s2). read_others (length s) m s2))
