-- ===== src/Logging/Json.antt =====
-- `json_escape` and `LogSink::build_json` of src/logging/log_sink.cpp: the text of one log line. A text
-- is the list of its characters' numbers; the characters that the code looks at are all ASCII.
pub mod Reader
pub mod RoundTrip
pub mod OneLine
use spout_relay.Base.{ℕ, List, [], ◌∷◌, ◌++◌, String, Codes, codes, to_string, ◌==◌, if◌then◌else◌}
use Prim.Native.String.{compare}
use Prim.Native.Nat.{Ordering}
use spout_relay.Common.Time.{Tm, iso8601}
use spout_relay.Logging.Sink.{Value, str, num, Fields, Line}

-- One turn of the loop's switch.
unfoldable pub escape_char : ℕ → Codes
escape_char c =
    if c == b'"'
    then b'\\' ∷ b'"' ∷ []
    else if c == b'\\'
    then b'\\' ∷ b'\\' ∷ []
    else if c == b'\n'
    then b'\\' ∷ b'n' ∷ []
    else if c == b'\r'
    then b'\\' ∷ b'r' ∷ []
    else if c == b'\t'
    then b'\\' ∷ b't' ∷ []
    else c ∷ []

unfoldable pub json_escape : Codes → Codes
unfolding escape_char
json_escape [] = []
json_escape (c ∷ s) = escape_char c ++ json_escape s

-- The text that a field holds by the time it is in the map.
unfoldable pub value_codes : Value → Codes
unfolding to_string
value_codes (str s) = codes s
value_codes (num n) = codes (to_string n)

-- A `std::map` is walked in the order of its keys: `insert_field` puts one key in its place.
unfoldable pub insert_field : String × Value → Fields → Fields
insert_field f [] = f ∷ []
insert_field f (g ∷ fields) = elim (compare f.0 g.0) [
  | Ordering.gt ↦ g ∷ insert_field f fields
  | _ ↦ f ∷ g ∷ fields
]

unfoldable pub in_key_order : Fields → Fields
unfolding insert_field
in_key_order [] = []
in_key_order (f ∷ fields) = insert_field f (in_key_order fields)

-- One turn of the loop over the fields.
unfoldable pub member : Codes → Codes → Codes
unfolding json_escape
member k v = b',' ∷ b'"' ∷ json_escape k ++ b'"' ∷ b':' ∷ b'"' ∷ json_escape v ++ b'"' ∷ []

unfoldable pub members : Fields → Codes
unfolding member value_codes
members [] = []
members ((k, v) ∷ fields) = member (codes k) (value_codes v) ++ members fields

-- `now` and `ms` are what the clock says.
unfoldable pub build_json : Tm → ℕ → String → Fields → Codes
unfolding iso8601 json_escape members in_key_order
build_json now ms event fields =
    codes "{\"ts\":\""
    ++ iso8601 now ms
    ++ codes "\""
    ++ codes ",\"event\":\""
    ++ json_escape (codes event)
    ++ codes "\""
    ++ members (in_key_order fields)
    ++ codes "}"

-- What the logger is handed for a line.
unfoldable pub line_text : Tm → ℕ → Line → Codes
unfolding build_json
line_text now ms line = build_json now ms line.event line.fields
