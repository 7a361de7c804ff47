-- ===== src/Examples/Log.antt =====
-- The theorems on the lines of the log at a concrete line.
use spout_relay.Base.{true, [], ◌∷◌, none, some, codes, ◌≡◌, refl, if◌then◌else◌}
use spout_relay.Common.Time.{Tm, iso8601}
use spout_relay.Logging.Sink.{Fields, str}
use spout_relay.Logging.Json.{build_json}
use spout_relay.Logging.Json.Reader.{read_line}
use spout_relay.Logging.Json.RoundTrip.{entries, fields_writable, all_fields, read_line-build_json}
use spout_relay.Logging.Json.OneLine.{is_one_line, is_one_line-build_json}

abbrev noon : Tm
noon = record { year = 2024; month = 5; day = 17; hour = 12; minute = 0; second = 9 }

abbrev fields : Fields
fields = ("url", str "rtsp://a/\"b\"\n") ∷ ("message", str "c:\\tmp") ∷ []

read_line-build_json_example : read_line (build_json noon 1007 "error" fields) ≡ (
    if fields_writable (all_fields "error" fields)
    then some ((codes "ts", iso8601 noon 1007) ∷ entries (all_fields "error" fields))
    else none)
read_line-build_json_example = read_line-build_json noon 1007 "error" fields

-- The text of that line.
line_of_fields :
    build_json noon 1007 "error" fields
    ≡ codes
        "{\"ts\":\"2024-05-17T12:00:09.007Z\",\"event\":\"error\",\"message\":\"c:\\\\tmp\",\"url\":\"rtsp://a/\\\"b\\\"\\n\"}"
unfolding build_json if◌then◌else◌
line_of_fields = refl

is_one_line-build_json_example : is_one_line (build_json noon 1007 "error" fields) ≡ true
is_one_line-build_json_example = is_one_line-build_json noon 1007 "error" fields
