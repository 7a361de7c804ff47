-- ===== src/Examples/Settings.antt =====
-- A settings file, and the program that reads it.
use spout_relay.Base.{
  Bool, false, ◌||◌, [], ◌∷◌, none, some, String, ◌⊎◌, inl, inr, ◌≡◌, ◌↔◌, refl, if◌then◌else◌,
}
use text.Mathlib.Text.{◌==◌ as str_eq}
use spout_relay.Config.Loader.{Loaded}
use spout_relay.Config.Json.{well_formed, Json, in_turn, section, field}
use spout_relay.Config.Loader.{
  validate, load, read_sections, finish, app_steps, spout_steps, placeholder_steps, parse_encoder,
  parse_rtsp, runtime_steps, judged, is_valid_hex_color,
}
use spout_relay.Config.Valid.{IsValid, validate-IsValid, load-IsValid}
use spout_relay.App.Program.{World, default_settings}
use spout_relay.Examples.Inputs.{
  whole_floats, settings, good_start, round_inputs, encode_round_inputs,
}

-- { "spout": { "sender_name": "game" }, "rtsp": { "url": "rtsp://host/live" } }
data Doc : Type 0 where
  whole spout_part rtsp_part : Doc
  quoted : String → Doc

abbrev doc_contains : String → Doc → Bool
doc_contains key whole = str_eq key "spout" || str_eq key "rtsp"
doc_contains key spout_part = str_eq key "sender_name"
doc_contains key rtsp_part = str_eq key "url"
doc_contains key (quoted s) = false

abbrev doc_under : String → Doc → Doc
doc_under key whole = if str_eq key "spout" then spout_part else rtsp_part
doc_under key spout_part = quoted "game"
doc_under key rtsp_part = quoted "rtsp://host/live"
doc_under key (quoted s) = quoted s

abbrev doc_string : Doc → String ⊎ String
doc_string (quoted s) = inr s
doc_string _ = inl "type must be string"

abbrev json : Json
json = record {
  Value = Doc;
  contains = doc_contains;
  under = doc_under;
  get_string = doc_string;
  get_int = λ d. inl "type must be number";
  get_bool = λ d. inl "type must be boolean";
  get_float = λ d. inl "type must be number";
}

abbrev loaded : Loaded
loaded = finish whole_floats (read_sections json whole default_settings)

load-IsValid_example : IsValid whole_floats loaded.2
unfolding load finish read_sections in_turn section app_steps spout_steps placeholder_steps
    parse_encoder parse_rtsp runtime_steps field judged validate is_valid_hex_color default_settings
    if◌then◌else◌
load-IsValid_example =
    load-IsValid whole_floats json "config.json" (some (well_formed whole)) default_settings loaded
      refl refl

validate-IsValid_example : (validate whole_floats settings ≡ none) ↔ IsValid whole_floats settings
validate-IsValid_example = validate-IsValid whole_floats settings

abbrev world : World json
world = record {
  args = "--config" ∷ "config.json" ∷ [];
  file = λ path. some (well_formed whole);
  now = 0;
  start = good_start;
  rounds = round_inputs ∷ round_inputs ∷ round_inputs ∷ round_inputs ∷ [];
  last = some encode_round_inputs;
}
