-- ===== src/Config/Json.antt =====
-- The reading of one section in src/config/config_loader.cpp. nlohmann/json is a parameter: whether a
-- value has a key, the value under it, and the typed reads, which give a value or throw.
use spout_relay.Base.{Bool, List, [], ◌∷◌, String, ℤ, ◌⊎◌, inl, inr, if◌then◌else◌}
use spout_relay.Common.Types.{Float}
use spout_relay.Config.Types.{AppConfig}

-- A typed read throws with a text (`inl`) or gives its value.
pub record Json : Type 1 where
  pub Value : Type 0
  pub contains : String → Value → Bool
  pub under : String → Value → Value
  pub get_string : Value → String ⊎ String
  pub get_int : Value → String ⊎ ℤ
  pub get_bool : Value → String ⊎ Bool
  pub get_float : Value → String ⊎ Float

-- What `file >> j` comes to: a parse error with its text, another exception of nlohmann/json, as
-- `out_of_range` for a number that no `double` holds, or a value.
pub data Contents (V : Type 0) : Type 0 where
  malformed : String → Contents V
  threw_other : Contents V
  well_formed : V → Contents V

-- Settings so far, or the text of what was thrown and the settings until then.
pub data Reading : Type 0 where
  threw : String → AppConfig → Reading
  reads : AppConfig → Reading

unfoldable pub in_turn : List (AppConfig → Reading) → AppConfig → Reading
in_turn [] c = reads c
in_turn (f ∷ fs) c = elim (f c) [ threw what c' ↦ threw what c' | reads c' ↦ in_turn fs c' ]

module _ (J : Json) where
  -- `if (j.contains(key)) setting = j[key].get<A>();`
  unfoldable pub field :
      {A : Type 0}
      → (J.Value → String ⊎ A)
      → String
      → (A → AppConfig → AppConfig)
      → J.Value
      → AppConfig
      → Reading
  field get key set j c =
      if J.contains key j
      then (elim (get (J.under key j)) [ inl what ↦ threw what c | inr x ↦ reads (set x c) ])
      else reads c

  -- `if (j.contains(key)) { ... }` around the reads of a section.
  unfoldable pub section :
      String → (J.Value → List (AppConfig → Reading)) → J.Value → AppConfig → Reading
  section key steps j c = if J.contains key j then in_turn (steps (J.under key j)) c else reads c
