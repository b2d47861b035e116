-- ===== src/Suppressions/Configured.antt =====
-- What the entries of quantumguard.toml may say, as src/quantumguard/suppression.py reads them.
use pqcensus.Base.{true, ◌≡◌, Bool, Option, some, List, Text, text, non_empty}
use pqcensus.Base.Json.{Json, null, boolean, integer, float, moment, Fields, get_field}
use pqcensus.Model.{Suppression}
use pqcensus.Suppressions.{Outside, ConfigFile, ParserError, parsed}

-- A suppression with a rule and a reason, whose source is the file.
pub record IsReasoned (s : Suppression) : Type 0 where
  pub ruled : non_empty s.rule_id ≡ true
  pub reasoned : non_empty s.reason ≡ true
  pub sourced : s.source ≡ text "quantumguard.toml"

-- A value over which Python does not iterate: a number, a Boolean, a date, or none.
pub data IsScalar : Json → Type 0 where
  of_null : IsScalar null
  of_boolean : (b : Bool) → IsScalar (boolean b)
  of_integer : (b : Bool) (t : Text) → IsScalar (integer b t)
  of_float : (b : Bool) (t : Text) → IsScalar (float b t)
  of_moment : (t : Text) → IsScalar (moment t)

module _ (o : Outside) where
  abbrev Result : Type 0
  Result = List Suppression × List ParserError

  abbrev pub Refused : ConfigFile → Type 0
  Refused c =
      (payload : Fields) × (v : Json) × (c ≡ parsed payload)
      × (get_field (text "suppressions") payload ≡ some v)
      × IsScalar v
