-- ===== src/Base/Json.antt =====
-- The values that Python's `json.loads` and `tomllib.loads` return and `json.dumps` writes. The parsers
-- and the writer are not modelled.
use mathlib.Core.Bool.{Bool, true, false, not}
use mathlib.Core.Option.{Option, none, some}
use Prim.Native.Nat.{ℕ}
use mathlib.Core.List.{List, [], ◌∷◌, map}
use pqcensus.Base.Tests.{if◌then◌else◌, nat_beq}
use pqcensus.Base.Decimal.{decimal}
use pqcensus.Base.Equality.{◌==◌, list_eq, nat_eq}
use pqcensus.Base.Characters.{Text}
use pqcensus.Base.Strings.{non_empty}

mutual
  -- An integer carries whether it is zero and how `str` writes it, a float likewise. `moment` is a
  -- date or a time of TOML, with its text.
  pub data Json : Type 0 where
    null : Json
    boolean : Bool → Json
    integer : Bool → Text → Json
    float : Bool → Text → Json
    string : Text → Json
    moment : Text → Json
    array : Items → Json
    object : Fields → Json

  pub data Items : Type 0 where
    no_items : Items
    item : Json → Items → Items

  pub data Fields : Type 0 where
    no_fields : Fields
    field : Text → Json → Fields → Fields

-- `d.get(k)` on a table: no key stands twice in one.
unfoldable pub get_field : Text → Fields → Option Json
get_field k no_fields = none
get_field k (field j v fs) = if k == j then some v else get_field k fs

-- `bool(value)`
unfoldable pub truthy : Json → Bool
truthy null = false
truthy (boolean b) = b
truthy (integer is_zero t) = not is_zero
truthy (float is_zero t) = not is_zero
truthy (string t) = non_empty t
truthy (moment t) = true
truthy (array no_items) = false
truthy (array (item v vs)) = true
truthy (object no_fields) = false
truthy (object (field k v fs)) = true

-- A list of values.
unfoldable pub items_of : List Json → Items
items_of [] = no_items
items_of (v ∷ vs) = item v (items_of vs)

-- `list(values)`, back.
unfoldable pub values_of : Items → List Json
values_of no_items = []
values_of (item v vs) = v ∷ values_of vs

-- A dict that is written out.
unfoldable pub fields_of : List (Text × Json) → Fields
fields_of [] = no_fields
fields_of ((k, v) ∷ rest) = field k v (fields_of rest)

unfoldable pub document : List (Text × Json) → Json
unfolding fields_of
document entries = object (fields_of entries)

unfoldable pub list_json : List Json → Json
unfolding items_of
list_json vs = array (items_of vs)

unfoldable pub strings : List Text → Json
unfolding items_of
strings ts = array (items_of (map string ts))

unfoldable pub number : ℕ → Json
unfolding decimal
number n = integer (nat_beq n 0) (decimal n)

-- `None` or a string.
unfoldable pub text_or_null : Option Text → Json
text_or_null none = null
text_or_null (some t) = string t
