-- ===== src/Analyzers/Config/Pairs.antt =====
-- src/quantumguard/analyzers/config.py: `_flatten`, and the regular expression for a line of YAML.
use pqcensus.Base.{
  ℕ, Bool, true, false, ◌||◌, Option, none, some, List, [], ◌∷◌, ◌++◌, Text, text, non_empty,
  is_digit, nat_eq, list_eq, if◌then◌else◌, nat_beq, is_lower, is_upper, is_space, strip, lstrip,
  map,
}
use pqcensus.Base.Json.{
  Json, null, boolean, integer, float, string, moment, array, object, Items, no_items, item, Fields,
  no_fields, field,
}

-- `str(child)` where the child is a string, a truth value or a number.
unfoldable pub scalar_text : Json → Option Text
scalar_text (string t) = some t
scalar_text (boolean true) = some (text "True")
scalar_text (boolean false) = some (text "False")
scalar_text (integer zero? t) = some t
scalar_text (float zero? t) = some t
scalar_text _ = none

-- The strings of a list, if it holds nothing else.
unfoldable pub strings_of : Items → Option (List Text)
strings_of no_items = some []
strings_of (item (string t) rest) = elim (strings_of rest) [ none ↦ none | some ts ↦ some (t ∷ ts) ]
strings_of (item v rest) = none

-- What a table yields for a key: the child itself, the strings of a list of strings, or else the
-- pairs inside the child.
unfoldable pub child_pairs : Text → Json → List (Text × Text) → List (Text × Text)
unfolding scalar_text strings_of
child_pairs key (array items) inner = elim (strings_of items) [
  | some ts ↦ map (λ t. (key, t)) ts
  | none ↦ inner
]
child_pairs key child inner = elim (scalar_text child) [ some t ↦ (key, t) ∷ [] | none ↦ inner ]

-- `_flatten`
unfoldable mutual
  pub flatten : Json → List (Text × Text)
  flatten (object fs) = flatten_fields fs
  flatten (array items) = flatten_items items
  flatten null = []
  flatten (boolean b) = []
  flatten (integer z t) = []
  flatten (float z t) = []
  flatten (string t) = []
  flatten (moment t) = []

  pub flatten_items : Items → List (Text × Text)
  flatten_items no_items = []
  flatten_items (item v rest) = flatten v ++ flatten_items rest

  pub flatten_fields : Fields → List (Text × Text)
  flatten_fields no_fields = []
  flatten_fields (field key child rest) =
      child_pairs key child (flatten child) ++ flatten_fields rest

-- `['\"]`
is_quote : ℕ → Bool
is_quote c = nat_beq c 39 || nat_beq c 34

-- `[^#'\"]*`, the longest run.
value_run : Text → Text
unfolding is_quote
value_run [] = []
value_run (c ∷ t) = if nat_beq c b'#' || is_quote c then [] else c ∷ value_run t

-- `['\"]?`
skip_quote : Text → Text
unfolding is_quote
skip_quote [] = []
skip_quote (c ∷ t) = if is_quote c then t else c ∷ t

starts_blank : Text → Bool
starts_blank [] = false
starts_blank (c ∷ t) = is_space c

-- `\s*['\"]?([^#'\"]+)`, the group stripped. Where nothing follows the white space, the group takes
-- its last character.
unfoldable pub value_match : Text → Option Text
unfolding lstrip strip value_run skip_quote starts_blank is_space
value_match t = elim (value_run (skip_quote (lstrip t))) [
  | c ∷ run ↦ some (strip (c ∷ run))
  | [] ↦ if starts_blank t then some [] else none
]

-- `[A-Za-z0-9_.-]`
is_key_char : ℕ → Bool
is_key_char c =
    is_lower c || is_upper c || is_digit c || nat_beq c b'_' || nat_beq c b'.' || nat_beq c b'-'

-- The longest run of such characters, and what is left.
key_run : Text → Text × Text
unfolding is_key_char
key_run [] = ([], [])
key_run (c ∷ t) = let r = key_run t in if is_key_char c then (c ∷ r.0, r.1) else ([], c ∷ t)

-- `:\s*` and the value.
after_colon : Text → Option Text
unfolding value_match
after_colon [] = none
after_colon (c ∷ t) = if nat_beq c b':' then value_match t else none

-- The regular expression for a line of YAML. A key is not given back character by character, since
-- neither white space nor a colon is one of its characters.
unfoldable pub line_pair : Text → Option (Text × Text)
unfolding key_run after_colon lstrip is_space
line_pair line =
    let r = key_run (lstrip line) in
    if non_empty r.0
    then elim (after_colon (lstrip r.1)) [ none ↦ none | some value ↦ some (r.0, value) ]
    else none

unfoldable pub line_pairs : List Text → List (Text × Text)
unfolding line_pair
line_pairs [] = []
line_pairs (line ∷ lines) = elim (line_pair line) [
  | none ↦ line_pairs lines
  | some pair ↦ pair ∷ line_pairs lines
]

-- The pairs of a document, if it was decoded.
unfoldable pub flatten_option : Option Json → List (Text × Text)
unfolding flatten
flatten_option none = []
flatten_option (some v) = flatten v
