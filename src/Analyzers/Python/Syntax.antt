-- ===== src/Analyzers/Python/Syntax.antt =====
-- src/quantumguard/analyzers/python.py: the expressions of a syntax tree, as far as the analyzer looks
-- into them, their qualified names, and the values of arguments.
use pqcensus.Base.{
  Bool, true, false, ◌||◌, Option, none, some, List, [], ◌∷◌, ◌++◌, Text, text, lower, upper, strip,
  starts_with, contains, join, any, non_empty, nat_eq, list_eq, ◌==◌, if◌then◌else◌,
}
use pqcensus.Base.Dict.{Dict, lookup, insert}

-- The value of an `ast.Constant`; of one that is neither a string nor a truth value, `bool(value)`.
pub data Constant : Type 0 where
  string : Text → Constant
  boolean : Bool → Constant
  other_constant : Bool → Constant

mutual
  pub data Expr : Type 0 where
    constant : Constant → Expr
    name : Text → Expr
    attribute : Expr → Text → Expr
    -- A list or a tuple.
    sequence : Exprs → Expr
    -- A dict, of which only the values matter here.
    dict : Exprs → Expr
    other : Expr

  pub data Exprs : Type 0 where
    no_exprs : Exprs
    expr : Expr → Exprs → Exprs

-- A keyword argument; the name is missing in `**kwargs`.
pub record Keyword : Type 0 where
  pub arg : Option Text
  pub value : Expr

-- `_Import`
pub record Import : Type 0 where
  pub module_name : Text
  pub imported : Option Text

-- The names along a chain of attributes, if the chain starts at a name.
unfoldable pub chain : Expr → Option (List Text)
chain (name id) = some (id ∷ [])
chain (attribute e attr) = elim (chain e) [ none ↦ none | some parts ↦ some (parts ++ (attr ∷ [])) ]
chain _ = none

-- The variable `prefix` of an import.
unfoldable pub import_prefix : Import → Text
import_prefix i = elim i.imported [
  | none ↦ i.module_name
  | some [] ↦ i.module_name
  | some (c ∷ n) ↦ if non_empty i.module_name then i.module_name ++ text "." ++ c ∷ n else c ∷ n
]

prefixed : Option Import → Text → List Text → Text
unfolding import_prefix join
prefixed none first rest = join (text ".") (first ∷ rest)
prefixed (some i) first rest =
    if non_empty (import_prefix i)
    then join (text ".") (import_prefix i ∷ rest)
    else join (text ".") (first ∷ rest)

-- `_qualified_name`, with the inferred types, which are empty where none are given.
unfoldable pub qualified_name : Dict Text Import → Dict Text Text → Expr → Text
unfolding chain prefixed lookup join
qualified_name aliases inferred e = elim (chain e) [
  | none ↦ []
  | some [] ↦ []
  | some (first ∷ rest) ↦ elim (lookup first inferred) [
    | some type_name ↦ join (text ".") (type_name ∷ rest)
    | none ↦ prefixed (lookup first aliases) first rest
  ]
]

-- `_shadowed_reference`
unfoldable pub shadowed_reference : List Text → Expr → Bool
unfolding contains
shadowed_reference shadowed (name id) = contains shadowed id
shadowed_reference shadowed (attribute e attr) = shadowed_reference shadowed e
shadowed_reference shadowed _ = false

-- `_constant_truth`
unfoldable pub constant_truth : Expr → Option Bool
constant_truth (constant (string t)) = some (non_empty t)
constant_truth (constant (boolean b)) = some b
constant_truth (constant (other_constant b)) = some b
constant_truth _ = none

-- `_string_literals`, of the positional arguments.
unfoldable pub string_literals : List Expr → List Text
string_literals [] = []
string_literals (constant (string t) ∷ es) = t ∷ string_literals es
string_literals (attribute e attr ∷ es) = attr ∷ string_literals es
string_literals (_ ∷ es) = string_literals es

-- `_keyword_values`
unfoldable mutual
  pub keyword_values : Expr → List Text
  keyword_values (constant (string t)) = t ∷ []
  keyword_values (constant (boolean true)) = text "True" ∷ []
  keyword_values (constant (boolean false)) = text "False" ∷ []
  keyword_values (constant (other_constant b)) = []
  keyword_values (attribute e attr) = attr ∷ []
  keyword_values (sequence es) = all_values es
  keyword_values (dict es) = all_values es
  keyword_values (name id) = []
  keyword_values other = []

  pub all_values : Exprs → List Text
  all_values no_exprs = []
  all_values (expr e es) = keyword_values e ++ all_values es

-- The dict `kwargs` of `_classify_call`, onto one that is there.
unfoldable pub kwargs_onto : Dict Text (List Text) → List Keyword → Dict Text (List Text)
unfolding keyword_values insert lower
kwargs_onto d [] = d
kwargs_onto d (k ∷ ks) = elim k.arg [
  | none ↦ kwargs_onto d ks
  | some [] ↦ kwargs_onto d ks
  | some (c ∷ t) ↦ kwargs_onto (insert (lower (c ∷ t)) (keyword_values k.value) d) ks
]

-- `_flatten` of lists of strings.
unfoldable pub concat : List (List Text) → List Text
concat [] = []
concat (ts ∷ tss) = ts ++ concat tss

-- `_jwt_algorithm`
unfoldable pub jwt_algorithm : List Text → Text
unfolding any starts_with upper strip
jwt_algorithm [] = []
jwt_algorithm (value ∷ values) =
    let candidate = upper (strip value) in
    if any (λ p. starts_with p candidate) (text "RS" ∷ text "PS" ∷ text "ES" ∷ text "HS" ∷ [])
      || (candidate == text "EDDSA")
    then candidate
    else jwt_algorithm values
