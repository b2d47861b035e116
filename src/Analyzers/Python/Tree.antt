-- ===== src/Analyzers/Python/Tree.antt =====
-- src/quantumguard/analyzers/python.py: the nodes that `ast.walk` yields, `_imports`, `_inferred_types`
-- and `_statically_unreachable`.
use pqcensus.Base.{
  ℕ, Bool, true, false, ◌&&◌, not, Option, none, some, List, [], ◌∷◌, ◌++◌, Text, text, any,
  contains, ends_with, before, given_text, nat_eq, list_eq, ◌==◌, if◌then◌else◌,
}
use pqcensus.Base.Dict.{Dict, lookup, insert}
use pqcensus.Model.{SourceSpan}
use pqcensus.Analyzers.Python.Syntax.{
  Expr, name, Keyword, Import, qualified_name, shadowed_reference, constant_truth,
}
use pqcensus.Analyzers.Python.Assignments.{last_part}

-- `ast.alias`
pub record Alias : Type 0 where
  pub name : Text
  pub asname : Option Text

-- The right side of an assignment: a call, of which the function matters here, or another expression.
pub data Assigned : Type 0 where
  called : Expr → Assigned
  plain : Expr → Assigned

-- What the analyzer tells apart of the nodes.
pub data Kind : Type 0 where
  call : Expr → List Expr → List Keyword → Kind
  assign : List Expr → Assigned → Kind
  -- The target, the annotation and the value.
  ann_assign : Expr → Expr → Option Assigned → Kind
  named_expr : Expr → Kind
  import_names : List Alias → Kind
  import_from : Option Text → List Alias → Kind
  -- A function or a class.
  definition : Text → Kind
  argument : Text → Option Expr → Kind
  other_node : Kind

-- Where a node stands in its parent: in the body or the alternative of an `if`, in the body of a
-- `while`, each with its test, or anywhere else.
pub data Place : Type 0 where
  if_body if_orelse while_body : Expr → Place
  elsewhere : Place

-- A step from a node to its parent: the place in it, and the parent's identity.
pub record Link : Type 0 where
  pub place : Place
  pub parent : ℕ

-- A node as the walk yields it: its identity, its position in the source, and its chain of parents,
-- which the source follows through the dict `parents`.
pub record Node : Type 0 where
  pub identity : ℕ
  pub kind : Kind
  pub span : SourceSpan
  pub links : List Link

-- Whether a step leaves a branch that is never taken.
unfoldable pub is_dead : Place → Bool
unfolding constant_truth
is_dead (if_body test) = elim (constant_truth test) [ none ↦ false | some truth ↦ not truth ]
is_dead (if_orelse test) = elim (constant_truth test) [ none ↦ false | some truth ↦ truth ]
is_dead (while_body test) = elim (constant_truth test) [ none ↦ false | some truth ↦ not truth ]
is_dead elsewhere = false

-- `_statically_unreachable`
unfoldable pub statically_unreachable : List Link → Bool
unfolding is_dead
statically_unreachable [] = false
statically_unreachable (l ∷ links) = if is_dead l.place then true else statically_unreachable links

-- The two results of `_imports`, as the loop builds them.
pub record Names : Type 0 where
  pub aliases : Dict Text Import
  pub shadowed : List Text

name_or : Text → Option Text → Text
name_or fallback none = fallback
name_or fallback (some n) = n

unfoldable pub import_aliases : List Alias → Dict Text Import → Dict Text Import
unfolding insert before given_text name_or
import_aliases [] aliases = aliases
import_aliases (a ∷ items) aliases = import_aliases items (
    insert (name_or (before (text ".") a.name) (given_text a.asname))
      (record { module_name = a.name; imported = none }) aliases)

unfoldable pub from_aliases : Text → List Alias → Dict Text Import → Dict Text Import
unfolding insert given_text name_or
from_aliases source [] aliases = aliases
from_aliases source (a ∷ items) aliases =
    let skipped = from_aliases source items aliases in
    let kept = from_aliases source items (
      insert (name_or a.name (given_text a.asname))
        (record { module_name = source; imported = some a.name }) aliases) in
    if a.name == text "*" then skipped else kept

is_alias : Dict Text Import → Text → Bool
unfolding lookup
is_alias aliases id = elim (lookup id aliases) [ none ↦ false | some i ↦ true ]

-- `shadowed.add(name)`, for an alias.
shadow : Dict Text Import → Text → List Text → List Text
unfolding is_alias contains
shadow aliases id shadowed =
    if is_alias aliases id && not (contains shadowed id) then id ∷ shadowed else shadowed

unfoldable pub shadow_targets : Dict Text Import → List Expr → List Text → List Text
unfolding shadow
shadow_targets aliases [] shadowed = shadowed
shadow_targets aliases (name id ∷ targets) shadowed =
    shadow_targets aliases targets (shadow aliases id shadowed)
shadow_targets aliases (_ ∷ targets) shadowed = shadow_targets aliases targets shadowed

text_or_empty : Option Text → Text
text_or_empty none = []
text_or_empty (some t) = t

-- The body of the loop of `_imports`.
unfoldable pub add_names : Kind → Names → Names
unfolding import_aliases from_aliases shadow_targets shadow text_or_empty
add_names (import_names items) n = record {
  aliases = import_aliases items n.aliases;
  shadowed = n.shadowed;
}
add_names (import_from source items) n = record {
  aliases = from_aliases (text_or_empty source) items n.aliases;
  shadowed = n.shadowed;
}
add_names (assign targets value) n = record {
  aliases = n.aliases;
  shadowed = shadow_targets n.aliases targets n.shadowed;
}
add_names (ann_assign target annotation value) n = record {
  aliases = n.aliases;
  shadowed = shadow_targets n.aliases (target ∷ []) n.shadowed;
}
add_names (named_expr target) n = record {
  aliases = n.aliases;
  shadowed = shadow_targets n.aliases (target ∷ []) n.shadowed;
}
add_names (definition id) n = record {
  aliases = n.aliases;
  shadowed = shadow n.aliases id n.shadowed;
}
add_names _ n = n

-- `_imports`, from what is known on.
unfoldable pub imports : Names → List Node → Names
unfolding add_names
imports n [] = n
imports n (node ∷ nodes) = imports (add_names node.kind n) nodes

-- `add` of `_inferred_types`: a set holds each value once.
unfoldable pub add_candidate : Text → Text → Dict Text (List Text) → Dict Text (List Text)
unfolding lookup insert contains
add_candidate id [] candidates = candidates
add_candidate id (c ∷ value) candidates = elim (lookup id candidates) [
  | none ↦ insert id ((c ∷ value) ∷ []) candidates
  | some present ↦
      if contains present (c ∷ value)
      then candidates
      else insert id (present ++ (c ∷ value) ∷ []) candidates
]

abbrev constructors : List Text
constructors = text ".from_private_bytes" ∷ text ".from_public_bytes" ∷ text ".generate" ∷ []

-- The variable `value_type`, of the qualified name of the function.
unfoldable pub value_type : Text → Text
unfolding any ends_with last_part
value_type qname = if any (λ s. ends_with s qname) constructors then (last_part qname).0 else qname

unfoldable pub add_targets : List Expr → Text → Dict Text (List Text) → Dict Text (List Text)
unfolding add_candidate
add_targets [] value candidates = candidates
add_targets (name id ∷ targets) value candidates =
    add_targets targets value (add_candidate id value candidates)
add_targets (_ ∷ targets) value candidates = add_targets targets value candidates

-- What an annotation of a name adds.
unfoldable pub add_annotated : Names → Text → Expr → Dict Text (List Text) → Dict Text (List Text)
unfolding shadowed_reference add_candidate qualified_name
add_annotated n id annotation candidates =
    if shadowed_reference n.shadowed annotation
    then candidates
    else add_candidate id (qualified_name n.aliases [] annotation) candidates

-- The body of the loop of `_inferred_types`.
unfoldable pub add_types : Names → Kind → Dict Text (List Text) → Dict Text (List Text)
unfolding add_annotated shadowed_reference add_targets value_type qualified_name
add_types n (argument id (some annotation)) candidates = add_annotated n id annotation candidates
add_types n (ann_assign (name id) annotation value) candidates =
    add_annotated n id annotation candidates
add_types n (assign targets (called func)) candidates =
    if shadowed_reference n.shadowed func
    then candidates
    else add_targets targets (value_type (qualified_name n.aliases [] func)) candidates
add_types n _ candidates = candidates

unfoldable pub candidate_types : Names → List Node → Dict Text (List Text) → Dict Text (List Text)
unfolding add_types
candidate_types n [] candidates = candidates
candidate_types n (node ∷ nodes) candidates =
    candidate_types n nodes (add_types n node.kind candidates)

-- The names with one candidate.
unfoldable pub single_types : Dict Text (List Text) → Dict Text Text
single_types [] = []
single_types ((id, value ∷ []) ∷ candidates) = (id, value) ∷ single_types candidates
single_types ((id, _) ∷ candidates) = single_types candidates

-- `_inferred_types`
unfoldable pub inferred_types : Names → List Node → Dict Text Text
unfolding candidate_types single_types
inferred_types n nodes = single_types (candidate_types n nodes [])
