-- ===== src/Cli/Explain.antt =====
-- `_explain` of src/quantumguard/cli.py: a rule, or a finding in the JSON of an audit.
use pqcensus.Base.{
  ◌≡◌, ◌∙◌, refl, Bool, true, false, Option, none, some, List, [], ◌∷◌, Text, text, map, first,
  nat_eq, list_eq, ◌==◌, list_beq, if◌then◌else◌,
}
use pqcensus.Base.Json.{
  Json, string, array, object, Items, no_items, item, no_fields, get_field, items_of, list_json,
}
use pqcensus.Model.{Finding}
use pqcensus.Policy.{Rule, explain_rule}
use pqcensus.Audit.Complete.{AuditResult}
use pqcensus.Serialized.{finding_dict}
use pqcensus.Serialized.Outcome.{result_dict}

-- What `_explain` returns or raises: the rule, the finding, the `ValueError` for an unknown identifier, or
-- an error of a document that has not the shape of an audit.
pub data Explained : Type 0 where
  rule : Rule → Explained
  finding : Json → Explained
  unknown_identifier : Explained
  malformed : Explained

-- `value == identifier`, of a string.
unfoldable pub equals_text : Text → Option Json → Bool
equals_text identifier (some (string t)) = t == identifier
equals_text identifier _ = false

-- The loop over the findings.
unfoldable pub find_finding : Text → Items → Explained
unfolding get_field equals_text
find_finding identifier no_items = unknown_identifier
find_finding identifier (item (object fields) items) =
    let rest = find_finding identifier items in
    if equals_text identifier (get_field (text "finding_id") fields)
    then finding (object fields)
    else rest
find_finding identifier (item _ items) = malformed

-- `payload.get("findings", [])`, iterated; a string and an object yield strings, which have no `get`.
unfoldable pub find_in : Text → Option Json → Explained
unfolding find_finding
find_in identifier none = unknown_identifier
find_in identifier (some (array items)) = find_finding identifier items
find_in identifier (some (string [])) = unknown_identifier
find_in identifier (some (object no_fields)) = unknown_identifier
find_in identifier (some _) = malformed

unfoldable pub explain_payload : Text → Json → Explained
unfolding find_in get_field
explain_payload identifier (object fields) = find_in identifier (get_field (text "findings") fields)
explain_payload identifier _ = malformed

-- `_explain`, of the rules, the identifier, and the document that is read if there is an input.
unfoldable pub explain : List Rule → Text → Option Json → Explained
unfolding explain_rule explain_payload
explain rules identifier input = elim (explain_rule rules identifier) [
  | some r ↦ rule r
  | none ↦ elim input [
    | none ↦ unknown_identifier
    | some payload ↦ explain_payload identifier payload
  ]
]

-- The finding that is explained, of a search in a list.
abbrev pub found_or_unknown : Option Finding → Explained
found_or_unknown none = unknown_identifier
found_or_unknown (some f) = finding (finding_dict f)

find_finding-map :
    (identifier : Text) (fs : List Finding)
    → find_finding identifier (items_of (map finding_dict fs))
      ≡ found_or_unknown (first (λ f. f.finding_id == identifier) fs)
unfolding find_finding items_of finding_dict first get_field equals_text list_beq
find_finding-map identifier [] = refl
find_finding-map identifier (f ∷ fs) =
    elim (list_beq f.finding_id identifier)
      as (λ b.
        (if b
          then finding (finding_dict f)
          else find_finding identifier (items_of (map finding_dict fs)))
        ≡ found_or_unknown (if b then some f else first (λ g. g.finding_id == identifier) fs)) [
          | true ↦ refl
          | false ↦ find_finding-map identifier fs
        ]

explain_payload-result :
    (identifier : Text) (r : AuditResult)
    → explain_payload identifier (result_dict r)
      ≡ find_finding identifier (items_of (map finding_dict r.findings))
unfolding explain_payload find_in result_dict get_field list_json list_beq
explain_payload-result identifier r = refl

-- The document of an audit, searched for an identifier that no rule has, yields the document of the
-- first of the audit's findings with that identifier; if there is none, the identifier is unknown.
pub explain_result :
    (rules : List Rule) (identifier : Text) (r : AuditResult)
    → explain_rule rules identifier ≡ none
    → explain rules identifier (some (result_dict r))
      ≡ found_or_unknown (first (λ f. f.finding_id == identifier) r.findings)
unfolding explain
explain_result rules identifier r h =
    rw (explain, h) (explain_payload-result identifier r ∙ find_finding-map identifier r.findings)
