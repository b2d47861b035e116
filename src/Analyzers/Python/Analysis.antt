-- ===== src/Analyzers/Python/Analysis.antt =====
-- src/quantumguard/analyzers/python.py: `analyze`, from the nodes that `ast.walk` yields on.
use pqcensus.Base.{
  ℕ, zero, suc, Bool, true, false, Option, none, some, ◌>>=◌, List, [], ◌∷◌, ◌++◌, Text, text, map,
  strip, contains, not, any, get_elem?, nat_eq, list_eq, if◌then◌else◌,
}
use pqcensus.Base.Dict.{Dict}
use pqcensus.Model.{Finding, Purpose, Confidence, Status}
use pqcensus.Model.Values.{stable_id, stable_material, is_encodable}
use pqcensus.Policy.{Rule, algorithm_status, default_severity, references_for, targets_for}
use pqcensus.Util.Algorithms.{algorithm_display}
use pqcensus.Util.Paths.{test_only_path}
use pqcensus.Suppressions.{ParserError}
use pqcensus.Audit.{deduplicate}
use pqcensus.Analyzers.Common.{environment_of, rule_id_of, splitlines}
use pqcensus.Analyzers.Python.Syntax.{Expr, other, Keyword, qualified_name, shadowed_reference}
use pqcensus.Analyzers.Python.Calls.{Observation}
use pqcensus.Analyzers.Python.Protocols.{Outcome, index_error, silent, observed, classify_call}
use pqcensus.Analyzers.Python.Assignments.{classify_assignment, rationale}
use pqcensus.Analyzers.Python.Tree.{
  Node, Kind, Names, Assigned, called, plain, call, assign, ann_assign, definition,
  statically_unreachable, imports, inferred_types,
}

-- `evidence_type`
pub data EvidenceType : Type 0 where
  ast_call ast_assignment : EvidenceType

unfoldable pub evidence_value : EvidenceType → Text
evidence_value ast_call = text "ast_call"
evidence_value ast_assignment = text "ast_assignment"

-- `evidence_type.removeprefix("ast_")`
unfoldable pub evidence_name : EvidenceType → Text
evidence_name ast_call = text "call"
evidence_name ast_assignment = text "assignment"

-- An entry of `observations`.
pub record Seen : Type 0 where
  pub node : Node
  pub observation : Observation
  pub evidence_type : EvidenceType
  pub qname : Text

-- The values of the analysis that the loop over the nodes reads.
pub record Scope : Type 0 where
  pub names : Names
  pub inferred : Dict Text Text

-- A call as an expression is one that the analyzer does not look into.
unfoldable pub assigned_expr : Assigned → Expr
assigned_expr (called func) = other
assigned_expr (plain e) = e

unfoldable pub assigned_value : Option Assigned → Option Expr
unfolding assigned_expr
assigned_value none = none
assigned_value (some v) = some (assigned_expr v)

-- What a call adds; `none` is an `IndexError`.
unfoldable pub seen_of_outcome : Node → Text → Outcome → Option (List Seen)
seen_of_outcome node qname index_error = none
seen_of_outcome node qname silent = some []
seen_of_outcome node qname (observed o) =
    some (record { node = node; observation = o; evidence_type = ast_call; qname = qname } ∷ [])

unfoldable pub seen_call : Scope → Node → Expr → List Expr → List Keyword → Option (List Seen)
unfolding qualified_name shadowed_reference seen_of_outcome classify_call
seen_call s node func args keywords =
    let qname = qualified_name s.names.aliases s.inferred func in
    if shadowed_reference s.names.shadowed func
    then some []
    else seen_of_outcome node qname (classify_call qname args keywords)

-- The loop over the targets of an assignment.
unfoldable pub seen_targets : Scope → Node → List Expr → Option Expr → List Seen
unfolding qualified_name classify_assignment
seen_targets s node [] value = []
seen_targets s node (target ∷ targets) value =
    let rest = seen_targets s node targets value in
    let qname = qualified_name s.names.aliases s.inferred target in
    elim (classify_assignment s.names.aliases s.inferred target value qname) [
      | none ↦ rest
      | some o ↦
          record { node = node; observation = o; evidence_type = ast_assignment; qname = qname }
          ∷ rest
    ]

unfoldable pub seen_kind : Scope → Node → Kind → Option (List Seen)
unfolding seen_call seen_targets assigned_value
seen_kind s node (call func args keywords) = seen_call s node func args keywords
seen_kind s node (assign targets value) =
    some (seen_targets s node targets (assigned_value (some value)))
seen_kind s node (ann_assign target annotation value) =
    some (seen_targets s node (target ∷ []) (assigned_value value))
seen_kind s node _ = some []

-- The body of the loop over the nodes.
unfoldable pub seen_node : Scope → Node → Option (List Seen)
unfolding statically_unreachable seen_kind
seen_node s node = if statically_unreachable node.links then some [] else seen_kind s node node.kind

-- The loop over the nodes.
unfoldable pub observations : Scope → List Node → Option (List Seen)
unfolding seen_node
observations s [] = some []
observations s (node ∷ nodes) =
    seen_node s node >>= (λ seen. observations s nodes >>= (λ rest. some (seen ++ rest)))

-- The identities of a node and of its parents.
unfoldable pub chain_of : Node → List ℕ
chain_of node = node.identity ∷ map (λ l. l.parent) node.links

-- `_symbol_context`, from the name that is found so far on.
unfoldable pub symbol_from : Option Text → List ℕ → List Node → Option Text
unfolding contains
symbol_from best chain [] = best
symbol_from best chain (parent ∷ nodes) = elim parent.kind [
  | definition id ↦
      symbol_from (if contains chain parent.identity then some id else best) chain nodes
  | _ ↦ symbol_from best chain nodes
]

unfoldable pub symbol_context : Node → List Node → Option Text
unfolding symbol_from chain_of
symbol_context node nodes = symbol_from none (chain_of node) nodes

line_or_empty : Option Text → Text
line_or_empty none = []
line_or_empty (some line) = line

-- `lines[line - 1] if 0 < line <= len(lines) else ""`
unfoldable pub source_line : List Text → ℕ → Text
unfolding line_or_empty
source_line lines zero = []
source_line lines (suc n) = line_or_empty (get_elem? lines n)

is_unknown : Purpose → Bool
is_unknown Purpose.unknown = true
is_unknown _ = false

-- `Confidence.HIGH if targets and purpose != Purpose.UNKNOWN else Confidence.UNKNOWN`
unfoldable pub high_or_unknown : List Text → Purpose → Confidence
unfolding is_unknown
high_or_unknown [] purpose = Confidence.unknown
high_or_unknown (t ∷ ts) purpose =
    if is_unknown purpose then Confidence.unknown else Confidence.high

-- The scope of an analysis.
unfoldable pub scope_of : List Node → Scope
unfolding imports inferred_types
scope_of nodes =
    let names = imports (record { aliases = []; shadowed = [] }) nodes in
    record { names = names; inferred = inferred_types names nodes }

-- What `ast.parse` and `ast.walk` make of a source: the text of an error, or the nodes in order.
pub data Parsed : Type 0 where
  failed : Text → Parsed
  walked : List Node → Parsed

module _ (sha256 : Text → Text) (rules : List Rule) where
  -- The finding of an observation.
  unfoldable pub seen_finding : Text → List Text → List Node → Seen → Finding
  unfolding stable_id rule_id_of environment_of test_only_path references_for targets_for
      algorithm_display strip source_line symbol_context evidence_value evidence_name rationale
      high_or_unknown
  seen_finding rel lines nodes seen =
      let o = seen.observation in
      let display = algorithm_display o.algorithm in
      let span = seen.node.span in
      let rule = rule_id_of rules display o.purpose in
      let refs = references_for rules display o.purpose in
      let targets = targets_for rules display o.purpose in
      record {
        finding_id = stable_id sha256 rule rel span display o.purpose o.detail;
        rule_id = rule;
        category = text "cryptographic-use";
        algorithm = display;
        purpose = o.purpose;
        source_path = rel;
        span = span;
        symbol = symbol_context seen.node nodes;
        evidence =
            record {
              evidence_type = evidence_value seen.evidence_type;
              detail =
                  o.detail
                  ++ text "; "
                  ++ evidence_name seen.evidence_type
                  ++ text "="
                  ++ seen.qname;
              snippet_sha256 = some (sha256 (strip (source_line lines span.start_line)));
              references = refs;
            }
            ∷ [];
        confidence = o.confidence;
        quantum_risk = algorithm_status display;
        severity = default_severity display o.purpose (test_only_path rel);
        rationale = rationale display o.purpose o.confidence;
        migration_target = targets;
        migration_confidence = high_or_unknown targets o.purpose;
        references = refs;
        suppressible = true;
        analyzer = text "python-ast";
        environment = environment_of (test_only_path rel);
        status = Status.active;
        suppression = none;
      }

  -- Whether `stable_id` raises a `UnicodeEncodeError` for an observation.
  unfoldable pub seen_raises : Text → Seen → Bool
  unfolding stable_material is_encodable rule_id_of algorithm_display
  seen_raises rel seen =
      let o = seen.observation in
      let display = algorithm_display o.algorithm in
      not (
        is_encodable (
          stable_material (rule_id_of rules display o.purpose) rel seen.node.span display o.purpose
            o.detail))

  -- The findings of the observations; `none` if one has no identifier.
  unfoldable pub named_findings : Text → Text → List Node → List Seen → Option (List Finding)
  unfolding seen_finding seen_raises deduplicate splitlines any
  named_findings rel source nodes seen =
      if any (seen_raises rel) seen
      then none
      else some (deduplicate (map (seen_finding rel (splitlines source) nodes) seen))

  -- The part of `analyze` behind the parser; `none` if it raises.
  unfoldable pub analyze_nodes : Text → Text → List Node → Option (List Finding)
  unfolding observations scope_of named_findings
  analyze_nodes rel source nodes =
      observations (scope_of nodes) nodes >>= named_findings rel source nodes

  -- `analyze`, of the path relative to the root: the findings, and what goes into `parser_errors`. An
  -- `IndexError` and a `UnicodeEncodeError` are `none`.
  unfoldable pub analyze_python : Text → Text → Parsed → Option (List Finding × List ParserError)
  unfolding analyze_nodes
  analyze_python rel source (failed error) = some ([], record { path = rel; error = error } ∷ [])
  analyze_python rel source (walked nodes) =
      analyze_nodes rel source nodes >>= (λ found. some (found, []))
