-- ===== src/Policy.antt =====
-- src/quantumguard/policy.py: the rules, and what they say of an algorithm used for a purpose. The
-- rules are an argument: a file is read for them, or the packaged copy.
pub mod Shipped
pub mod Matching
pub mod Severities
use pqcensus.Base.{
  Bool, true, false, ◌&&◌, ◌++◌, Option, none, some, List, [], ◌∷◌, Text, text, ◌==◌, list_eq,
  nat_eq, contains, if◌then◌else◌,
}
use pqcensus.Base.Dict.{Dict, index_onto, values, lookup}
use pqcensus.Model.{Purpose, Severity, QuantumStatus}
use pqcensus.Model.Values.{purpose_value, is_confidentiality, is_authenticity}
use pqcensus.Util.Algorithms.{normalize_algorithm}

-- A rule of rules/quantumguard-rules.json, without the fields that describe the rule itself. A field that a
-- rule lacks is empty, as `get` has it. No code reads the severity: findings get that of `default_severity`.
pub record Rule : Type 0 where
  pub id : Text
  pub category : Text
  pub algorithm_family : Text
  pub purposes : List Text
  pub default_severity : Text
  pub recommendation : Text
  pub migration_targets : List Text
  pub authority_ids : List Text

-- `{item["id"]: item for item in load_rules(root).get("rules", [])}`
unfoldable pub rule_index : List Rule → Dict Text Rule
unfolding index_onto
rule_index rules = index_onto (λ r. r.id) [] rules

-- The set `aliases` of a family.
unfoldable pub family_aliases : Text → List Text
family_aliases family =
    family
    ∷ (if family == text "RSA"
        then text "RS256"
          ∷ text "PS256"
          ∷ text "RS384"
          ∷ text "RS512"
          ∷ text "PS384"
          ∷ text "PS512"
          ∷ []
        else if family == text "ECDSA"
        then text "EC" ∷ text "ES256" ∷ text "ES384" ∷ text "ES512" ∷ []
        else if family == text "EDDSA"
        then text "ED25519" ∷ text "ED448" ∷ []
        else if family == text "ECDH"
        then text "EC" ∷ text "ECDH" ∷ []
        else if family == text "FINITEFIELDDH"
        then text "DH" ∷ text "DIFFIEHELLMAN" ∷ []
        else if family == text "SHA2/SHA3"
        then text "SHA256" ∷ text "SHA384" ∷ text "SHA512" ∷ text "SHA3" ∷ []
        else [])

-- The tests of the loop of `matching_rule`.
unfoldable pub is_fallback : Text → Rule → Bool
is_fallback purpose rule =
    normalize_algorithm rule.algorithm_family == text "*" && contains rule.purposes purpose

unfoldable pub is_match : Text → Text → Rule → Bool
unfolding family_aliases
is_match normalized purpose rule =
    contains (family_aliases (normalize_algorithm rule.algorithm_family)) normalized
    && contains rule.purposes purpose

-- The loop of `matching_rule`, over the rules that are left.
unfoldable pub match_from : Text → Text → Option Rule → List Rule → Option Rule
match_from normalized purpose fallback [] = fallback
match_from normalized purpose fallback (rule ∷ rules) = elim (is_fallback purpose rule) [
  | true ↦ match_from normalized purpose (some rule) rules
  | false ↦ elim (is_match normalized purpose rule) [
    | true ↦ some rule
    | false ↦ match_from normalized purpose fallback rules
  ]
]

unfoldable pub matching_rule : List Rule → Text → Purpose → Option Rule
unfolding match_from is_fallback is_match rule_index values
matching_rule rules algorithm purpose =
    match_from (normalize_algorithm algorithm) (purpose_value purpose) none
      (values (rule_index rules))

abbrev shor_vulnerable_names : List Text
shor_vulnerable_names =
    text "RSA"
    ∷ text "ECDSA"
    ∷ text "ECDH"
    ∷ text "X25519"
    ∷ text "X448"
    ∷ text "DH"
    ∷ text "FINITEFIELDDH"
    ∷ text "DIFFIEHELLMAN"
    ∷ text "EDDSA"
    ∷ text "ED25519"
    ∷ text "ED448"
    ∷ []

abbrev pqc_names : List Text
pqc_names = text "MLKEM" ∷ text "MLDSA" ∷ text "SLHDSA" ∷ []

abbrev insecure_names : List Text
insecure_names = text "TLSLEGACY" ∷ text "TLSINSECURE" ∷ []

abbrev symmetric_names : List Text
symmetric_names =
    text "AES"
    ∷ text "AESGCM"
    ∷ text "CHACHA20"
    ∷ text "CHACHA20POLY1305"
    ∷ text "SHA256"
    ∷ text "SHA384"
    ∷ text "SHA512"
    ∷ text "SHA3"
    ∷ text "SHA2/SHA3"
    ∷ text "HMAC"
    ∷ []

unfoldable pub algorithm_status : Text → QuantumStatus
algorithm_status algorithm =
    let normalized = normalize_algorithm algorithm in
    if contains shor_vulnerable_names normalized
    then QuantumStatus.shor_vulnerable
    else if contains pqc_names normalized
    then QuantumStatus.pqc_standard
    else if contains insecure_names normalized
    then QuantumStatus.insecure_config
    else if contains symmetric_names normalized
    then QuantumStatus.not_shor_target
    else QuantumStatus.unknown

-- The severity before the test for test code.
unfoldable pub level_of : QuantumStatus → Purpose → Severity
unfolding is_confidentiality is_authenticity
level_of QuantumStatus.insecure_config purpose = Severity.high
level_of QuantumStatus.shor_vulnerable purpose =
    if is_confidentiality purpose
    then Severity.critical
    else if is_authenticity purpose
    then Severity.high
    else Severity.medium
level_of QuantumStatus.pqc_standard purpose = Severity.info
level_of QuantumStatus.not_shor_target purpose = Severity.info
level_of QuantumStatus.unknown purpose = Severity.low

-- `level in {Severity.CRITICAL, Severity.HIGH}`
unfoldable pub is_severe : Severity → Bool
is_severe Severity.critical = true
is_severe Severity.high = true
is_severe _ = false

unfoldable pub default_severity : Text → Purpose → Bool → Severity
unfolding level_of is_severe
default_severity algorithm purpose test_only =
    let level = level_of (algorithm_status algorithm) purpose in
    if test_only && is_severe level then Severity.medium else level

authorities_of : Option Rule → List Text
authorities_of none = []
authorities_of (some rule) = rule.authority_ids

targets_of : Option Rule → List Text
targets_of none = []
targets_of (some rule) = rule.migration_targets

unfoldable pub references_for : List Rule → Text → Purpose → List Text
unfolding authorities_of
references_for rules algorithm purpose = authorities_of (matching_rule rules algorithm purpose)

unfoldable pub targets_for : List Rule → Text → Purpose → List Text
unfolding targets_of
targets_for rules algorithm purpose = targets_of (matching_rule rules algorithm purpose)

unfoldable pub explain_rule : List Rule → Text → Option Rule
unfolding rule_index lookup
explain_rule rules rule_id = lookup rule_id (rule_index rules)
