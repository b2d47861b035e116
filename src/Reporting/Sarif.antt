-- ===== src/Reporting/Sarif.antt =====
-- `sarif_document` of src/quantumguard/reporting.py.
pub mod Closed
pub mod Document
pub mod Failing
use pqcensus.Base.{
  given_text, ℕ, zero, suc, ◌+◌, Bool, true, false, Option, none, some, List, [], ◌∷◌, ◌++◌, Text,
  text, map, keep, join, non_empty, replace_char, nat_eq, list_eq,
}
use pqcensus.Base.Dict.{Dict, lookup}
use pqcensus.Base.Json.{Json, string, document, list_json, strings, number}
use pqcensus.Base.Sort.{sorted, nat_ord, list_ord}
use pqcensus.Model.{Finding, Severity, SourceSpan}
use pqcensus.Model.Values.{is_active, purpose_value, confidence_value, quantum_status_value}
use pqcensus.Policy.{Rule, rule_index}
use pqcensus.Cli.{distinct}
use pqcensus.Serialized.{entry_if}
use pqcensus.Audit.Complete.{AuditResult}

-- What `load_rules` returns: the rules, and the URL of each authority.
pub record RuleBook : Type 0 where
  pub rules : List Rule
  pub authorities : Dict Text (Option Text)

-- `_sarif_level`
pub data SarifLevel : Type 0 where
  error warning note : SarifLevel

unfoldable pub sarif_level : Severity → SarifLevel
sarif_level Severity.critical = SarifLevel.error
sarif_level Severity.high = SarifLevel.error
sarif_level Severity.medium = SarifLevel.warning
sarif_level Severity.low = SarifLevel.note
sarif_level Severity.info = SarifLevel.note

unfoldable pub level_value : SarifLevel → Text
level_value SarifLevel.error = text "error"
level_value SarifLevel.warning = text "warning"
level_value SarifLevel.note = text "note"

-- The URL of an authority, if it is known and has one.
unfoldable pub authority_url : Option (Option Text) → Option Text
unfolding given_text
authority_url none = none
authority_url (some url) = given_text url

-- `_first_authority_url`
unfoldable pub first_authority_url : Dict Text (Option Text) → List Text → Text
unfolding authority_url lookup
first_authority_url authorities [] = text "https://github.com/XiantingWu/PQCensus/tree/main/docs"
first_authority_url authorities (id ∷ ids) = elim (authority_url (lookup id authorities)) [
  | some url ↦ url
  | none ↦ first_authority_url authorities ids
]

pub record SarifRule : Type 0 where
  pub id : Text
  pub name : Text
  pub short_description : Text
  pub help_uri : Text
  pub tags : List Text

-- `str(value or other)`
unfoldable pub text_or : Text → Text → Text
text_or [] other = other
text_or (c ∷ t) other = c ∷ t

unfoldable pub sarif_rule_of : Dict Text (Option Text) → Text → Option Rule → SarifRule
unfolding text_or first_authority_url replace_char
sarif_rule_of authorities rule_id none = record {
  id = rule_id;
  name = replace_char b'-' b'_' rule_id;
  short_description = text "Cryptographic finding";
  help_uri = first_authority_url authorities [];
  tags = text "security" ∷ text "post-quantum" ∷ text "crypto" ∷ [];
}
sarif_rule_of authorities rule_id (some rule) = record {
  id = rule_id;
  name = replace_char b'-' b'_' rule_id;
  short_description = text_or rule.recommendation (text "Cryptographic finding");
  help_uri = first_authority_url authorities rule.authority_ids;
  tags = text "security" ∷ text "post-quantum" ∷ text_or rule.category (text "crypto") ∷ [];
}

-- The variable `used`.
unfoldable pub used_rules : List Finding → List Text
unfolding is_active keep distinct sorted
used_rules fs =
    sorted (λ t. t) (distinct (map (λ f. f.rule_id) (keep (λ f. is_active f.status) fs)))

unfoldable pub sarif_rules : RuleBook → List Finding → List SarifRule
unfolding used_rules sarif_rule_of rule_index lookup
sarif_rules book fs =
    map (λ rule_id. sarif_rule_of book.authorities rule_id (lookup rule_id (rule_index book.rules)))
      (used_rules fs)

pub record Region : Type 0 where
  pub start_line : ℕ
  pub start_column : ℕ
  pub end_line : Option ℕ
  pub end_column : Option ℕ

-- A line is written if it is not 0, a column if it is there, counted from 1.
unfoldable pub end_line_of : Option ℕ → Option ℕ
end_line_of none = none
end_line_of (some zero) = none
end_line_of (some (suc n)) = some (suc n)

unfoldable pub end_column_of : Option ℕ → Option ℕ
end_column_of none = none
end_column_of (some n) = some (n + 1)

unfoldable pub region_of : SourceSpan → Region
unfolding end_line_of end_column_of
region_of span = record {
  start_line = span.start_line;
  start_column = span.start_column + 1;
  end_line = end_line_of span.end_line;
  end_column = end_column_of span.end_column;
}

-- What follows "Next action: " in a message.
unfoldable pub next_action : List Text → Text
unfolding join
next_action [] = text "resolve the unknown usage context before selecting a migration target"
next_action (t ∷ ts) = text "assess " ++ join (text ", ") (t ∷ ts)

pub record SarifResult : Type 0 where
  pub rule_id : Text
  pub level : SarifLevel
  pub message : Text
  pub uri : Text
  pub region : Region
  pub symbol : Option Text
  pub finding_id : Text
  pub algorithm : Text
  pub purpose : Text
  pub confidence : Text
  pub quantum_risk : Text

unfoldable pub sarif_result : Finding → SarifResult
unfolding sarif_level next_action region_of given_text purpose_value confidence_value
    quantum_status_value
sarif_result f = record {
  rule_id = f.rule_id;
  level = sarif_level f.severity;
  message = f.rationale ++ text " Next action: " ++ next_action f.migration_target;
  uri = f.source_path;
  region = region_of f.span;
  symbol = given_text f.symbol;
  finding_id = f.finding_id;
  algorithm = f.algorithm;
  purpose = purpose_value f.purpose;
  confidence = confidence_value f.confidence;
  quantum_risk = quantum_status_value f.quantum_risk;
}

-- The loop over the findings.
unfoldable pub sarif_results : List Finding → List SarifResult
unfolding is_active sarif_result keep
sarif_results fs = map sarif_result (keep (λ f. is_active f.status) fs)
