-- ===== src/Serialized/Outcome.antt =====
-- `AuditResult.to_dict` of src/quantumguard/models.py, with the dicts of src/quantumguard/agility.py and
-- src/quantumguard/hndl.py that stand in it.
use pqcensus.Base.{ℕ, Option, none, some, [], ◌∷◌, Text, text, map, length, count}
use pqcensus.Base.Int.{ℤ, is_zero, integer_text}
use pqcensus.Base.Json.{
  Json, null, integer, string, document, list_json, strings, number, text_or_null,
}
use pqcensus.Model.Values.{is_active, is_suppressed}
use pqcensus.Agility.Components.{Component, Components}
use pqcensus.Hndl.{HndlResult, hndl_status_value}
use pqcensus.Suppressions.{LogEntry, ParserError}
use pqcensus.Util.Walk.{Skipped}
use pqcensus.Audit.{Limits}
use pqcensus.Audit.Complete.{AuditResult}
use pqcensus.Serialized.{finding_dict, asset_dict, dependency_dict, plan_dict, suppression_entries}

unfoldable pub integer_json : ℤ → Json
unfolding integer_text is_zero
integer_json a = integer (is_zero a) (integer_text a)

unfoldable pub integer_or_null : Option ℤ → Json
unfolding integer_json
integer_or_null none = null
integer_or_null (some a) = integer_json a

unfoldable pub component_dict : Component → Json
unfolding document number strings
component_dict c =
    document ((text "score", number c.score) ∷ (text "evidence", strings c.evidence) ∷ [])

-- What `evaluate_agility` returns, of its components and its score.
unfoldable pub agility_dict : Components → ℕ → Json
unfolding document number component_dict
agility_dict c overall = document (
    (text "schema_version", number 1)
    ∷ (text "overall_score", number overall)
    ∷ (text "scale", string (text "0-100"))
    ∷ (
      text "components",
      document (
          (text "algorithm_selection", component_dict c.selection)
          ∷ (text "provider_centralization", component_dict c.provider)
          ∷ (text "negotiation", component_dict c.negotiation)
          ∷ (text "dual_algorithm_support", component_dict c.dual)
          ∷ (text "key_rotation", component_dict c.key_rotation)
          ∷ (text "certificate_rotation", component_dict c.certificate_rotation)
          ∷ (text "dependency_constraints", component_dict c.constraints)
          ∷ (text "policy_centralization", component_dict c.policy)
          ∷ []),
    )
    ∷ (
      text "method",
      string (
          text
            "Transparent deterministic signals; absence of a static signal is not proof that a capability does not exist. The 0-100 value is a declared engineering scale, not a normalized population percentile and not an externally calibrated maturity score. Scores are equal-weight component averages, and a mixed hard-coded plus configured signal can score below a no-signal baseline because ambiguity is penalized."),
    )
    ∷ [])

-- What `assess_hndl` returns.
unfoldable pub hndl_dict : HndlResult → Json
unfolding document number strings text_or_null integer_or_null hndl_status_value
hndl_dict h = document (
    (text "schema_version", number 1)
    ∷ (text "status", string (hndl_status_value h.status))
    ∷ (text "rationale", string h.rationale)
    ∷ (text "affected_finding_ids", strings h.affected_finding_ids)
    ∷ (
      text "inputs",
      document (
          (text "data_sensitivity", text_or_null h.inputs.data_sensitivity)
          ∷ (
            text "confidentiality_lifetime_years",
            integer_or_null h.inputs.confidentiality_lifetime_years,
          )
          ∷ (text "system_context", text_or_null h.inputs.system_context)
          ∷ (text "exposure", text_or_null h.inputs.exposure)
          ∷ []),
    )
    ∷ (text "unknown_inputs", strings h.unknown_inputs)
    ∷ (
      text "default_policy",
      string (text "No enterprise data lifecycle is invented; missing context remains UNKNOWN."),
    )
    ∷ [])

-- An entry of the audit log.
unfoldable pub log_dict : LogEntry → Json
unfolding document suppression_entries
log_dict e = document ((text "finding_id", string e.finding_id) ∷ suppression_entries e.suppression)

unfoldable pub parser_error_dict : ParserError → Json
unfolding document
parser_error_dict e = document ((text "path", string e.path) ∷ (text "error", string e.error) ∷ [])

unfoldable pub skipped_dict : Skipped → Json
unfolding document number
skipped_dict s = document (
    (text "symlink", number s.symlink)
    ∷ (text "too_large", number s.too_large)
    ∷ (text "binary", number s.binary)
    ∷ (text "permission", number s.permission)
    ∷ (text "file_limit", number s.file_limit)
    ∷ (text "byte_limit", number s.byte_limit)
    ∷ (text "walk_error", number s.walk_error)
    ∷ [])

-- The argument `limits` of the result.
unfoldable pub limits_dict : Limits → Skipped → Json
unfolding document integer_json skipped_dict
limits_dict l s = document (
    (text "max_files", integer_json l.max_files)
    ∷ (text "max_file_bytes", integer_json l.max_file_bytes)
    ∷ (text "max_total_bytes", integer_json l.max_total_bytes)
    ∷ (text "skipped", skipped_dict s)
    ∷ [])

-- The numbers of "summary".
pub record Summary : Type 0 where
  pub files_analyzed : ℕ
  pub bytes_analyzed : ℕ
  pub findings : ℕ
  pub active_findings : ℕ
  pub suppressed_findings : ℕ
  pub crypto_assets : ℕ
  pub dependencies : ℕ

unfoldable pub summary_of : AuditResult → Summary
unfolding is_active is_suppressed count
summary_of r = record {
  files_analyzed = r.files_analyzed;
  bytes_analyzed = r.bytes_analyzed;
  findings = length r.findings;
  active_findings = count (λ f. is_active f.status) r.findings;
  suppressed_findings = count (λ f. is_suppressed f.status) r.findings;
  crypto_assets = length r.assets;
  dependencies = length r.dependencies;
}

unfoldable pub summary_dict : Summary → Json
unfolding document number
summary_dict s = document (
    (text "files_analyzed", number s.files_analyzed)
    ∷ (text "bytes_analyzed", number s.bytes_analyzed)
    ∷ (text "findings", number s.findings)
    ∷ (text "active_findings", number s.active_findings)
    ∷ (text "suppressed_findings", number s.suppressed_findings)
    ∷ (text "crypto_assets", number s.crypto_assets)
    ∷ (text "dependencies", number s.dependencies)
    ∷ [])

-- The value of "tool" in a document.
unfoldable pub tool_dict : Text → Json
unfolding document
tool_dict version =
    document ((text "name", string (text "PQCensus")) ∷ (text "version", string version) ∷ [])

-- `AuditResult.to_dict`
unfoldable pub result_dict : AuditResult → Json
unfolding document number list_json tool_dict summary_of summary_dict parser_error_dict finding_dict
    asset_dict dependency_dict plan_dict agility_dict hndl_dict log_dict limits_dict
result_dict r = document (
    (text "schema_version", number 1)
    ∷ (text "tool", tool_dict r.generated_by)
    ∷ (text "repository", string r.repository)
    ∷ (text "summary", summary_dict (summary_of r))
    ∷ (text "parser_errors", list_json (map parser_error_dict r.parser_errors))
    ∷ (text "findings", list_json (map finding_dict r.findings))
    ∷ (text "inventory", list_json (map asset_dict r.assets))
    ∷ (text "dependencies", list_json (map dependency_dict r.dependencies))
    ∷ (text "migration_plans", list_json (map plan_dict r.migration_plans))
    ∷ (text "crypto_agility", agility_dict r.agility_components r.agility_score)
    ∷ (text "hndl", hndl_dict r.hndl)
    ∷ (text "suppressions", list_json (map log_dict r.suppressions))
    ∷ (text "limits", limits_dict r.limits r.skipped)
    ∷ [])
