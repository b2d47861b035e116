-- ===== src/Reporting/Inventory.antt =====
-- `inventory_document`, `migration_document`, `cbom_document` and `markdown_report` of
-- src/quantumguard/reporting.py.
use pqcensus.Base.{
  ◌-◌, List, [], ◌∷◌, ◌++◌, Text, text, map, keep, join, rstrip, decimal, length, nat_eq, list_eq,
}
use pqcensus.Base.Sort.{sorted, nat_ord, list_ord, pair_ord}
use pqcensus.Base.Json.{Json, string, document, list_json, strings, number, text_or_null}
use pqcensus.Model.{Finding}
use pqcensus.Model.Result.{CryptoAsset}
use pqcensus.Model.Values.{
  is_active, purpose_value, confidence_value, severity_value, quantum_status_value,
}
use pqcensus.Hndl.{hndl_status_value}
use pqcensus.Audit.Complete.{AuditResult}
use pqcensus.Serialized.{asset_source, asset_dict, dependency_dict, plan_dict}
use pqcensus.Serialized.Outcome.{tool_dict}

-- A component of the native bill of materials.
unfoldable pub cbom_component : CryptoAsset → Json
unfolding document text_or_null strings asset_source purpose_value confidence_value
    quantum_status_value
cbom_component a = document (
    (text "type", string a.asset_type)
    ∷ (text "name", string a.name)
    ∷ (text "algorithm", text_or_null a.algorithm)
    ∷ (text "purpose", string (purpose_value a.purpose))
    ∷ (text "quantum_status", string (quantum_status_value a.quantum_status))
    ∷ (text "source", asset_source a.source_path a.span)
    ∷ (text "provenance", strings a.provenance)
    ∷ (text "confidence", string (confidence_value a.confidence))
    ∷ [])

-- `canonical_sha256` of a document is `sha256 (canonical_json document)`.
module _ (sha256 : Text → Text) (canonical_json : Json → Text) where
  -- The value of "content_sha256" in `inventory_document`.
  unfoldable pub inventory_sha256 : AuditResult → Text
  unfolding document list_json asset_dict dependency_dict
  inventory_sha256 r = sha256 (
      canonical_json (
        document (
          (text "assets", list_json (map asset_dict r.assets))
          ∷ (text "dependencies", list_json (map dependency_dict r.dependencies))
          ∷ [])))

  unfoldable pub inventory_document : AuditResult → Json
  unfolding document number list_json tool_dict asset_dict dependency_dict inventory_sha256
  inventory_document r = document (
      (text "schema_version", number 1)
      ∷ (text "tool", tool_dict r.generated_by)
      ∷ (text "repository", string r.repository)
      ∷ (text "assets", list_json (map asset_dict r.assets))
      ∷ (text "dependencies", list_json (map dependency_dict r.dependencies))
      ∷ (text "content_sha256", string (inventory_sha256 r))
      ∷ [])

  unfoldable pub migration_document : AuditResult → Json
  unfolding document number list_json tool_dict plan_dict
  migration_document r = document (
      (text "schema_version", number 1)
      ∷ (text "tool", tool_dict r.generated_by)
      ∷ (text "repository", string r.repository)
      ∷ (text "plans", list_json (map plan_dict r.migration_plans))
      ∷ (
        text "content_sha256",
        string (sha256 (canonical_json (list_json (map plan_dict r.migration_plans)))),
      )
      ∷ [])

-- `str` of a document is `show`.
module _ (sha256 : Text → Text) (canonical_json show : Json → Text) where
  -- The key of the order of components.
  unfoldable pub cbom_key : CryptoAsset → Text × (Text × Text)
  unfolding asset_source
  cbom_key a = (a.asset_type, (a.name, show (asset_source a.source_path a.span)))

  -- The variable `components` of `cbom_document`.
  unfoldable pub cbom_components : AuditResult → List Json
  unfolding cbom_component cbom_key sorted
  cbom_components r = map cbom_component (sorted cbom_key r.assets)

  unfoldable pub cbom_document : AuditResult → Json
  unfolding document number list_json tool_dict dependency_dict cbom_components
  cbom_document r = document (
      (text "schema_version", number 1)
      ∷ (text "format", string (text "QuantumGuard-CBOM"))
      ∷ (text "producer", tool_dict r.generated_by)
      ∷ (text "cyclonedx_compatibility", string (text "not-claimed"))
      ∷ (
        text "application",
        document
            ((text "name", string r.repository) ∷ (text "type", string (text "application")) ∷ []),
      )
      ∷ (text "components", list_json (cbom_components r))
      ∷ (text "dependencies", list_json (map dependency_dict r.dependencies))
      ∷ (text "content_sha256", string (sha256 (canonical_json (list_json (cbom_components r)))))
      ∷ [])

-- The lines of one finding.
unfoldable pub markdown_finding : Finding → List Text
unfolding severity_value purpose_value confidence_value decimal
markdown_finding f =
    (text "### "
      ++ severity_value f.severity
      ++ text ": "
      ++ f.algorithm
      ++ text " / "
      ++ purpose_value f.purpose)
    ∷ []
    ∷ (f.source_path
        ++ text ":"
        ++ decimal f.span.start_line
        ++ text " · "
        ++ f.rule_id
        ++ text " · confidence "
        ++ confidence_value f.confidence)
    ∷ []
    ∷ f.rationale
    ∷ []
    ∷ []

unfoldable pub markdown_findings : List Finding → List Text
unfolding markdown_finding
markdown_findings [] = []
markdown_findings (f ∷ fs) = markdown_finding f ++ markdown_findings fs

-- The line that stands for the findings where there are none.
unfoldable pub no_findings_line : List Finding → List Text
no_findings_line [] = text "No active findings were verified by the supported analyzers." ∷ []
no_findings_line (f ∷ fs) = []

-- The variable `active`.
unfoldable pub active_findings : AuditResult → List Finding
unfolding is_active keep
active_findings r = keep (λ f. is_active f.status) r.findings

unfoldable pub markdown_lines : AuditResult → List Text
unfolding active_findings no_findings_line markdown_findings decimal hndl_status_value
markdown_lines r =
    let active = active_findings r in
    (text "# PQCensus audit: " ++ r.repository)
      ∷ []
      ∷ (text "- Files analyzed: " ++ decimal r.files_analyzed)
      ∷ (text "- Crypto assets: " ++ decimal (length r.assets))
      ∷ (text "- Active findings: " ++ decimal (length active))
      ∷ (text "- Suppressed findings: " ++ decimal (length r.findings - length active))
      ∷ (text "- Crypto agility: " ++ decimal r.agility_score ++ text "/100")
      ∷ (text "- HNDL: " ++ hndl_status_value r.hndl.status)
      ∷ []
      ∷ text "## Findings"
      ∷ []
      ∷ no_findings_line active
    ++ markdown_findings active

unfoldable pub markdown_report : AuditResult → Text
unfolding markdown_lines join rstrip
markdown_report r = rstrip (join (text "\n") (markdown_lines r)) ++ text "\n"
