-- ===== src/Reporting/Sarif/Document.antt =====
-- The JSON of `sarif_document` of src/quantumguard/reporting.py.
use pqcensus.Base.{Option, none, some, List, [], ◌∷◌, ◌++◌, Text, text, map}
use pqcensus.Base.Json.{Json, string, document, list_json, strings, number}
use pqcensus.Audit.Complete.{AuditResult}
use pqcensus.Serialized.{entry_if}
use pqcensus.Reporting.Sarif.{
  RuleBook, SarifRule, SarifResult, Region, level_value, sarif_rules, sarif_results,
}

unfoldable pub sarif_rule_dict : SarifRule → Json
unfolding document strings
sarif_rule_dict r = document (
    (text "id", string r.id)
    ∷ (text "name", string r.name)
    ∷ (text "shortDescription", document ((text "text", string r.short_description) ∷ []))
    ∷ (text "helpUri", string r.help_uri)
    ∷ (text "properties", document ((text "tags", strings r.tags) ∷ []))
    ∷ [])

unfoldable pub region_dict : Region → Json
unfolding document number entry_if
region_dict r = document (
    (text "startLine", number r.start_line)
      ∷ (text "startColumn", number r.start_column)
      ∷ entry_if (text "endLine") number r.end_line
    ++ entry_if (text "endColumn") number r.end_column)

-- `[{"name": finding.symbol}] if finding.symbol else []`
unfoldable pub logical_locations : Option Text → List Json
unfolding document
logical_locations none = []
logical_locations (some symbol) = document ((text "name", string symbol) ∷ []) ∷ []

-- The one location of a result.
unfoldable pub location_dict : SarifResult → Json
unfolding document list_json region_dict logical_locations
location_dict r = document (
    (
      text "physicalLocation",
      document (
          (
            text "artifactLocation",
            document
                ((text "uri", string r.uri) ∷ (text "uriBaseId", string (text "%SRCROOT%")) ∷ []),
          )
          ∷ (text "region", region_dict r.region)
          ∷ []),
    )
    ∷ (text "logicalLocations", list_json (logical_locations r.symbol))
    ∷ [])

unfoldable pub sarif_result_dict : SarifResult → Json
unfolding document list_json level_value location_dict
sarif_result_dict r = document (
    (text "ruleId", string r.rule_id)
    ∷ (text "level", string (level_value r.level))
    ∷ (text "message", document ((text "text", string r.message) ∷ []))
    ∷ (text "locations", list_json (location_dict r ∷ []))
    ∷ (
      text "partialFingerprints",
      document ((text "quantumguardFindingId", string r.finding_id) ∷ []),
    )
    ∷ (
      text "properties",
      document (
          (text "algorithm", string r.algorithm)
          ∷ (text "purpose", string r.purpose)
          ∷ (text "confidence", string r.confidence)
          ∷ (text "quantumRisk", string r.quantum_risk)
          ∷ []),
    )
    ∷ [])

-- `sarif_document`, of what `load_rules` returns and the result of an audit.
unfoldable pub sarif_document : RuleBook → AuditResult → Json
unfolding document list_json sarif_rule_dict sarif_rules sarif_result_dict sarif_results
sarif_document book r = document (
    (text "$schema", string (text "https://json.schemastore.org/sarif-2.1.0.json"))
    ∷ (text "version", string (text "2.1.0"))
    ∷ (
      text "runs",
      list_json (
          document (
            (
              text "tool",
              document (
                  (
                    text "driver",
                    document (
                        (text "name", string (text "PQCensus"))
                        ∷ (text "version", string r.generated_by)
                        ∷ (
                          text "informationUri",
                          string (text "https://github.com/XiantingWu/PQCensus"),
                        )
                        ∷ (
                          text "rules",
                          list_json (map sarif_rule_dict (sarif_rules book r.findings)),
                        )
                        ∷ []),
                  )
                  ∷ []),
            )
            ∷ (text "results", list_json (map sarif_result_dict (sarif_results r.findings)))
            ∷ [])
          ∷ []),
    )
    ∷ [])
