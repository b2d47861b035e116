-- ===== src/Serialized.antt =====
-- The `to_dict` methods of src/quantumguard/models.py: the documents of findings, assets, plans,
-- dependencies and whole audits.
pub mod Summary
pub mod Outcome
use pqcensus.Base.{
  Bool, true, false, Option, none, some, List, [], ◌∷◌, ◌++◌, Text, text, map, given_text,
}
use pqcensus.Base.Json.{
  Json, null, boolean, string, document, list_json, strings, number, text_or_null,
}
use pqcensus.Model.{Finding, Evidence, SourceSpan, Suppression}
use pqcensus.Model.Result.{CryptoAsset, MigrationPlan, Dependency}
use pqcensus.Model.Values.{
  purpose_value, confidence_value, severity_value, quantum_status_value, environment_value,
  status_value,
}

-- An entry that is written only where there is a value.
unfoldable pub entry_if {ℓ} : {A : Type ℓ} → Text → (A → Json) → Option A → List (Text × Json)
entry_if key f none = []
entry_if key f (some a) = (key, f a) ∷ []

-- `SourceSpan.to_dict`
unfoldable pub span_dict : SourceSpan → Json
unfolding entry_if document number
span_dict s = document (
    (text "start_line", number s.start_line)
      ∷ (text "start_column", number s.start_column)
      ∷ entry_if (text "end_line") number s.end_line
    ++ entry_if (text "end_column") number s.end_column)

-- `if self.references`
unfoldable pub given_list : List Text → Option (List Text)
given_list [] = none
given_list (t ∷ ts) = some (t ∷ ts)

-- `Evidence.to_dict`
unfoldable pub evidence_dict : Evidence → Json
unfolding entry_if document given_text given_list strings
evidence_dict e = document (
    (text "type", string e.evidence_type)
      ∷ (text "detail", string e.detail)
      ∷ entry_if (text "snippet_sha256") string (given_text e.snippet_sha256)
    ++ entry_if (text "references") strings (given_list e.references))

-- The entries of `Suppression.to_dict`.
unfoldable pub suppression_entries : Suppression → List (Text × Json)
unfolding text_or_null
suppression_entries s =
    (text "rule_id", string s.rule_id)
    ∷ (text "reason", string s.reason)
    ∷ (text "source", string s.source)
    ∷ (text "path", text_or_null s.path)
    ∷ (text "expires", text_or_null s.expires)
    ∷ []

unfoldable pub suppression_dict : Option Suppression → Json
unfolding suppression_entries document
suppression_dict none = null
suppression_dict (some s) = document (suppression_entries s)

-- `Finding.to_dict`
unfoldable pub finding_dict : Finding → Json
unfolding document number text_or_null strings list_json span_dict evidence_dict suppression_dict
    purpose_value confidence_value severity_value quantum_status_value environment_value
    status_value
finding_dict f = document (
    (text "schema_version", number 1)
    ∷ (text "finding_id", string f.finding_id)
    ∷ (text "rule_id", string f.rule_id)
    ∷ (text "category", string f.category)
    ∷ (text "algorithm", string f.algorithm)
    ∷ (text "purpose", string (purpose_value f.purpose))
    ∷ (
      text "source",
      document (
          (text "path", string f.source_path)
          ∷ (text "span", span_dict f.span)
          ∷ (text "symbol", text_or_null f.symbol)
          ∷ []),
    )
    ∷ (text "evidence", list_json (map evidence_dict f.evidence))
    ∷ (text "confidence", string (confidence_value f.confidence))
    ∷ (text "quantum_risk", string (quantum_status_value f.quantum_risk))
    ∷ (text "severity", string (severity_value f.severity))
    ∷ (text "rationale", string f.rationale)
    ∷ (text "migration_target", strings f.migration_target)
    ∷ (text "migration_confidence", string (confidence_value f.migration_confidence))
    ∷ (text "references", strings f.references)
    ∷ (text "suppressible", boolean f.suppressible)
    ∷ (text "analyzer", string f.analyzer)
    ∷ (text "environment", string (environment_value f.environment))
    ∷ (text "status", string (status_value f.status))
    ∷ (text "suppression", suppression_dict f.suppression)
    ∷ [])

-- The value of "source" of an asset: its span is written only beside a path.
unfoldable pub asset_source : Option Text → Option SourceSpan → Json
unfolding document span_dict text_or_null
asset_source (some (c ∷ t)) (some span) =
    document ((text "path", string (c ∷ t)) ∷ (text "span", span_dict span) ∷ [])
asset_source path span = document ((text "path", text_or_null path) ∷ [])

-- `CryptoAsset.to_dict`
unfoldable pub asset_dict : CryptoAsset → Json
unfolding document text_or_null strings asset_source purpose_value confidence_value
    quantum_status_value
asset_dict a = document (
    (text "asset_id", string a.asset_id)
    ∷ (text "asset_type", string a.asset_type)
    ∷ (text "name", string a.name)
    ∷ (text "algorithm", text_or_null a.algorithm)
    ∷ (text "purpose", string (purpose_value a.purpose))
    ∷ (text "source", asset_source a.source_path a.span)
    ∷ (text "dependency", text_or_null a.dependency)
    ∷ (text "quantum_status", string (quantum_status_value a.quantum_status))
    ∷ (text "provenance", strings a.provenance)
    ∷ (text "confidence", string (confidence_value a.confidence))
    ∷ [])

-- `MigrationPlan.to_dict`
unfoldable pub plan_dict : MigrationPlan → Json
unfolding document list_json strings number purpose_value confidence_value
plan_dict p = document (
    (text "schema_version", number 1)
    ∷ (text "plan_id", string p.plan_id)
    ∷ (text "finding_id", string p.finding_id)
    ∷ (
      text "affected_call_sites",
      list_json (document ((text "path", string p.source_path) ∷ []) ∷ []),
    )
    ∷ (text "purpose", string (purpose_value p.purpose))
    ∷ (text "current_primitive", string p.current_primitive)
    ∷ (text "recommended_targets", strings p.recommended_targets)
    ∷ (text "target_class", string p.target_class)
    ∷ (text "compatibility_constraints", strings p.compatibility_constraints)
    ∷ (text "required_abstraction_changes", strings p.required_abstraction_changes)
    ∷ (text "deployment_ordering", strings p.deployment_ordering)
    ∷ (text "rollback_considerations", strings p.rollback_considerations)
    ∷ (text "verification_steps", strings p.verification_steps)
    ∷ (text "urgency", string p.urgency)
    ∷ (text "confidence", string (confidence_value p.confidence))
    ∷ (text "unresolved_unknowns", strings p.unresolved_unknowns)
    ∷ (text "references", strings p.references)
    ∷ [])

-- `Dependency.to_dict`
unfoldable pub dependency_dict : Dependency → Json
unfolding document text_or_null
dependency_dict d = document (
    (text "name", string d.name)
    ∷ (text "version", text_or_null d.version)
    ∷ (text "manifest", string d.manifest)
    ∷ (text "ecosystem", string d.ecosystem)
    ∷ (text "direct", boolean d.direct)
    ∷ [])
