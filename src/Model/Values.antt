-- ===== src/Model/Values.antt =====
-- The strings behind the enumerations of src/quantumguard/models.py, their tests for equality, and
-- the identifier of a finding.
use pqcensus.Base.{
  Bool, true, false, ◌&&◌, not, any, leb, ◌++◌, [], ◌∷◌, Text, text, join, decimal, take,
}
use pqcensus.Model.{
  Finding, Purpose, Confidence, Severity, QuantumStatus, Environment, Status, SourceSpan,
}

unfoldable pub purpose_value : Purpose → Text
purpose_value Purpose.signature = text "SIGNATURE"
purpose_value Purpose.key_establishment = text "KEY_ESTABLISHMENT"
purpose_value Purpose.encryption = text "ENCRYPTION"
purpose_value Purpose.hashing = text "HASHING"
purpose_value Purpose.mac = text "MAC"
purpose_value Purpose.kdf = text "KDF"
purpose_value Purpose.certificate = text "CERTIFICATE"
purpose_value Purpose.unknown = text "UNKNOWN"

unfoldable pub confidence_value : Confidence → Text
confidence_value Confidence.high = text "HIGH"
confidence_value Confidence.medium = text "MEDIUM"
confidence_value Confidence.low = text "LOW"
confidence_value Confidence.unknown = text "UNKNOWN"

unfoldable pub severity_value : Severity → Text
severity_value Severity.info = text "INFO"
severity_value Severity.low = text "LOW"
severity_value Severity.medium = text "MEDIUM"
severity_value Severity.high = text "HIGH"
severity_value Severity.critical = text "CRITICAL"

unfoldable pub quantum_status_value : QuantumStatus → Text
quantum_status_value QuantumStatus.shor_vulnerable = text "shor-vulnerable"
quantum_status_value QuantumStatus.pqc_standard = text "pqc-standard"
quantum_status_value QuantumStatus.insecure_config = text "insecure-config"
quantum_status_value QuantumStatus.not_shor_target = text "not-shor-target"
quantum_status_value QuantumStatus.unknown = text "unknown"

unfoldable pub environment_value : Environment → Text
environment_value Environment.production = text "production"
environment_value Environment.test = text "test"

unfoldable pub status_value : Status → Text
status_value Status.active = text "active"
status_value Status.suppressed = text "suppressed"

-- `item.status == "active"`
unfoldable pub is_active : Status → Bool
is_active Status.active = true
is_active Status.suppressed = false

-- `item.status == "suppressed"`
unfoldable pub is_suppressed : Status → Bool
is_suppressed Status.active = false
is_suppressed Status.suppressed = true

-- `status == "shor-vulnerable"`
unfoldable pub is_shor_vulnerable : QuantumStatus → Bool
is_shor_vulnerable QuantumStatus.shor_vulnerable = true
is_shor_vulnerable _ = false

-- `purpose in {Purpose.KEY_ESTABLISHMENT, Purpose.ENCRYPTION}`
unfoldable pub is_confidentiality : Purpose → Bool
is_confidentiality Purpose.key_establishment = true
is_confidentiality Purpose.encryption = true
is_confidentiality _ = false

-- `purpose in {Purpose.SIGNATURE, Purpose.CERTIFICATE}`
unfoldable pub is_authenticity : Purpose → Bool
is_authenticity Purpose.signature = true
is_authenticity Purpose.certificate = true
is_authenticity _ = false

-- Whether `t.encode("utf-8")` does not raise: no lone surrogate is in the text.
unfoldable pub is_encodable : Text → Bool
unfolding any
is_encodable t = not (any (λ c. leb 0xD800 c && leb c 0xDFFF) t)

-- The variable `material` of `Finding.stable_id`.
unfoldable pub stable_material : Text → Text → SourceSpan → Text → Purpose → Text → Text
unfolding purpose_value decimal join
stable_material rule_id source_path span algorithm purpose evidence_detail = join (text "|") (
    rule_id
    ∷ source_path
    ∷ decimal span.start_line
    ∷ decimal span.start_column
    ∷ algorithm
    ∷ purpose_value purpose
    ∷ evidence_detail
    ∷ [])

-- Whether `Finding.stable_id` raises a `UnicodeEncodeError` for the finding, of which it takes the detail of
-- the evidence.
unfoldable pub is_unnameable : Finding → Bool
unfolding stable_material is_encodable any
is_unnameable f =
    any
      (λ e. not (
        is_encodable
          (stable_material f.rule_id f.source_path f.span f.algorithm f.purpose e.detail)))
      f.evidence

-- `sha256(...).hexdigest()` of a text's UTF-8 is the parameter `sha256`; what calls `stable_id` tests first
-- whether the material can be encoded.
module _ (sha256 : Text → Text) where
  -- `Finding.stable_id`, of a material that can be encoded.
  unfoldable pub stable_id : Text → Text → SourceSpan → Text → Purpose → Text → Text
  unfolding stable_material
  stable_id rule_id source_path span algorithm purpose evidence_detail =
      text "QG-"
      ++ take 20
          (sha256 (stable_material rule_id source_path span algorithm purpose evidence_detail))
