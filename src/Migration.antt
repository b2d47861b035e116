-- ===== src/Migration.antt =====
-- src/quantumguard/migration/engine.py: the migration plan of a finding, and the plans of an audit.
pub mod Plans
use pqcensus.Base.{
  Bool, true, false, ◌&&◌, ◌||◌, not, ◌++◌, Option, none, some, List, [], ◌∷◌, Text, text, join,
  take, non_empty, nat_eq, list_eq, if◌then◌else◌,
}
use pqcensus.Base.Sort.{sorted, nat_ord, list_ord, pair_ord}
use pqcensus.Model.{Finding, Purpose, Confidence, Severity}
use pqcensus.Model.Result.{MigrationPlan}
use pqcensus.Model.Values.{
  purpose_value, severity_value, is_suppressed, is_confidentiality, is_authenticity,
  is_shor_vulnerable,
}
use pqcensus.Policy.{algorithm_status}

-- The variables that the branches on the purpose assign.
pub record Selection : Type 0 where
  pub targets : List Text
  pub target_class : Text
  pub compatibility : List Text
  pub unknowns : List Text

-- `bool(protocol)`
unfoldable pub is_given : Option Text → Bool
is_given none = false
is_given (some t) = non_empty t

unfoldable pub selection : Purpose → Option Text → Selection
unfolding is_confidentiality is_authenticity is_given
selection purpose protocol =
    if is_confidentiality purpose
    then record {
      targets = text "ML-KEM" ∷ [];
      target_class = text "key-establishment";
      compatibility =
          text
            "Confirm the application protocol or library supports ML-KEM or an approved hybrid construction."
          ∷ text "Do not replace encryption or key establishment with a signature primitive."
          ∷ [];
      unknowns =
          if is_given protocol
          then []
          else text "Protocol negotiation and peer compatibility are not visible." ∷ [];
    }
    else if is_authenticity purpose
    then record {
      targets = text "ML-DSA" ∷ text "SLH-DSA" ∷ [];
      target_class = text "digital-signature";
      compatibility =
          text
            "Confirm verifier, certificate, token, and message-format support before changing signers."
          ∷ text "Do not replace a signature primitive with ML-KEM."
          ∷ [];
      unknowns =
          if is_given protocol
          then []
          else text "Verifier and certificate ecosystem compatibility are not visible." ∷ [];
    }
    else record {
      targets = [];
      target_class = text "unknown";
      compatibility =
          text
            "Determine whether this primitive signs, encrypts, establishes keys, authenticates, or appears only in dead/test code before selecting a PQC target."
          ∷ [];
      unknowns =
          text
            "Cryptographic purpose is UNKNOWN; QuantumGuard intentionally abstains from an algorithm recommendation."
          ∷ [];
    }

unfoldable pub is_high : Confidence → Bool
is_high Confidence.high = true
is_high _ = false

-- `bool(targets)`
unfoldable pub is_filled : List Text → Bool
is_filled [] = false
is_filled (t ∷ ts) = true

unfoldable pub plan_confidence : List Text → Confidence → Confidence
unfolding is_high is_filled
plan_confidence targets confidence =
    if is_filled targets && is_high confidence
    then Confidence.high
    else if is_filled targets
    then Confidence.medium
    else Confidence.unknown

-- `protocol or 'unknown'`
protocol_name : Option Text → Text
protocol_name none = text "unknown"
protocol_name (some t) = if non_empty t then t else text "unknown"

abbrev abstraction_changes : List Text
abstraction_changes =
    text "Centralize primitive selection behind a tested crypto policy/provider boundary."
    ∷ text "Represent legacy, hybrid/dual, PQ-preferred, and legacy-retired states explicitly."
    ∷ []

abbrev deployment_steps : List Text
deployment_steps =
    text "Inventory consumers, peers, certificates, keys, and stored artifacts."
    ∷ text "Add negotiation or dual-read/verify support."
    ∷ text "Deploy hybrid or dual support where the protocol permits it."
    ∷ text "Prefer the PQ-capable path and monitor compatibility."
    ∷ text "Retire legacy keys and algorithms only after rollback criteria are satisfied."
    ∷ []

abbrev rollback_steps : List Text
rollback_steps =
    text "Keep a bounded compatibility rollback while validating interoperability."
    ∷ text "Do not silently downgrade after the legacy-retirement gate."
    ∷ []

abbrev verification_checks : List Text
verification_checks =
    text "Run known-answer and negative cryptographic tests."
    ∷ text "Verify cross-version and cross-provider interoperability."
    ∷ text "Rescan and confirm the original finding is fixed or intentionally retained."
    ∷ text "Review protocol traces or configuration evidence without exposing secrets."
    ∷ []

abbrev pub plan_key : MigrationPlan → Text × (Text × Text)
plan_key p = (p.source_path, (p.finding_id, p.plan_id))

-- `sha256(...).hexdigest()` of a text's UTF-8 is the parameter `sha256`.
module _ (sha256 : Text → Text) where
  plan_id_of : Finding → List Text → Option Text → Text
  unfolding purpose_value protocol_name join
  plan_id_of f targets protocol =
      text "QGP-"
      ++ take 20 (
          sha256 (
            join (text "|") (
              f.finding_id
              ∷ purpose_value f.purpose
              ∷ join (text "/") targets
              ∷ protocol_name protocol
              ∷ [])))

  -- The plan after the early return.
  unfoldable pub plan_of : Finding → Option Text → MigrationPlan
  unfolding plan_id_of selection plan_confidence severity_value
  plan_of f protocol =
      let s = selection f.purpose protocol in
      record {
        plan_id = plan_id_of f s.targets protocol;
        finding_id = f.finding_id;
        source_path = f.source_path;
        purpose = f.purpose;
        current_primitive = f.algorithm;
        recommended_targets = s.targets;
        target_class = s.target_class;
        compatibility_constraints = s.compatibility;
        required_abstraction_changes = abstraction_changes;
        deployment_ordering = deployment_steps;
        rollback_considerations = rollback_steps;
        verification_steps = verification_checks;
        urgency = severity_value f.severity;
        confidence = plan_confidence s.targets f.confidence;
        unresolved_unknowns = s.unknowns;
        references = f.references;
      }

  unfoldable pub build_migration_plan : Finding → Option Text → Option MigrationPlan
  unfolding is_suppressed is_shor_vulnerable
  build_migration_plan f protocol =
      if is_suppressed f.status || not (is_shor_vulnerable (algorithm_status f.algorithm))
      then none
      else some (plan_of f protocol)

  -- `[plan for finding in findings if (plan := build_migration_plan(finding)) is not None]`
  unfoldable pub plans_of : List Finding → List MigrationPlan
  plans_of [] = []
  plans_of (f ∷ fs) =
      let rest = plans_of fs in
      elim (build_migration_plan f none) [ none ↦ rest | some plan ↦ plan ∷ rest ]

  unfoldable pub build_migration_plans : List Finding → List MigrationPlan
  unfolding plans_of sorted
  build_migration_plans findings = sorted plan_key (plans_of findings)
