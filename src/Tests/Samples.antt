-- ===== src/Tests/Samples.antt =====
-- Findings for the tests.
use pqcensus.Base.{◌≡◌, refl, list_beq, is_space, true, none, some, [], ◌∷◌, Text, text, List}
use pqcensus.Base.Int.{pos}
use pqcensus.Model.{
  Finding, Suppression, Purpose, Confidence, Severity, QuantumStatus, Environment, Status,
}
use pqcensus.Base.Json.{truthy, field, string, array, item, no_items, no_fields, object}
use pqcensus.Suppressions.{Outside, parsed, config_entry, load_config_suppressions}
use pqcensus.Model.Result.{Dependency}
use pqcensus.Risk.{RiskContext}

-- An RSA decryption in production code.
abbrev pub rsa_finding : Finding
rsa_finding = record {
  finding_id = text "QG-2";
  rule_id = text "QG-RSA-KEY-TRANSPORT";
  category = text "cryptographic-use";
  algorithm = text "RSA";
  purpose = Purpose.encryption;
  source_path = text "src/app.py";
  span = record { start_line = 3; start_column = 4; end_line = some 3; end_column = some 20 };
  symbol = none;
  evidence = [];
  confidence = Confidence.high;
  quantum_risk = QuantumStatus.shor_vulnerable;
  severity = Severity.critical;
  rationale = [];
  migration_target = text "ML-KEM" ∷ [];
  migration_confidence = Confidence.high;
  references = [];
  suppressible = true;
  analyzer = text "python-ast";
  environment = Environment.production;
  status = Status.active;
  suppression = none;
}

-- A signature in test code.
abbrev pub test_finding : Finding
test_finding = record rsa_finding {
  finding_id = text "QG-1";
  rule_id = text "QG-ECDSA-SIGNATURE";
  algorithm = text "ECDSA";
  purpose = Purpose.signature;
  source_path = text "tests/test_app.py";
  severity = Severity.medium;
  environment = Environment.test;
}

abbrev pub findings : List Finding
findings = rsa_finding ∷ test_finding ∷ []

abbrev pub quiet_context : RiskContext
quiet_context = record {
  exposure = text "internal";
  data_lifetime_years = some (pos 2);
  trust_lifetime_years = none;
  public_reachability = text "internal";
  migration_complexity = text "unknown";
  production = true;
  hndl_relevant = none;
}

abbrev pub exposed_context : RiskContext
exposed_context = record quiet_context {
  exposure = text "public";
  data_lifetime_years = some (pos 25);
  hndl_relevant = some true;
}

abbrev pub stand_in_hash : Text → Text
stand_in_hash t = t

-- A suppression of every rule, and files without markers.
abbrev pub outside : Outside
outside = record {
  fromisoformat = λ t. some 10;
  today = 20;
  fnmatch = λ name pattern. true;
  lines_of = λ path. some (text "import rsa" ∷ []);
  config = parsed (
      field (text "suppressions")
        (array (
          item
            (object (
              field (text "rule_id") (string (text "all"))
                (field (text "reason") (string (text "vectors")) no_fields)))
            no_items))
        no_fields);
  to_text = λ v. [];
}

abbrev pub configured : List Suppression
configured =
    record {
      rule_id = text "all";
      reason = text "vectors";
      source = text "quantumguard.toml";
      path = none;
      expires = none;
    }
    ∷ []

-- The suppression is read.
pub outside_loads : load_config_suppressions outside ≡ some (configured, [])
unfolding load_config_suppressions config_entry truthy list_beq is_space
outside_loads = refl

abbrev pub dependencies : List Dependency
dependencies =
    record {
      name = text "PyJWT";
      version = some (text "2.8");
      manifest = text "requirements.txt";
      ecosystem = text "pypi";
      direct = true;
    }
    ∷ record {
      name = text "requests";
      version = none;
      manifest = text "requirements.txt";
      ecosystem = text "pypi";
      direct = true;
    }
    ∷ []
