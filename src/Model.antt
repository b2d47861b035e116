-- ===== src/Model.antt =====
-- src/quantumguard/models.py: the enumerations, and a finding with its span and evidence. The
-- record of a suppression (src/quantumguard/suppression.py) stands here too, since a finding holds
-- one. Where the source writes one of a few fixed strings into a field, the field has a data type
-- and `value` gives the string.
pub mod Result
pub mod Values
use pqcensus.Base.{ℕ, Bool, Option, List, Text}

pub data Purpose : Type 0 where
  signature key_establishment encryption hashing mac kdf certificate unknown : Purpose

pub data Confidence : Type 0 where
  high medium low unknown : Confidence

pub data Severity : Type 0 where
  info low medium high critical : Severity

-- What `algorithm_status` returns, and the field `quantum_risk`.
pub data QuantumStatus : Type 0 where
  shor_vulnerable pqc_standard insecure_config not_shor_target unknown : QuantumStatus

pub data Environment : Type 0 where
  production test : Environment

pub data Status : Type 0 where
  active suppressed : Status

pub record SourceSpan : Type 0 where
  pub start_line : ℕ
  pub start_column : ℕ
  pub end_line : Option ℕ
  pub end_column : Option ℕ

pub record Evidence : Type 0 where
  pub evidence_type : Text
  pub detail : Text
  pub snippet_sha256 : Option Text
  pub references : List Text

pub record Suppression : Type 0 where
  pub rule_id : Text
  pub reason : Text
  pub source : Text
  pub path : Option Text
  pub expires : Option Text

pub record Finding : Type 0 where
  pub finding_id : Text
  pub rule_id : Text
  pub category : Text
  pub algorithm : Text
  pub purpose : Purpose
  pub source_path : Text
  pub span : SourceSpan
  pub symbol : Option Text
  pub evidence : List Evidence
  pub confidence : Confidence
  pub quantum_risk : QuantumStatus
  pub severity : Severity
  pub rationale : Text
  pub migration_target : List Text
  pub migration_confidence : Confidence
  pub references : List Text
  pub suppressible : Bool
  pub analyzer : Text
  pub environment : Environment
  pub status : Status
  pub suppression : Option Suppression
