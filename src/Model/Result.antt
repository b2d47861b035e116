-- ===== src/Model/Result.antt =====
-- src/quantumguard/models.py: assets, migration plans, dependencies, and the result of an audit.
use pqcensus.Base.{Bool, Option, List, Text}
use pqcensus.Model.{Purpose, Confidence, SourceSpan, QuantumStatus}

pub record CryptoAsset : Type 0 where
  pub asset_id : Text
  pub asset_type : Text
  pub name : Text
  pub algorithm : Option Text
  pub purpose : Purpose
  pub source_path : Option Text
  pub span : Option SourceSpan
  pub dependency : Option Text
  pub quantum_status : QuantumStatus
  pub provenance : List Text
  pub confidence : Confidence

pub record MigrationPlan : Type 0 where
  pub plan_id : Text
  pub finding_id : Text
  pub source_path : Text
  pub purpose : Purpose
  pub current_primitive : Text
  pub recommended_targets : List Text
  pub target_class : Text
  pub compatibility_constraints : List Text
  pub required_abstraction_changes : List Text
  pub deployment_ordering : List Text
  pub rollback_considerations : List Text
  pub verification_steps : List Text
  pub urgency : Text
  pub confidence : Confidence
  pub unresolved_unknowns : List Text
  pub references : List Text

pub record Dependency : Type 0 where
  pub name : Text
  pub version : Option Text
  pub manifest : Text
  pub ecosystem : Text
  pub direct : Bool
