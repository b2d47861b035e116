-- ===== src/Policy/Shipped.antt =====
-- rules/quantumguard-rules.json: the rules that the program ships, in the order of the file.
use pqcensus.Base.{List, [], ◌∷◌, text}
use pqcensus.Policy.{Rule}

abbrev pub shipped_rules : List Rule
shipped_rules =
    record {
      id = text "QG-RSA-SIGNATURE";
      category = text "public-key";
      algorithm_family = text "RSA";
      purposes = text "SIGNATURE" ∷ [];
      default_severity = text "HIGH";
      recommendation =
          text
            "Migrate the signature workflow to ML-DSA or SLH-DSA after protocol and certificate compatibility review.";
      migration_targets = text "ML-DSA" ∷ text "SLH-DSA" ∷ [];
      authority_ids = text "NIST.FIPS.204" ∷ text "NIST.FIPS.205" ∷ text "NIST.IR.8547.IPD" ∷ [];
    }
    ∷ record {
      id = text "QG-RSA-KEY-TRANSPORT";
      category = text "public-key";
      algorithm_family = text "RSA";
      purposes = text "ENCRYPTION" ∷ text "KEY_ESTABLISHMENT" ∷ [];
      default_severity = text "HIGH";
      recommendation =
          text
            "Migrate key establishment or key transport to ML-KEM or a supported hybrid protocol transition; do not substitute a signature algorithm.";
      migration_targets = text "ML-KEM" ∷ [];
      authority_ids = text "NIST.FIPS.203" ∷ text "NIST.SP.800-227" ∷ text "NIST.IR.8547.IPD" ∷ [];
    }
    ∷ record {
      id = text "QG-ECDSA-SIGNATURE";
      category = text "public-key";
      algorithm_family = text "ECDSA";
      purposes = text "SIGNATURE" ∷ text "CERTIFICATE" ∷ [];
      default_severity = text "HIGH";
      recommendation =
          text
            "Plan a certificate and signature migration to ML-DSA or SLH-DSA with verifier rollout before issuer changes.";
      migration_targets = text "ML-DSA" ∷ text "SLH-DSA" ∷ [];
      authority_ids = text "NIST.FIPS.204" ∷ text "NIST.FIPS.205" ∷ text "NIST.IR.8547.IPD" ∷ [];
    }
    ∷ record {
      id = text "QG-ECDH-KEY-ESTABLISHMENT";
      category = text "public-key";
      algorithm_family = text "ECDH";
      purposes = text "KEY_ESTABLISHMENT" ∷ [];
      default_severity = text "HIGH";
      recommendation =
          text
            "Use a protocol-aware hybrid transition candidate combining classical and ML-KEM key establishment before retiring ECDH.";
      migration_targets = text "ML-KEM" ∷ [];
      authority_ids = text "NIST.FIPS.203" ∷ text "NIST.SP.800-227" ∷ text "NIST.IR.8547.IPD" ∷ [];
    }
    ∷ record {
      id = text "QG-X25519-KEY-ESTABLISHMENT";
      category = text "public-key";
      algorithm_family = text "X25519";
      purposes = text "KEY_ESTABLISHMENT" ∷ [];
      default_severity = text "HIGH";
      recommendation =
          text
            "Assess a protocol-supported hybrid key-establishment transition using ML-KEM; X25519 is not a signature and must not map to ML-DSA.";
      migration_targets = text "ML-KEM" ∷ [];
      authority_ids = text "NIST.FIPS.203" ∷ text "NIST.SP.800-227" ∷ text "NIST.IR.8547.IPD" ∷ [];
    }
    ∷ record {
      id = text "QG-X448-KEY-ESTABLISHMENT";
      category = text "public-key";
      algorithm_family = text "X448";
      purposes = text "KEY_ESTABLISHMENT" ∷ [];
      default_severity = text "HIGH";
      recommendation =
          text
            "Assess a protocol-supported hybrid key-establishment transition using ML-KEM; X448 is not a signature and must not map to ML-DSA.";
      migration_targets = text "ML-KEM" ∷ [];
      authority_ids = text "NIST.FIPS.203" ∷ text "NIST.SP.800-227" ∷ text "NIST.IR.8547.IPD" ∷ [];
    }
    ∷ record {
      id = text "QG-DH-KEY-ESTABLISHMENT";
      category = text "public-key";
      algorithm_family = text "finite-field DH";
      purposes = text "KEY_ESTABLISHMENT" ∷ [];
      default_severity = text "HIGH";
      recommendation =
          text
            "Assess a protocol-supported hybrid transition to ML-KEM before retiring finite-field Diffie-Hellman.";
      migration_targets = text "ML-KEM" ∷ [];
      authority_ids = text "NIST.FIPS.203" ∷ text "NIST.SP.800-227" ∷ text "NIST.IR.8547.IPD" ∷ [];
    }
    ∷ record {
      id = text "QG-EDDSA-SIGNATURE";
      category = text "public-key";
      algorithm_family = text "EdDSA";
      purposes = text "SIGNATURE" ∷ text "CERTIFICATE" ∷ [];
      default_severity = text "HIGH";
      recommendation =
          text
            "Plan a verifier-first signature migration to ML-DSA or SLH-DSA; preserve certificate and software-signing compatibility constraints.";
      migration_targets = text "ML-DSA" ∷ text "SLH-DSA" ∷ [];
      authority_ids = text "NIST.FIPS.204" ∷ text "NIST.FIPS.205" ∷ text "NIST.IR.8547.IPD" ∷ [];
    }
    ∷ record {
      id = text "QG-ML-KEM";
      category = text "pqc";
      algorithm_family = text "ML-KEM";
      purposes = text "KEY_ESTABLISHMENT" ∷ text "ENCRYPTION" ∷ [];
      default_severity = text "INFO";
      recommendation =
          text
            "Record parameter set, protocol support, implementation validation, and fallback policy.";
      migration_targets = [];
      authority_ids = text "NIST.FIPS.203" ∷ text "NIST.SP.800-227" ∷ [];
    }
    ∷ record {
      id = text "QG-ML-DSA";
      category = text "pqc";
      algorithm_family = text "ML-DSA";
      purposes = text "SIGNATURE" ∷ text "CERTIFICATE" ∷ [];
      default_severity = text "INFO";
      recommendation =
          text
            "Record parameter set, verifier rollout, certificate profile, and key lifecycle controls.";
      migration_targets = [];
      authority_ids = text "NIST.FIPS.204" ∷ [];
    }
    ∷ record {
      id = text "QG-SLH-DSA";
      category = text "pqc";
      algorithm_family = text "SLH-DSA";
      purposes = text "SIGNATURE" ∷ text "CERTIFICATE" ∷ [];
      default_severity = text "INFO";
      recommendation =
          text "Record parameter set and signature-size/performance constraints before deployment.";
      migration_targets = [];
      authority_ids = text "NIST.FIPS.205" ∷ [];
    }
    ∷ record {
      id = text "QG-SYMMETRIC-HASH";
      category = text "symmetric";
      algorithm_family = text "SHA-2/SHA-3";
      purposes = text "HASHING" ∷ text "KDF" ∷ [];
      default_severity = text "INFO";
      recommendation =
          text
            "Do not treat ordinary SHA-256 use as equivalent to a Shor-vulnerable public-key finding; review output length and lifecycle requirements.";
      migration_targets = [];
      authority_ids = text "NIST.SP.800-57" ∷ [];
    }
    ∷ record {
      id = text "QG-HMAC";
      category = text "symmetric";
      algorithm_family = text "HMAC";
      purposes = text "MAC" ∷ [];
      default_severity = text "INFO";
      recommendation =
          text
            "Review key length and lifecycle; no blanket PQ replacement is implied by this finding.";
      migration_targets = [];
      authority_ids = text "NIST.SP.800-57" ∷ [];
    }
    ∷ record {
      id = text "QG-TLS-LEGACY-PROTOCOL";
      category = text "protocol-configuration";
      algorithm_family = text "TLS-legacy";
      purposes = text "UNKNOWN" ∷ [];
      default_severity = text "HIGH";
      recommendation =
          text
            "Replace the legacy or deprecated TLS protocol selection before planning post-quantum protocol migration.";
      migration_targets = [];
      authority_ids = text "QG.ENGINEERING" ∷ [];
    }
    ∷ record {
      id = text "QG-TLS-INSECURE-CONFIG";
      category = text "protocol-configuration";
      algorithm_family = text "TLS-insecure";
      purposes = text "UNKNOWN" ∷ [];
      default_severity = text "HIGH";
      recommendation =
          text
            "Restore certificate validation (default context) before planning any protocol-level migration.";
      migration_targets = [];
      authority_ids = text "QG.ENGINEERING" ∷ [];
    }
    ∷ record {
      id = text "QG-UNKNOWN-CRYPTO";
      category = text "evidence-gap";
      algorithm_family = text "*";
      purposes = text "UNKNOWN" ∷ [];
      default_severity = text "MEDIUM";
      recommendation =
          text
            "Resolve the cryptographic purpose and runtime/protocol context before selecting any migration target.";
      migration_targets = [];
      authority_ids = text "QG.ENGINEERING" ∷ [];
    }
    ∷ []
