-- ===== src/Agility.antt =====
-- src/quantumguard/agility.py: the score of crypto agility, of signals in findings, dependencies and
-- source texts.
pub mod Components
pub mod Scores
pub mod Growth
use pqcensus.Base.{
  ℕ, ◌+◌, ◌/◌, ◌%◌, Bool, true, false, ◌&&◌, ◌||◌, not, Option, none, some, List, [], ◌∷◌, ◌++◌,
  Text, text, lower, map, keep, any, count, contains, occurs, ends_with, join, decimal, non_empty,
  length, nat_beq, ltb, nat_eq, list_eq, ◌==◌, if◌then◌else◌,
}
use pqcensus.Base.Sort.{sorted, nat_ord, list_ord}
use pqcensus.Model.{Finding, Evidence}
use pqcensus.Model.Result.{Dependency}
use pqcensus.Util.Paths.{path_suffix}

abbrev signal_extensions : List Text
signal_extensions =
    text ".py"
    ∷ text ".pyw"
    ∷ text ".js"
    ∷ text ".jsx"
    ∷ text ".ts"
    ∷ text ".tsx"
    ∷ text ".go"
    ∷ text ".java"
    ∷ text ".rs"
    ∷ text ".c"
    ∷ text ".h"
    ∷ text ".cc"
    ∷ text ".cpp"
    ∷ text ".cxx"
    ∷ text ".hpp"
    ∷ text ".toml"
    ∷ text ".yaml"
    ∷ text ".yml"
    ∷ []

abbrev crypto_tokens : List Text
crypto_tokens =
    text "crypto"
    ∷ text "ssl"
    ∷ text "tls"
    ∷ text "jwt"
    ∷ text "jose"
    ∷ text "openssl"
    ∷ text "bouncycastle"
    ∷ text "cryptography"
    ∷ text "libsodium"
    ∷ text "nacl"
    ∷ []

-- `_crypto_dependency`
unfoldable pub is_crypto_dependency : Text → Bool
unfolding any occurs lower
is_crypto_dependency name = any (λ token. occurs token (lower name)) crypto_tokens

-- A path and a text.
abbrev pub SourceText : Type 0
SourceText = Text × Text

unfoldable pub is_signal_file : SourceText → Bool
unfolding contains path_suffix lower
is_signal_file s = contains signal_extensions (lower (path_suffix s.0))

unfoldable pub signal_texts : List SourceText → Text
unfolding is_signal_file keep join lower
signal_texts sources = join (text "\n") (map (λ s. lower s.1) (keep is_signal_file sources))

-- `any(word in signal_texts for word in words)`
unfoldable pub has_signal : List Text → Text → Bool
unfolding any occurs
has_signal words t = any (λ word. occurs word t) words

abbrev pub negotiation_words : List Text
negotiation_words =
    text "hybrid"
    ∷ text "negotiate"
    ∷ text "algorithm_preference"
    ∷ text "supported_algorithms"
    ∷ []

abbrev pub dual_words : List Text
dual_words = text "dual_sign" ∷ text "dual_verify" ∷ text "hybrid" ∷ text "legacy_fallback" ∷ []

abbrev pub key_words : List Text
key_words = text "rotate_key" ∷ text "key_rotation" ∷ text "key_version" ∷ []

abbrev pub certificate_words : List Text
certificate_words =
    text "rotate_certificate" ∷ text "certificate_rotation" ∷ text "renew_certificate" ∷ []

-- `evidence.evidence_type in {"ast_call", "token"}`
unfoldable pub is_hard_coded : Evidence → Bool
unfolding contains
is_hard_coded e = contains (text "ast_call" ∷ text "token" ∷ []) e.evidence_type

-- The variable `hard_coded`.
unfoldable pub hard_coded_count : List Finding → ℕ
unfolding is_hard_coded count
hard_coded_count [] = 0
hard_coded_count (f ∷ fs) = count is_hard_coded f.evidence + hard_coded_count fs

-- The variable `configured`.
unfoldable pub configured_count : List Finding → ℕ
unfolding count
configured_count = count (λ f. f.analyzer == text "structured-config")

unfoldable pub is_central_path : Text → Bool
unfolding any occurs lower
is_central_path path =
    any (λ signal. occurs signal (lower path))
      (text "crypto_provider"
        ∷ text "cryptopolicy"
        ∷ text "crypto_policy"
        ∷ text "security/crypto"
        ∷ [])

-- The variable `centralized_paths`.
unfoldable pub centralized_paths : List SourceText → List Text
unfolding is_central_path keep sorted
centralized_paths sources = sorted (λ path. path) (keep is_central_path (map (λ s. s.0) sources))

-- The variable `policy_centralization`.
unfoldable pub has_policy : List SourceText → Bool
unfolding centralized_paths any ends_with
has_policy sources = elim (centralized_paths sources) [
  | path ∷ paths ↦ true
  | [] ↦ any (λ s. ends_with (text "quantumguard.toml") s.0) sources
]

-- `bool(dep.version and dep.version not in {"*", "latest"})`
unfoldable pub is_pinned : Dependency → Bool
unfolding contains
is_pinned d = elim d.version [
  | none ↦ false
  | some version ↦ non_empty version && not (contains (text "*" ∷ text "latest" ∷ []) version)
]
