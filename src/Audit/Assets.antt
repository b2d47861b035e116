-- ===== src/Audit/Assets.antt =====
-- `_assets` and `_finding_dependency` of src/quantumguard/api.py: the assets of the findings and of the
-- dependencies that are libraries of cryptography.
pub mod Kept
use pqcensus.Base.{
  Bool, true, false, ◌&&◌, ◌||◌, not, any, Option, none, some, List, [], ◌∷◌, ◌++◌, Text, text,
  lower, map, keep, occurs, contains, join, take, decimal, ◌==◌, nat_eq, list_eq, if◌then◌else◌,
}
use pqcensus.Base.Dict.Indexed.{index_by}
use pqcensus.Base.Sort.{sorted, nat_ord, list_ord, pair_ord}
use pqcensus.Model.{Finding, Purpose, Confidence, Evidence, QuantumStatus}
use pqcensus.Model.Result.{CryptoAsset, Dependency}
use pqcensus.Model.Values.{purpose_value, is_encodable}
use pqcensus.Policy.{algorithm_status}
use pqcensus.Dependencies.{crypto_dependency}
use pqcensus.Cli.{distinct}

-- The variable `detail` of `_finding_dependency`.
unfoldable pub details : Finding → Text
unfolding join lower
details f = join (text " ") (map (λ e. lower e.detail) f.evidence)

-- The tests of the loop of `_finding_dependency`.
unfoldable pub is_candidate : Text → Text → Bool
unfolding occurs contains
is_candidate detail name =
    (occurs (text "call=jwt.") detail && contains (text "pyjwt" ∷ text "jwt" ∷ []) name)
    || (occurs (text "call=crypto.") detail && occurs (text "pycryptodome") name)
    || (occurs (text "call=cryptography.") detail && (name == text "cryptography"))

head_or_none : List Text → Option Text
head_or_none [] = none
head_or_none (t ∷ ts) = some t

-- The only one of a list.
only_one : List Text → Option Text
only_one (t ∷ []) = some t
only_one _ = none

-- `_finding_dependency`
unfoldable pub finding_dependency : Finding → List Dependency → Option Text
unfolding details is_candidate keep sorted lower head_or_none only_one crypto_dependency distinct
finding_dependency f dependencies =
    elim (keep (λ d. is_candidate (details f) (lower d.name)) dependencies) [
      | d ∷ ds ↦ head_or_none (sorted lower (map (λ c. c.name) (d ∷ ds)))
      | [] ↦ only_one (
          sorted lower
            (distinct (map (λ c. c.name) (keep (λ c. crypto_dependency c.name) dependencies))))
    ]

-- The variable `asset_type` for a finding.
unfoldable pub asset_type_of : Finding → Text
asset_type_of f = elim f.purpose as (λ p. Text) [
  | Purpose.signature ↦ text "signing-workflow"
  | Purpose.key_establishment ↦ text "kem-key-establishment-workflow"
  | _ ↦
      if f.category == text "protocol-configuration"
      then text "protocol-configuration"
      else text "algorithm-use"
]

-- What an f-string makes of a version: `None` for none.
unfoldable pub version_text : Option Text → Text
version_text none = text "None"
version_text (some t) = t

-- The key of the order of assets.
unfoldable pub asset_key : CryptoAsset → Text × (Text × Text)
asset_key a = (a.asset_type, (a.name, a.asset_id))

-- Whether `_assets` raises a `UnicodeEncodeError`: at a finding's algorithm or path, or at what names a
-- library.
unfoldable pub assets_raise : List Finding → List Dependency → Bool
unfolding is_encodable any keep crypto_dependency version_text
assets_raise fs dependencies =
    any (λ f. not (is_encodable f.algorithm && is_encodable f.source_path)) fs
    || any
        (λ d. not (
          is_encodable d.ecosystem
          && is_encodable d.name
          && is_encodable (version_text d.version)
          && is_encodable d.manifest))
        (keep (λ d. crypto_dependency d.name) dependencies)

module _ (sha256 : Text → Text) where
  unfoldable pub asset_id_of : List Text → Text
  unfolding join
  asset_id_of parts = text "QGA-" ++ take 20 (sha256 (join (text "|") parts))

  -- The asset of a finding.
  unfoldable pub finding_asset : List Dependency → Finding → CryptoAsset
  unfolding asset_id_of asset_type_of finding_dependency purpose_value decimal
  finding_asset dependencies f = record {
    asset_id = asset_id_of (
        asset_type_of f
        ∷ f.algorithm
        ∷ purpose_value f.purpose
        ∷ f.source_path
        ∷ decimal f.span.start_line
        ∷ []);
    asset_type = asset_type_of f;
    name = f.algorithm ++ text " " ++ lower (purpose_value f.purpose);
    algorithm = some f.algorithm;
    purpose = f.purpose;
    source_path = some f.source_path;
    span = some f.span;
    dependency = finding_dependency f dependencies;
    quantum_status = algorithm_status f.algorithm;
    provenance = f.finding_id ∷ f.analyzer ∷ [];
    confidence = f.confidence;
  }

  -- The asset of a library.
  unfoldable pub library_asset : Dependency → CryptoAsset
  unfolding asset_id_of version_text
  library_asset d = record {
    asset_id =
        asset_id_of
          (text "crypto-library" ∷ d.ecosystem ∷ d.name ∷ version_text d.version ∷ d.manifest ∷ []);
    asset_type = text "crypto-library";
    name = d.name;
    algorithm = none;
    purpose = Purpose.unknown;
    source_path = some d.manifest;
    span = none;
    dependency = some d.name;
    quantum_status = QuantumStatus.unknown;
    provenance = (text "dependency:" ++ d.manifest) ∷ [];
    confidence = Confidence.high;
  }

  -- The assets in the order in which they are written into the dict.
  unfoldable pub written_assets : List Finding → List Dependency → List CryptoAsset
  unfolding finding_asset library_asset keep crypto_dependency
  written_assets fs dependencies =
      map (finding_asset dependencies) fs
      ++ map library_asset (keep (λ d. crypto_dependency d.name) dependencies)

  -- `_assets`
  unfoldable pub assets : List Finding → List Dependency → List CryptoAsset
  unfolding written_assets index_by sorted asset_key
  assets fs dependencies =
      sorted asset_key (index_by (λ a. a.asset_id) (written_assets fs dependencies))
