-- ===== src/Reporting/Cyclonedx.antt =====
-- `cyclonedx_cbom_document` of src/quantumguard/reporting.py.
pub mod Crypto
pub mod Refs
use pqcensus.Base.{
  given_text, ℕ, Bool, true, false, Option, none, some, List, [], ◌∷◌, ◌++◌, Text, text, map, join,
  lower, take, decimal, nat_eq, list_eq,
}
use pqcensus.Base.Sort.{sorted, nat_ord, list_ord, pair_ord}
use pqcensus.Base.Dict.{Dict, lookup, insert}
use pqcensus.Base.Json.{Json, string, document, list_json, strings, number}
use pqcensus.Model.{SourceSpan}
use pqcensus.Model.Result.{CryptoAsset, Dependency}
use pqcensus.Model.Values.{purpose_value, confidence_value, quantum_status_value}
use pqcensus.Audit.Complete.{AuditResult}
use pqcensus.Serialized.{entry_if}
use pqcensus.Reporting.Inventory.{inventory_sha256}
use pqcensus.Reporting.Cyclonedx.Crypto.{crypto_properties}

-- A component: its "bom-ref", and its other entries.
pub record BomComponent : Type 0 where
  pub bom_ref : Text
  pub entries : List (Text × Json)

unfoldable pub component_json : BomComponent → Json
unfolding document
component_json c = document ((text "bom-ref", string c.bom_ref) ∷ c.entries)

-- A property of the compatibility namespace.
unfoldable pub property : Text → Text → Json
unfolding document
property name value =
    document
      ((text "name", string (text "quantumguard:" ++ name)) ∷ (text "value", string value) ∷ [])

-- `f"{version}"`
unfoldable pub version_text : Option Text → Text
version_text none = text "None"
version_text (some t) = t

-- `str(flag).lower()`
unfoldable pub flag_text : Bool → Text
flag_text true = text "true"
flag_text false = text "false"

-- `children.setdefault(ref, []).append(child)`
unfoldable pub append_to : Text → Text → Dict Text (List Text) → Dict Text (List Text)
unfolding lookup insert
append_to ref child children = elim (lookup ref children) [
  | none ↦ insert ref (child ∷ []) children
  | some present ↦ insert ref (present ++ child ∷ []) children
]

unfoldable pub asset_ref : CryptoAsset → Text
asset_ref a = text "urn:quantumguard:crypto-asset:" ++ a.asset_id

-- The line of a span, as text.
unfoldable pub line_property : Option SourceSpan → List Json
unfolding property decimal
line_property none = []
line_property (some span) = property (text "source-line") (decimal span.start_line) ∷ []

unfoldable pub path_property : Option Text → List Json
unfolding property
path_property none = []
path_property (some path) = property (text "source-path") path ∷ []

-- The component of an asset with an algorithm.
unfoldable pub asset_component : CryptoAsset → Text → BomComponent
unfolding asset_ref crypto_properties purpose_value quantum_status_value confidence_value property
    path_property line_property given_text join list_json
asset_component a algorithm = record {
  bom_ref = asset_ref a;
  entries =
      (text "type", string (text "cryptographic-asset"))
      ∷ (text "name", string a.name)
      ∷ (text "cryptoProperties", crypto_properties algorithm (purpose_value a.purpose))
      ∷ (
        text "properties",
        list_json (
            property (text "asset-id") a.asset_id
              ∷ property (text "purpose") (purpose_value a.purpose)
              ∷ property (text "quantum-status") (quantum_status_value a.quantum_status)
              ∷ property (text "confidence") (confidence_value a.confidence)
              ∷ property (text "provenance") (join (text ",") a.provenance)
              ∷ path_property (given_text a.source_path)
            ++ line_property a.span),
      )
      ∷ [];
}

-- What the loop over the assets appends to `components`.
unfoldable pub asset_components : List CryptoAsset → List BomComponent
unfolding asset_component given_text
asset_components [] = []
asset_components (a ∷ assets) =
    let rest = asset_components assets in
    elim (given_text a.algorithm) [
      | none ↦ rest
      | some algorithm ↦ asset_component a algorithm ∷ rest
    ]

-- The reference of the dependency that an asset names, if it is known.
unfoldable pub dependency_of : Dict Text Text → CryptoAsset → Option Text
unfolding given_text lookup lower
dependency_of refs a = elim (given_text a.dependency) [
  | none ↦ none
  | some name ↦ lookup (lower name) refs
]

-- What an asset with an algorithm adds to `asset_dependencies`.
unfoldable pub add_asset :
    Dict Text Text → CryptoAsset → Dict Text (List Text) → Dict Text (List Text)
unfolding given_text dependency_of append_to asset_ref
add_asset refs a children = elim (given_text a.algorithm) [
  | none ↦ children
  | some algorithm ↦ elim (dependency_of refs a) [
    | none ↦ children
    | some ref ↦ append_to ref (asset_ref a) children
  ]
]

-- The loop over the assets, for `asset_dependencies`.
unfoldable pub add_assets :
    Dict Text Text → List CryptoAsset → Dict Text (List Text) → Dict Text (List Text)
unfolding add_asset
add_assets refs [] children = children
add_assets refs (a ∷ assets) children = add_assets refs assets (add_asset refs a children)

-- An entry of "dependencies".
unfoldable pub dependency_json : Text × List Text → Json
unfolding document strings
dependency_json d = document ((text "ref", string d.0) ∷ (text "dependsOn", strings d.1) ∷ [])

-- `sha256` is the digest of a text's UTF-8 in hexadecimal.
module _ (sha256 : Text → Text) where
  unfoldable pub application_ref : Text → Text
  application_ref repository = text "urn:quantumguard:application:" ++ take 20 (sha256 repository)

  -- The variable `bom_ref` of a dependency.
  unfoldable pub dependency_ref : Dependency → Text
  unfolding version_text join
  dependency_ref d =
      text "urn:quantumguard:dependency:"
      ++ take 20 (
          sha256
            (join (text "|") (d.ecosystem ∷ d.name ∷ version_text d.version ∷ d.manifest ∷ [])))

  unfoldable pub dependency_component : Dependency → BomComponent
  unfolding dependency_ref property flag_text entry_if given_text list_json
  dependency_component d = record {
    bom_ref = dependency_ref d;
    entries =
        (text "type", string (text "library"))
        ∷ (text "name", string d.name)
        ∷ (
          text "properties",
          list_json (
              property (text "ecosystem") d.ecosystem
              ∷ property (text "manifest") d.manifest
              ∷ property (text "direct") (flag_text d.direct)
              ∷ []),
        )
        ∷ entry_if (text "version") string (given_text d.version);
  }

  -- The loop over the dependencies, for `dependency_refs`.
  unfoldable pub dependency_refs : Dict Text Text → List Dependency → Dict Text Text
  unfolding insert lower dependency_ref
  dependency_refs refs [] = refs
  dependency_refs refs (d ∷ ds) = dependency_refs (insert (lower d.name) (dependency_ref d) refs) ds

  -- The variable `components`, before it is sorted.
  unfoldable pub bom_components : AuditResult → List BomComponent
  unfolding dependency_component asset_components
  bom_components r = map dependency_component r.dependencies ++ asset_components r.assets

  -- The variable `asset_dependencies`.
  unfoldable pub asset_dependencies : AuditResult → Dict Text (List Text)
  unfolding add_assets dependency_refs
  asset_dependencies r = add_assets (dependency_refs [] r.dependencies) r.assets []

  -- The values of "components" and of "dependencies".
  unfoldable pub cyclonedx_components : AuditResult → List BomComponent
  unfolding bom_components sorted
  cyclonedx_components r = sorted (λ c. c.bom_ref) (bom_components r)

  unfoldable pub cyclonedx_dependencies : AuditResult → List (Text × List Text)
  unfolding application_ref bom_components asset_dependencies sorted
  cyclonedx_dependencies r =
      (application_ref r.repository, sorted (λ t. t) (map (λ c. c.bom_ref) (bom_components r)))
      ∷ map (λ d. (d.0, sorted (λ t. t) d.1)) (sorted (λ d. d) (asset_dependencies r))

-- `canonical_json` is the one of the models, and `uuid5` is `uuid.uuid5` of the namespace of URLs.
module _ (sha256 : Text → Text) (canonical_json : Json → Text) (uuid5 : Text → Text) where
  unfoldable pub serial_number : AuditResult → Text
  unfolding inventory_sha256
  serial_number r =
      text "urn:uuid:"
      ++ uuid5 (
          text "quantumguard:"
          ++ r.repository
          ++ text ":"
          ++ inventory_sha256 sha256 canonical_json r)

  unfoldable pub cyclonedx_document : AuditResult → Json
  unfolding document list_json number serial_number application_ref property inventory_sha256
      cyclonedx_components component_json cyclonedx_dependencies dependency_json
  cyclonedx_document r = document (
      (text "$schema", string (text "https://cyclonedx.org/schema/bom-1.7.schema.json"))
      ∷ (text "bomFormat", string (text "CycloneDX"))
      ∷ (text "specVersion", string (text "1.7"))
      ∷ (text "serialNumber", string (serial_number r))
      ∷ (text "version", number 1)
      ∷ (
        text "metadata",
        document (
            (
              text "component",
              document (
                  (text "bom-ref", string (application_ref sha256 r.repository))
                  ∷ (text "type", string (text "application"))
                  ∷ (text "name", string r.repository)
                  ∷ (text "version", string r.generated_by)
                  ∷ []),
            )
            ∷ (
              text "properties",
              list_json (
                  document (
                    (text "name", string (text "pqcensus:producer"))
                    ∷ (text "value", string (text "PQCensus"))
                    ∷ [])
                  ∷ property (text "inventory-sha256") (inventory_sha256 sha256 canonical_json r)
                  ∷ property (text "source-stays-local") (text "true")
                  ∷ []),
            )
            ∷ []),
      )
      ∷ (text "components", list_json (map component_json (cyclonedx_components sha256 r)))
      ∷ (text "dependencies", list_json (map dependency_json (cyclonedx_dependencies sha256 r)))
      ∷ [])
