-- ===== src/Reporting/Cyclonedx/Crypto.antt =====
-- `_cyclonedx_crypto_properties` of src/quantumguard/reporting.py.
use pqcensus.Base.{
  Option, none, some, List, [], ◌∷◌, ◌++◌, Text, text, ◌==◌, ◌||◌, ◌&&◌, nat_eq, list_eq,
  if◌then◌else◌,
}
use pqcensus.Base.Dict.{lookup}
use pqcensus.Base.Json.{Json, string, document, strings}
use pqcensus.Serialized.{entry_if}

-- The primitive of a purpose that has one.
unfoldable pub purpose_primitive : Text → Option Text
unfolding lookup
purpose_primitive purpose = lookup purpose (
    (text "SIGNATURE", text "signature")
    ∷ (text "HASHING", text "hash")
    ∷ (text "MAC", text "mac")
    ∷ (text "KDF", text "kdf")
    ∷ [])

-- The variable `primitive`.
unfoldable pub primitive_of : Text → Text → Text
unfolding purpose_primitive
primitive_of algorithm purpose = elim (purpose_primitive purpose) [
  | some primitive ↦ primitive
  | none ↦
      if algorithm == text "ML-KEM"
      then text "kem"
      else if (algorithm == text "RSA"
          && (purpose == text "ENCRYPTION" || purpose == text "KEY_ESTABLISHMENT"))
      then text "pke"
      else if purpose == text "KEY_ESTABLISHMENT"
      then text "key-agree"
      else text "unknown"
]

-- The variable `family`; no entry but that of RSA is empty or `None`.
unfoldable pub family_of : Text → Option Text
unfolding lookup
family_of algorithm = lookup algorithm (
    (text "ECDSA", text "ECDSA")
    ∷ (text "ECDH", text "ECDH")
    ∷ (text "X25519", text "ECDH")
    ∷ (text "X448", text "ECDH")
    ∷ (text "EdDSA", text "EdDSA")
    ∷ (text "finite-field DH", text "FFDH")
    ∷ (text "ML-KEM", text "ML-KEM")
    ∷ (text "ML-DSA", text "ML-DSA")
    ∷ (text "SLH-DSA", text "SLH-DSA")
    ∷ (text "SHA-2/SHA-3", text "SHA-2")
    ∷ (text "HMAC", text "HMAC")
    ∷ [])

-- The functions of a purpose that has some.
unfoldable pub purpose_functions : Text → Option (List Text)
unfolding lookup
purpose_functions purpose = lookup purpose (
    (text "SIGNATURE", text "sign" ∷ text "verify" ∷ [])
    ∷ (text "ENCRYPTION", text "encrypt" ∷ text "decrypt" ∷ [])
    ∷ (text "HASHING", text "digest" ∷ [])
    ∷ (text "MAC", text "tag" ∷ [])
    ∷ (text "KDF", text "keyderive" ∷ [])
    ∷ [])

-- The variable `functions`.
unfoldable pub functions_of : Text → Text → List Text
unfolding purpose_functions
functions_of algorithm purpose = elim (purpose_functions purpose) [
  | some functions ↦ functions
  | none ↦
      if algorithm == text "ML-KEM"
      then text "encapsulate" ∷ text "decapsulate" ∷ []
      else text "other" ∷ []
]

unfoldable pub curve_of : Text → Option Text
unfolding lookup
curve_of algorithm =
    lookup algorithm
      ((text "X25519", text "other/Curve25519") ∷ (text "X448", text "other/Curve448") ∷ [])

unfoldable pub crypto_properties : Text → Text → Json
unfolding document strings primitive_of functions_of family_of curve_of entry_if
crypto_properties algorithm purpose =
    if algorithm == text "TLS"
    then document (
        (text "assetType", string (text "protocol"))
        ∷ (text "protocolProperties", document ((text "type", string (text "tls")) ∷ []))
        ∷ [])
    else document (
        (text "assetType", string (text "algorithm"))
        ∷ (
          text "algorithmProperties",
          document (
              (text "primitive", string (primitive_of algorithm purpose))
                ∷ (text "cryptoFunctions", strings (functions_of algorithm purpose))
                ∷ entry_if (text "algorithmFamily") string (family_of algorithm)
              ++ entry_if (text "ellipticCurve") string (curve_of algorithm)),
        )
        ∷ [])
