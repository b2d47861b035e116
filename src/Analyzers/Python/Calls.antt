-- ===== src/Analyzers/Python/Calls.antt =====
-- `_classify_call` of src/quantumguard/analyzers/python.py, up to the protocols: what the normalized
-- name of a call says.
use pqcensus.Base.{
  Bool, ◌&&◌, ◌||◌, Option, none, some, List, [], ◌∷◌, ◌++◌, Text, text, upper, any, occurs,
  starts_with, ends_with, nat_eq, list_eq, ◌==◌, if◌then◌else◌,
}
use pqcensus.Model.{Purpose, Confidence}

-- What `_classify_call` returns where the algorithm is not `None`.
pub record Observation : Type 0 where
  pub algorithm : Text
  pub purpose : Purpose
  pub detail : Text
  pub confidence : Confidence

-- `name.endswith((...))`
unfoldable pub ends_in : Text → List Text → Bool
unfolding any ends_with
ends_in t ends = any (λ s. ends_with s t) ends

-- `any(word in name for word in words)`
unfoldable pub holds_any : Text → List Text → Bool
unfolding any occurs
holds_any t words = any (λ w. occurs w t) words

abbrev pub sure : Text → Purpose → Text → Observation
sure algorithm purpose detail = record {
  algorithm = algorithm;
  purpose = purpose;
  detail = detail;
  confidence = Confidence.high;
}

abbrev pub fair : Text → Purpose → Text → Observation
fair algorithm purpose detail = record {
  algorithm = algorithm;
  purpose = purpose;
  detail = detail;
  confidence = Confidence.medium;
}

abbrev pub weak : Text → Purpose → Text → Observation
weak algorithm purpose detail = record {
  algorithm = algorithm;
  purpose = purpose;
  detail = detail;
  confidence = Confidence.low;
}

-- The branch for encoding a token, of the algorithm that is found.
unfoldable pub encoded_token : Text → Option Observation
unfolding starts_with
encoded_token alg =
    if starts_with (text "RS") alg || starts_with (text "PS") alg
    then some (sure (text "RSA") Purpose.signature (text "JWT algorithm " ++ alg))
    else if starts_with (text "ES") alg
    then some (sure (text "ECDSA") Purpose.signature (text "JWT algorithm " ++ alg))
    else if alg == text "EDDSA"
    then some (sure (text "EdDSA") Purpose.signature (text "JWT algorithm EdDSA"))
    else if starts_with (text "HS") alg
    then some (sure (text "HMAC") Purpose.mac (text "JWT algorithm " ++ alg))
    else none

-- A value of the loop for decoding a token, in upper case.
unfoldable pub decoded_value : Text → Option Observation
unfolding starts_with
decoded_value alg =
    if starts_with (text "RS") alg || starts_with (text "PS") alg
    then some (sure (text "RSA") Purpose.signature (text "JWT verification algorithm " ++ alg))
    else if starts_with (text "ES") alg
    then some (sure (text "ECDSA") Purpose.signature (text "JWT verification algorithm " ++ alg))
    else if alg == text "EDDSA"
    then some (sure (text "EdDSA") Purpose.signature (text "JWT verification algorithm EdDSA"))
    else if starts_with (text "HS") alg
    then some (sure (text "HMAC") Purpose.mac (text "JWT verification algorithm " ++ alg))
    else none

unfoldable pub decoded_token : List Text → Option Observation
unfolding decoded_value upper
decoded_token [] = none
decoded_token (value ∷ values) = elim (decoded_value (upper value)) [
  | none ↦ decoded_token values
  | some o ↦ some o
]

-- `if test: return observation`, one after the other.
unfoldable pub first_branch : List (Bool × Observation) → Option Observation
first_branch [] = none
first_branch ((test, o) ∷ branches) = if test then some o else first_branch branches

-- The branches for RSA.
unfoldable pub rsa_branches : Text → List (Bool × Observation)
unfolding ends_in holds_any
rsa_branches n =
    (
      ends_in n (text "PADDING.OAEP" ∷ text "PKCS1OAEP.NEW" ∷ []),
      sure (text "RSA") Purpose.encryption (text "RSA OAEP encryption/key transport padding"),
    )
    ∷ (
      ends_in n (text "PADDING.PSS" ∷ text "PADDING.PKCS1V15" ∷ []),
      sure (text "RSA") Purpose.signature (text "RSA signature padding"),
    )
    ∷ (
      ends_in n (text "RSA.GENERATEPRIVATEKEY" ∷ text "RSA.GENERATE" ∷ []),
      fair (text "RSA") Purpose.unknown (text "RSA key generation; downstream purpose not visible"),
    )
    ∷ (
      ends_in n (text "RSA.SIGN" ∷ text "PRIVATEKEY.SIGN" ∷ []) && occurs (text "RSA") n,
      fair (text "RSA") Purpose.signature (text "RSA signing call"),
    )
    ∷ (
      occurs (text "RSAPSS") n || occurs (text "RSASSA") n,
      sure (text "RSA") Purpose.signature (text "RSA signature primitive"),
    )
    ∷ (
      occurs (text "RSA") n && holds_any n (text "ENCRYPT" ∷ text "OAEP" ∷ []),
      sure (text "RSA") Purpose.encryption (text "RSA encryption/key transport call"),
    )
    ∷ []

unfoldable pub rsa_call : Text → Option Observation
unfolding first_branch rsa_branches
rsa_call n = first_branch (rsa_branches n)

-- The branches for elliptic curves.
unfoldable pub curve_branches : Text → List (Bool × Observation)
unfolding ends_in
curve_branches n =
    (
      ends_in n (text "ECDSA" ∷ text "ECDSA.SIGN" ∷ text "ECDSA.VERIFY" ∷ []),
      sure (text "ECDSA") Purpose.signature (text "ECDSA signature context"),
    )
    ∷ (
      ends_in n (
          text "SIGNINGKEY.FROMPEM"
          ∷ text "VERIFYINGKEY.FROMPEM"
          ∷ text "SIGNINGKEY.FROMSECRETEXPONENT"
          ∷ text "VERIFYINGKEY.FROMPUBLICPOINT"
          ∷ []),
      fair (text "ECDSA") Purpose.unknown
          (text "ECDSA key material operation; downstream purpose is not visible"),
    )
    ∷ (
      ends_in n (text "ELLIPTICCURVE.POINT" ∷ text "ECDSA.POINTISVALID" ∷ []),
      weak (text "ECDSA") Purpose.unknown
          (text "ECDSA mathematical/key operation; downstream purpose is not visible"),
    )
    ∷ (
      ends_in n (text "ECDH" ∷ text "ECDH.EXCHANGE" ∷ []) || occurs (text "ECDH") n,
      sure (text "ECDH") Purpose.key_establishment (text "ECDH key agreement context"),
    )
    ∷ (
      ends_in n (
          text "EC.GENERATEPRIVATEKEY"
          ∷ text "EC.SECP256R1"
          ∷ text "EC.SECP384R1"
          ∷ text "EC.SECP521R1"
          ∷ []),
      weak (text "ECDSA") Purpose.unknown
          (text "elliptic-curve key operation; purpose not visible"),
    )
    ∷ []

unfoldable pub curve_call : Text → Option Observation
unfolding first_branch curve_branches
curve_call n = first_branch (curve_branches n)

-- The branch for X25519 and X448.
unfoldable pub montgomery_call : Text → Observation
unfolding holds_any
montgomery_call n =
    let algorithm = if occurs (text "X25519") n then text "X25519" else text "X448" in
    if holds_any n (text "EXCHANGE" ∷ text "PRIVATEKEY" ∷ text "PUBLICKEY" ∷ text "GENERATE" ∷ [])
    then sure algorithm Purpose.key_establishment (algorithm ++ text " operation")
    else fair algorithm Purpose.unknown (algorithm ++ text " operation")

-- The branches behind those for elliptic curves, up to the derivation of keys.
unfoldable pub other_branches : Text → List (Bool × Observation)
unfolding ends_in holds_any montgomery_call
other_branches n =
    (holds_any n (text "X25519" ∷ text "X448" ∷ []), montgomery_call n)
    ∷ (
      holds_any n (text "ED25519" ∷ text "ED448" ∷ text "EDDSA" ∷ []),
      sure (text "EdDSA") Purpose.signature (text "EdDSA signature operation"),
    )
    ∷ (
      occurs (text "SLHDSA") n,
      sure (text "SLH-DSA") Purpose.signature (text "SLH-DSA signature operation"),
    )
    ∷ (
      occurs (text "DH.GENERATE") n || ends_in n (text "DH" ∷ text "DH.EXCHANGE" ∷ []),
      sure (text "finite-field DH") Purpose.key_establishment
          (text "finite-field Diffie-Hellman operation"),
    )
    ∷ (
      ends_in n (
          text "HASHLIB.SHA256"
          ∷ text "HASHLIB.SHA384"
          ∷ text "HASHLIB.SHA512"
          ∷ text "SHA256"
          ∷ text "SHA384"
          ∷ text "SHA512"
          ∷ []),
      sure (text "SHA-2/SHA-3") Purpose.hashing (text "hash constructor"),
    )
    ∷ []

-- The branches for codes of authentication and the derivation of keys, in this order.
unfoldable pub mac_branches : Text → List (Bool × Observation)
unfolding ends_in
mac_branches n =
    (
      ends_with (text "HMAC.NEW") n || ends_with (text "HMAC") n,
      sure (text "HMAC") Purpose.mac (text "HMAC construction"),
    )
    ∷ (
      ends_in n (text "HKDF" ∷ text "PBKDF2HMAC" ∷ text "SCRYPT" ∷ []),
      fair (text "SHA-2/SHA-3") Purpose.kdf (text "key derivation construction"),
    )
    ∷ []

unfoldable pub other_call : Text → Option Observation
unfolding first_branch other_branches mac_branches
other_call n = first_branch (other_branches n ++ mac_branches n)
