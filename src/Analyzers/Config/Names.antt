-- ===== src/Analyzers/Config/Names.antt =====
-- src/quantumguard/analyzers/config.py: which keys are of interest, and `_classify`.
use pqcensus.Base.{
  Bool, ◌&&◌, ◌||◌, Option, none, some, List, [], ◌∷◌, Text, text, upper, lower, replace_char,
  starts_with, occurs, all, contains, non_empty, is_digit, nat_eq, list_eq, if◌then◌else◌,
}
use pqcensus.Model.{Purpose}

abbrev interesting_keys : List Text
interesting_keys =
    text "algorithm"
    ∷ text "algorithms"
    ∷ text "cipher"
    ∷ text "ciphers"
    ∷ text "curve"
    ∷ text "key_exchange"
    ∷ text "key_establishment"
    ∷ text "signature"
    ∷ text "signature_algorithm"
    ∷ text "tls_cipher"
    ∷ []

-- `key.lower().replace("-", "_") in self._interesting_keys`
unfoldable pub is_interesting : Text → Bool
unfolding contains lower replace_char
is_interesting key = contains interesting_keys (replace_char b'-' b'_' (lower key))

-- `t[2:]`
drop_two : Text → Text
drop_two (a ∷ b ∷ t) = t
drop_two _ = []

-- `re.fullmatch` of two letters and then `\d+`.
unfoldable pub is_numbered : Text → Text → Bool
unfolding starts_with is_digit all drop_two
is_numbered letters value =
    starts_with letters value && non_empty (drop_two value) && all is_digit (drop_two value)

-- The variable `upper`.
unfoldable pub spelling : Text → Text
unfolding upper replace_char
spelling value = replace_char b'_' b'-' (upper value)

-- The variable `rsa_token_signature`.
unfoldable pub is_rsa_token : Text → Bool
unfolding is_numbered
is_rsa_token value = is_numbered (text "RS") value || is_numbered (text "PS") value

-- The branch for RSA, of the key in lower case.
unfoldable pub classify_rsa : Text → Text → Text × Purpose
unfolding is_rsa_token
classify_rsa key_lower value =
    if occurs (text "SIGN") key_lower || is_rsa_token value
    then (text "RSA", Purpose.signature)
    else if occurs (text "CIPHER") key_lower
        || occurs (text "EXCHANGE") key_lower
        || occurs (text "ESTABLISH") key_lower
    then (text "RSA", Purpose.key_establishment)
    else (text "RSA", Purpose.unknown)

-- The branches behind the one for RSA, of the value in its spelling.
unfoldable pub classify_other : Text → Option (Text × Purpose)
unfolding is_numbered
classify_other value =
    if is_numbered (text "ES") value || occurs (text "ECDSA") value
    then some (text "ECDSA", Purpose.signature)
    else if occurs (text "X25519") value || occurs (text "X448") value
    then some (
      if occurs (text "X448") value then text "X448" else text "X25519",
      Purpose.key_establishment,
    )
    else if occurs (text "ECDH") value
    then some (text "ECDH", Purpose.key_establishment)
    else if occurs (text "ED25519") value || occurs (text "EDDSA") value
    then some (text "EdDSA", Purpose.signature)
    else if occurs (text "ML-KEM") value || occurs (text "MLKEM") value
    then some (text "ML-KEM", Purpose.key_establishment)
    else if occurs (text "ML-DSA") value || occurs (text "MLDSA") value
    then some (text "ML-DSA", Purpose.signature)
    else if occurs (text "SLH-DSA") value || occurs (text "SLHDSA") value
    then some (text "SLH-DSA", Purpose.signature)
    else none

-- `_classify`
unfoldable pub classify : Text → Text → Option (Text × Purpose)
unfolding classify_other classify_rsa is_rsa_token
classify key value =
    if is_rsa_token (spelling value) || occurs (text "RSA") (spelling value)
    then some (classify_rsa (lower key) (spelling value))
    else classify_other (spelling value)
