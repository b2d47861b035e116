-- ===== src/Util/Algorithms.antt =====
-- `normalize_algorithm` and `algorithm_display` of src/quantumguard/util.py.
use pqcensus.Base.{
  Option, none, some, [], ◌∷◌, Text, text, upper, strip, remove_char, nat_eq, list_eq,
}
use pqcensus.Base.Dict.{Dict, lookup}

-- `value.strip().upper().replace("-", "").replace("_", "").replace(" ", "")`
unfoldable pub normalize_algorithm : Text → Text
unfolding strip upper remove_char
normalize_algorithm value =
    remove_char b' ' (remove_char b'_' (remove_char b'-' (upper (strip value))))

abbrev aliases : Dict Text Text
aliases =
    (text "RS256", text "RSA")
    ∷ (text "RS384", text "RSA")
    ∷ (text "RS512", text "RSA")
    ∷ (text "PS256", text "RSA")
    ∷ (text "PS384", text "RSA")
    ∷ (text "PS512", text "RSA")
    ∷ (text "ES256", text "ECDSA")
    ∷ (text "ES384", text "ECDSA")
    ∷ (text "ES512", text "ECDSA")
    ∷ (text "EDDSA", text "EdDSA")
    ∷ (text "X25519", text "X25519")
    ∷ (text "X448", text "X448")
    ∷ (text "ECDH", text "ECDH")
    ∷ (text "ECDSA", text "ECDSA")
    ∷ (text "MLKEM", text "ML-KEM")
    ∷ (text "MLDSA", text "ML-DSA")
    ∷ (text "SLHDSA", text "SLH-DSA")
    ∷ []

alias_or : Text → Option Text → Text
alias_or value none = value
alias_or value (some name) = name

-- `aliases.get(key, value.strip())`
unfoldable pub algorithm_display : Text → Text
unfolding alias_or normalize_algorithm lookup
algorithm_display value = alias_or (strip value) (lookup (normalize_algorithm value) aliases)
