-- ===== src/Analyzers/Textual/Patterns.antt =====
-- The patterns of src/quantumguard/analyzers/textual.py and their search by `re`: alternatives of
-- literals between two word boundaries, without regard to case.
use pqcensus.Base.{
  ℕ, suc, ◌+◌, Bool, true, false, ◌&&◌, ◌||◌, Option, none, some, List, [], ◌∷◌, Text, text, length,
  lower_char, is_lower, is_upper, is_digit, nat_beq, ltb, if◌then◌else◌,
}
use pqcensus.Model.{Purpose}

pub record Pattern : Type 0 where
  pub alternatives : List Text
  pub algorithm : Text
  pub purpose : Purpose
  pub detail : Text

-- `_patterns`; `ML[-_]?KEM` stands as its three texts.
unfoldable pub patterns : List Pattern
patterns =
    record {
      alternatives = text "RS256" ∷ text "PS256" ∷ text "rsa." ∷ text "RSA." ∷ text "RSA/" ∷ [];
      algorithm = text "RSA";
      purpose = Purpose.unknown;
      detail = text "public-key RSA token or API";
    }
    ∷ record {
      alternatives = text "ES256" ∷ text "ES384" ∷ text "ES512" ∷ text "ECDSA" ∷ text "ecdsa" ∷ [];
      algorithm = text "ECDSA";
      purpose = Purpose.signature;
      detail = text "ECDSA/signature token or API";
    }
    ∷ record {
      alternatives =
          text "ECDH"
          ∷ text "X25519"
          ∷ text "X448"
          ∷ text "ecdh"
          ∷ text "x25519"
          ∷ text "x448"
          ∷ [];
      algorithm = text "X25519";
      purpose = Purpose.key_establishment;
      detail = text "classical key-agreement token or API";
    }
    ∷ record {
      alternatives = text "Ed25519" ∷ text "Ed448" ∷ text "EdDSA" ∷ [];
      algorithm = text "EdDSA";
      purpose = Purpose.signature;
      detail = text "EdDSA/signature token or API";
    }
    ∷ record {
      alternatives = text "ML-KEM" ∷ text "ML_KEM" ∷ text "MLKEM" ∷ text "Kyber" ∷ [];
      algorithm = text "ML-KEM";
      purpose = Purpose.key_establishment;
      detail = text "PQC KEM token or API";
    }
    ∷ record {
      alternatives = text "ML-DSA" ∷ text "ML_DSA" ∷ text "MLDSA" ∷ text "Dilithium" ∷ [];
      algorithm = text "ML-DSA";
      purpose = Purpose.signature;
      detail = text "PQC signature token or API";
    }
    ∷ []

-- The letter that `re.IGNORECASE` takes a character for: four letters beyond ASCII match letters of
-- ASCII.
unfoldable pub fold_char : ℕ → ℕ
unfolding lower_char
fold_char c =
    if nat_beq c 0x130 || nat_beq c 0x131
    then b'i'
    else if nat_beq c 0x17f
    then b's'
    else if nat_beq c 0x212a
    then b'k'
    else lower_char c

-- Whether exactly one of two holds.
unfoldable pub differ : Bool → Bool → Bool
differ true true = false
differ true false = true
differ false b = b

-- `isalnum` says which characters beyond ASCII are letters or digits.
module _ (isalnum : ℕ → Bool) where
  -- `\w`
  unfoldable pub is_word : ℕ → Bool
  unfolding is_lower is_upper is_digit
  is_word c =
      if ltb c 128 then is_lower c || is_upper c || is_digit c || nat_beq c b'_' else isalnum c

  unfoldable pub word_ahead : Text → Bool
  unfolding is_word
  word_ahead [] = false
  word_ahead (c ∷ t) = is_word c

  -- A literal and a word boundary behind it, of whether the character before is one of a word.
  unfoldable pub match_at : Bool → Text → Text → Bool
  unfolding differ word_ahead fold_char is_word
  match_at after_word [] t = differ after_word (word_ahead t)
  match_at after_word (p ∷ ps) [] = false
  match_at after_word (p ∷ ps) (c ∷ t) =
      nat_beq (fold_char c) (fold_char p) && match_at (is_word c) ps t

  -- The length of the first alternative that matches.
  unfoldable pub first_alternative : List Text → Text → Option ℕ
  unfolding match_at
  first_alternative [] t = none
  first_alternative (a ∷ alternatives) t =
      if match_at false a t then some (length a) else first_alternative alternatives t

  -- `pattern.search(code)`, from an index on: the start and the end of the match. No pattern matches
  -- the empty text.
  unfoldable pub search : List Text → ℕ → Bool → Text → Option (ℕ × ℕ)
  unfolding differ word_ahead first_alternative is_word
  search alternatives i after_word [] = none
  search alternatives i after_word (c ∷ t) =
      elim (if differ after_word (word_ahead (c ∷ t))
        then first_alternative alternatives (c ∷ t)
        else none) [ some n ↦ some (i, i + n) | none ↦ search alternatives (suc i) (is_word c) t ]

  -- The first pattern that matches, with its match.
  unfoldable pub first_match : List Pattern → Text → Option (Pattern × (ℕ × ℕ))
  unfolding search
  first_match [] code = none
  first_match (p ∷ ps) code = elim (search p.alternatives 0 false code) [
    | some found ↦ some (p, found)
    | none ↦ first_match ps code
  ]
