-- ===== src/Analyzers/Config/Classified.antt =====
-- The purposes that `_classify` of src/quantumguard/analyzers/config.py gives to RSA. It looks for
-- words in upper case in a key that is in lower case.
use pqcensus.Base.{
  ℕ, Bool, true, false, ◌||◌, ◌≡◌, ◌≢◌, refl, Option, none, some, [], ◌∷◌, Text, text, sym, ◌∙◌,
  not, ◌==◌, nat_eq, list_eq, list_beq, lower_char, lower, is_upper, starts_with, occurs, nat_beq,
  if◌then◌else◌, arith,
}
use pqcensus.Model.{Purpose}
use pqcensus.Analyzers.Config.Names.{spelling, is_rsa_token, classify_rsa, classify_other, classify}

is_upper-lower_char : (c d : ℕ) → is_upper c ≡ true → nat_beq c (lower_char d) ≡ false
unfolding is_upper lower_char
is_upper-lower_char c d h = ground arith

-- A text that begins with a letter in upper case does not occur in one that is in lower case.
occurs-lower : (c : ℕ) (s t : Text) → is_upper c ≡ true → occurs (c ∷ s) (lower t) ≡ false
unfolding occurs lower starts_with
occurs-lower c s [] h = refl
occurs-lower c s (d ∷ t) h = ground (arith, is_upper-lower_char c d h, occurs-lower c s t h)

starts_upper : Text → Bool
starts_upper [] = false
starts_upper (c ∷ s) = is_upper c

no_word : (w key : Text) → starts_upper w ≡ true → occurs w (lower key) ≡ false
unfolding starts_upper
no_word [] key h = cc
no_word (c ∷ s) key h = occurs-lower c s key h

-- What is left of the branch for RSA.
unfoldable pub rsa_purpose : Bool → Purpose
rsa_purpose true = Purpose.signature
rsa_purpose false = Purpose.unknown

if-pair :
    (b : Bool)
    → ◌≡◌ {A = Text × Purpose}
        (if b then (text "RSA", Purpose.signature) else (text "RSA", Purpose.unknown))
        (text "RSA", rsa_purpose b)
unfolding rsa_purpose
if-pair true = refl
if-pair false = refl

classify_rsa_lem :
    (key value : Text)
    → classify_rsa (lower key) value ≡ (text "RSA", rsa_purpose (is_rsa_token value))
unfolding classify_rsa starts_upper is_upper
classify_rsa_lem key value =
    rw
      (
        no_word (text "SIGN") key refl,
        no_word (text "CIPHER") key refl,
        no_word (text "EXCHANGE") key refl,
        no_word (text "ESTABLISH") key refl,
      )
      (if-pair (is_rsa_token value))

-- The name in a result, if there is one.
unfoldable pub name_of : Option (Text × Purpose) → Text
name_of none = []
name_of (some c) = c.0

classify_other-name : (value : Text) → (name_of (classify_other value) == text "RSA") ≡ false
unfolding classify_other name_of list_beq
classify_other-name value = ground arith

-- Whether a value names RSA.
unfoldable pub names_rsa : Text → Bool
names_rsa value = is_rsa_token (spelling value) || occurs (text "RSA") (spelling value)

-- What `classify` is without the key.
by_value : Text → Option (Text × Purpose)
unfolding rsa_purpose names_rsa
by_value value =
    if names_rsa value
    then some (text "RSA", rsa_purpose (is_rsa_token (spelling value)))
    else classify_other (spelling value)

classify-by_value : (key value : Text) → classify key value ≡ by_value value
unfolding classify by_value names_rsa
classify-by_value key value = rw (classify_rsa_lem key (spelling value)) refl

-- Not the name RSA, or one of the two purposes.
is_apart : Option (Text × Purpose) → Bool
is_apart none = true
is_apart (some (name, Purpose.key_establishment)) = not (name == text "RSA")
is_apart (some (name, purpose)) = true

by_value-apart : (value : Text) → is_apart (by_value value) ≡ true
unfolding by_value is_apart rsa_purpose classify_other list_beq
by_value-apart value = ground arith

is_apart-≢ :
    (r : Option (Text × Purpose))
    → is_apart r ≡ true
    → r ≢ some (text "RSA", Purpose.key_establishment)
unfolding is_apart list_beq
is_apart-≢ r h e = cc

-- Whatever the key and the value, the key has no influence on what `_classify` returns, and it never
-- returns RSA for the establishment of keys: a value that names RSA has the purpose SIGNATURE if it is
-- a token like RS256, and UNKNOWN otherwise.
pub classify_lem :
    (key other value : Text)
    → (classify key value ≡ classify other value)
      × (classify key value ≢ some (text "RSA", Purpose.key_establishment))
      × (names_rsa value ≡ true
          → classify key value ≡ some (text "RSA", rsa_purpose (is_rsa_token (spelling value))))
unfolding is_apart by_value list_beq
classify_lem key other value = (
  classify-by_value key value ∙ sym (classify-by_value other value),
  is_apart-≢ (classify key value) (rw (classify-by_value key value) (by_value-apart value)),
  (λ h. classify-by_value key value ∙ rw h refl),
)
