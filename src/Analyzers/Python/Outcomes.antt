-- ===== src/Analyzers/Python/Outcomes.antt =====
-- What `_classify_call` of src/quantumguard/analyzers/python.py does not take for a derivation of keys.
use pqcensus.Base.{
  Bool, true, false, ◌||◌, ◌≡◌, inl, inr, refl, Option, none, some, List, [], ◌∷◌, ◌++◌, Text, text,
  upper, All, starts_with, ends_with, arith, nat_eq, list_eq, Option-cases, subst,
}
use mathlib.Core.List.{reverse}
use pqcensus.Base.Dict.{Dict, lookup, values}
use pqcensus.Analyzers.Python.Syntax.{concat}
use pqcensus.Model.{Purpose}
use pqcensus.Analyzers.Python.Calls.{
  Observation, rsa_branches, curve_branches, other_branches, mac_branches, ends_in, encoded_token,
  decoded_value, first_branch, decoded_token, rsa_call, curve_call, montgomery_call, other_call,
}
use pqcensus.Analyzers.Python.Protocols.{
  Outcome, index_error, silent, observed, first_value, pqc_call, cipher_call, context_call,
  after_hostname, hostname_call, hint_of, encoding_algorithm, encoders, decoders, only_if, or_then,
  protocol_call, protocol_branches, token_call, or_else, classify_values,
}

is_kdf_purpose : Purpose → Bool
is_kdf_purpose Purpose.kdf = true
is_kdf_purpose _ = false

-- Whether an outcome is a derivation of keys.
unfoldable pub is_kdf : Outcome → Bool
unfolding is_kdf_purpose
is_kdf index_error = false
is_kdf silent = false
is_kdf (observed o) = is_kdf_purpose o.purpose

-- Whether an observation that may be missing is a derivation of keys.
unfoldable pub kdf_of : Option Observation → Bool
unfolding is_kdf_purpose
kdf_of none = false
kdf_of (some o) = is_kdf_purpose o.purpose

-- No branch derives keys, or an earlier one is taken before those that do.
first_branch-kdf :
    (branches : List (Bool × Observation))
    → All (λ b. is_kdf_purpose b.1.purpose ≡ false) branches
    → kdf_of (first_branch branches) ≡ false
unfolding first_branch kdf_of
first_branch-kdf [] h = refl
first_branch-kdf ((test, o) ∷ branches) h = ground (arith, first_branch-kdf branches h.1)

encoded_token-kdf : (alg : Text) → kdf_of (encoded_token alg) ≡ false
unfolding kdf_of encoded_token is_kdf_purpose
encoded_token-kdf alg = ground arith

decoded_value-kdf : (alg : Text) → kdf_of (decoded_value alg) ≡ false
unfolding kdf_of decoded_value is_kdf_purpose
decoded_value-kdf alg = ground arith

decoded_token-kdf : (values : List Text) → kdf_of (decoded_token values) ≡ false
unfolding decoded_token kdf_of
decoded_token-kdf [] = refl
decoded_token-kdf (v ∷ vs) = elim (Option-cases (decoded_value (upper v))) [
  | inl e ↦ rw (e, decoded_token) (decoded_token-kdf vs)
  | inr (o, e) ↦
      rw (e, decoded_token) (subst (λ r. kdf_of r ≡ false) e (decoded_value-kdf (upper v)))
]

rsa_call-kdf : (n : Text) → kdf_of (rsa_call n) ≡ false
unfolding rsa_call rsa_branches is_kdf_purpose
rsa_call-kdf n =
    first_branch-kdf (rsa_branches n) (refl, (refl, (refl, (refl, (refl, (refl, tt))))))

curve_call-kdf : (n : Text) → kdf_of (curve_call n) ≡ false
unfolding curve_call curve_branches is_kdf_purpose
curve_call-kdf n = first_branch-kdf (curve_branches n) (refl, (refl, (refl, (refl, (refl, tt)))))

montgomery_call-kdf : (n : Text) → is_kdf_purpose (montgomery_call n).purpose ≡ false
unfolding montgomery_call is_kdf_purpose
montgomery_call-kdf n = ground arith

cipher_call-kdf : (n hint : Text) → is_kdf (cipher_call n hint) ≡ false
unfolding is_kdf cipher_call pqc_call
cipher_call-kdf n hint = ground arith

context_call-kdf : (minimum maximum : Option Text) → is_kdf (context_call minimum maximum) ≡ false
unfolding is_kdf context_call is_kdf_purpose
context_call-kdf none maximum = refl
context_call-kdf (some m) none = refl
context_call-kdf (some m) (some k) = ground arith

after_hostname-kdf :
    (n : Text) (kwargs : Dict Text (List Text)) (hint : Text)
    → is_kdf (after_hostname n kwargs hint) ≡ false
unfolding after_hostname
after_hostname-kdf n kwargs hint = ground (
  arith,
  context_call-kdf (first_value (lookup (text "minimum_version") kwargs))
      (first_value (lookup (text "maximum_version") kwargs)),
  cipher_call-kdf n hint,
)

hostname_call-kdf :
    (n : Text) (kwargs : Dict Text (List Text)) (hint : Text) (tokens : List Text)
    (value : Option Text)
    → is_kdf (hostname_call n kwargs hint tokens value) ≡ false
unfolding is_kdf hostname_call is_kdf_purpose
hostname_call-kdf n kwargs hint tokens none = refl
hostname_call-kdf n kwargs hint tokens (some v) = ground (arith, after_hostname-kdf n kwargs hint)

or_else-kdf :
    (o : Option Observation) (after : Outcome)
    → kdf_of o ≡ false
    → is_kdf after ≡ false
    → is_kdf (or_else o after) ≡ false
unfolding or_else is_kdf kdf_of
or_else-kdf none after h k = k
or_else-kdf (some o) after h k = h

protocol_call-kdf :
    (n : Text) (kwargs : Dict Text (List Text)) (hint : Text)
    → is_kdf (protocol_call n kwargs hint) ≡ false
unfolding protocol_call protocol_branches is_kdf_purpose
protocol_call-kdf n kwargs hint =
    or_else-kdf (first_branch (protocol_branches n hint)) _
      (first_branch-kdf (protocol_branches n hint) (refl, (refl, (refl, tt))))
      (hostname_call-kdf n kwargs hint _ _)

only_if-kdf :
    (test : Bool) (o : Option Observation) → kdf_of o ≡ false → kdf_of (only_if test o) ≡ false
unfolding only_if kdf_of
only_if-kdf true o h = h
only_if-kdf false o h = refl

or_then-kdf :
    (o after : Option Observation)
    → kdf_of o ≡ false
    → kdf_of after ≡ false
    → kdf_of (or_then o after) ≡ false
unfolding or_then kdf_of
or_then-kdf none after h k = k
or_then-kdf (some o) after h k = h

token_call-kdf :
    (n : Text) (literals : List Text) (kwargs : Dict Text (List Text))
    → kdf_of (token_call n literals kwargs) ≡ false
unfolding token_call
token_call-kdf n literals kwargs =
    let encoded = encoded_token (encoding_algorithm literals kwargs) in
    let decoded = decoded_token (literals ++ concat (values kwargs)) in
    or_then-kdf (only_if (ends_in n encoders) encoded) (only_if (ends_in n decoders) decoded)
      (only_if-kdf (ends_in n encoders) encoded
        (encoded_token-kdf (encoding_algorithm literals kwargs)))
      (only_if-kdf (ends_in n decoders) decoded
        (decoded_token-kdf (literals ++ concat (values kwargs))))

-- Before the derivation of keys stand the codes of authentication.
first_branch-append :
    (before after : List (Bool × Observation))
    → All (λ b. is_kdf_purpose b.1.purpose ≡ false) before
    → kdf_of (first_branch after) ≡ false
    → kdf_of (first_branch (before ++ after)) ≡ false
unfolding first_branch kdf_of
first_branch-append [] after h k = k
first_branch-append ((test, o) ∷ before) after h k =
    ground (arith, first_branch-append before after h.1 k)

or_true : (b : Bool) → b || true ≡ true
or_true true = refl
or_true false = refl

first_branch-taken :
    (e : Bool × Observation) (rest : List (Bool × Observation))
    → e.0 ≡ true
    → is_kdf_purpose e.1.purpose ≡ false
    → kdf_of (first_branch (e ∷ rest)) ≡ false
unfolding first_branch kdf_of
first_branch-taken (test, o) rest h k = ground arith

mac_branches-kdf :
    (n : Text) → ends_with (text "HMAC") n ≡ true → kdf_of (first_branch (mac_branches n)) ≡ false
unfolding mac_branches is_kdf_purpose
mac_branches-kdf n h = first_branch-taken _ _ (rw h (or_true (ends_with (text "HMAC.NEW") n))) refl

other_call-kdf : (n : Text) → ends_with (text "HMAC") n ≡ true → kdf_of (other_call n) ≡ false
unfolding other_call other_branches is_kdf_purpose
other_call-kdf n h =
    first_branch-append (other_branches n) (mac_branches n)
      (montgomery_call-kdf n, (refl, (refl, (refl, (refl, tt))))) (mac_branches-kdf n h)

starts_with-append : (p q t : Text) → starts_with (p ++ q) t ≡ true → starts_with p t ≡ true
unfolding starts_with
starts_with-append [] q t h = refl
starts_with-append (c ∷ p) q [] h = h
starts_with-append (c ∷ p) q (d ∷ t) h = ground (arith, starts_with-append p q t)

ends_hmac : (n : Text) → ends_with (text "PBKDF2HMAC") n ≡ true → ends_with (text "HMAC") n ≡ true
unfolding ends_with
ends_hmac n h = starts_with-append (reverse (text "HMAC")) (reverse (text "PBKDF2")) (reverse n) h

-- A call of a name that ends with PBKDF2HMAC is never classified as a derivation of keys: the name ends
-- with HMAC too, and the branch for HMAC stands before.
pub classify_values-kdf :
    (n : Text) (literals : List Text) (kwargs : Dict Text (List Text))
    → ends_with (text "PBKDF2HMAC") n ≡ true
    → is_kdf (classify_values n literals kwargs) ≡ false
unfolding classify_values
classify_values-kdf n literals kwargs h =
    or_else-kdf (token_call n literals kwargs) _ (token_call-kdf n literals kwargs) (
      or_else-kdf (rsa_call n) _ (rsa_call-kdf n) (
        or_else-kdf (curve_call n) _ (curve_call-kdf n) (
          or_else-kdf (other_call n) _ (other_call-kdf n (ends_hmac n h))
            (protocol_call-kdf n kwargs (hint_of literals kwargs)))))
