-- ===== src/Policy/Matching.antt =====
-- What a matching rule says: its purposes name the purpose that was asked for, and so the targets
-- that a rule set gives for a purpose are those of its rules for that purpose.
use pqcensus.Base.{
  Bool, true, ◌≡◌, refl, ◌⊎◌, inl, inr, Option, none, some, List, [], ◌∷◌, Text, text, list_eq,
  nat_eq, list_beq, contains, All, arith, Bool-cases, ◌==◌, ==_iff, not, ◌||◌, all, subst,
  if◌then◌else◌,
}
use pqcensus.Base.Dict.{Dict, insert, index_onto, values}
use pqcensus.Model.{Purpose}
use pqcensus.Model.Values.{purpose_value, is_confidentiality, is_authenticity}
use pqcensus.Policy.{
  Rule, is_fallback, is_match, match_from, matching_rule, targets_for, targets_of,
}
use pqcensus.Policy.Shipped.{shipped_rules}

-- A property of the rules is one of the values of their index.
All-insert :
    (P : Rule → Type 0) (k : Text) (r : Rule) (d : Dict Text Rule)
    → P r
    → All P (values d)
    → All P (values (insert k r d))
unfolding insert values
All-insert P k r [] h all = (h, tt)
All-insert P k r ((j, s) ∷ d) h all = ground (arith, All-insert P k r d h all.1)

All-index_onto :
    (P : Rule → Type 0) (d : Dict Text Rule) (rules : List Rule)
    → All P (values d)
    → All P rules
    → All P (values (index_onto (λ r. r.id) d rules))
unfolding index_onto
All-index_onto P d [] held all = held
All-index_onto P d (r ∷ rules) held all =
    All-index_onto P (insert r.id r d) rules (All-insert P r.id r d all.0 held) all.1

-- A fallback or a match lists the purpose.
is_fallback-contains :
    (purpose : Text) (r : Rule) → is_fallback purpose r ≡ true → contains r.purposes purpose ≡ true
unfolding is_fallback
is_fallback-contains purpose r h = ground arith

is_match-contains :
    (normalized purpose : Text) (r : Rule)
    → is_match normalized purpose r ≡ true
    → contains r.purposes purpose ≡ true
unfolding is_match
is_match-contains normalized purpose r h = ground arith

-- A property of the rule that is found, if there is one.
abbrev Holds : (Rule → Type 0) → Option Rule → Type 0
Holds P none = Unit
Holds P (some r) = P r

-- `P r` is wanted only of rules that list the purpose.
match_from-Holds :
    (P : Rule → Type 0) (normalized purpose : Text) (fallback : Option Rule) (rules : List Rule)
    → Holds P fallback
    → All (λ r. contains r.purposes purpose ≡ true → P r) rules
    → Holds P (match_from normalized purpose fallback rules)
unfolding match_from
match_from-Holds P normalized purpose fallback [] held all = held
match_from-Holds P normalized purpose fallback (r ∷ rules) held all =
    elim (Bool-cases (is_fallback purpose r)) [
      | inl yes_fallback ↦
          rw (yes_fallback, match_from)
            (match_from-Holds P normalized purpose (some r) rules
              (all.0 (is_fallback-contains purpose r yes_fallback)) all.1)
      | inr no_fallback ↦ elim (Bool-cases (is_match normalized purpose r)) [
        | inl yes_match ↦
            rw (no_fallback, yes_match, match_from)
              (all.0 (is_match-contains normalized purpose r yes_match))
        | inr no_match ↦
            rw (no_fallback, no_match, match_from)
              (match_from-Holds P normalized purpose fallback rules held all.1)
      ]
    ]

matching_rule-Holds :
    (P : Rule → Type 0) (rules : List Rule) (algorithm : Text) (purpose : Purpose)
    → All (λ r. contains r.purposes (purpose_value purpose) ≡ true → P r) rules
    → Holds P (matching_rule rules algorithm purpose)
unfolding matching_rule
matching_rule-Holds P rules algorithm purpose all =
    match_from-Holds P _ _ none _ tt (
      All-index_onto (λ r. contains r.purposes (purpose_value purpose) ≡ true → P r) [] rules tt
        all)

-- The rule that `matching_rule` returns lists the purpose that was asked for.
pub matching_rule-contains :
    (rules : List Rule) (algorithm : Text) (purpose : Purpose) (r : Rule)
    → matching_rule rules algorithm purpose ≡ some r
    → contains r.purposes (purpose_value purpose) ≡ true
matching_rule-contains rules algorithm purpose r h =
    subst (Holds (λ s. contains s.purposes (purpose_value purpose) ≡ true)) h (
      matching_rule-Holds (λ s. contains s.purposes (purpose_value purpose) ≡ true) rules algorithm
        purpose (every rules))
  where
    every :
        (rs : List Rule)
        → All
            (λ s.
              contains s.purposes (purpose_value purpose) ≡ true
              → contains s.purposes (purpose_value purpose) ≡ true)
            rs
    every [] = tt
    every (s ∷ rs) = (λ k. k, every rs)

-- The candidate class of docs/PQC_MIGRATION.md for a purpose.
unfoldable pub candidates : Purpose → List Text
candidates purpose =
    if is_confidentiality purpose
    then text "ML-KEM" ∷ []
    else if is_authenticity purpose
    then text "ML-DSA" ∷ text "SLH-DSA" ∷ []
    else []

abbrev Fits : Purpose → Rule → Type 0
Fits purpose r = (r.migration_targets ≡ []) ⊎ (r.migration_targets ≡ candidates purpose)

fits : Purpose → Rule → Bool
fits purpose r =
    not (contains r.purposes (purpose_value purpose))
    || r.migration_targets == []
    || r.migration_targets == candidates purpose

fits-Fits :
    (purpose : Purpose) (r : Rule)
    → fits purpose r ≡ true
    → contains r.purposes (purpose_value purpose) ≡ true
    → Fits purpose r
unfolding fits
fits-Fits purpose r h k =
    ground (arith, ==_iff r.migration_targets [], ==_iff r.migration_targets (candidates purpose))

all_fit :
    (purpose : Purpose) (rules : List Rule)
    → all (fits purpose) rules ≡ true
    → All (λ r. contains r.purposes (purpose_value purpose) ≡ true → Fits purpose r) rules
unfolding all
all_fit purpose [] h = tt
all_fit purpose (r ∷ rules) h = elim (Bool-cases (fits purpose r)) [
  | inl e ↦ (fits-Fits purpose r e, all_fit purpose rules (ground arith))
  | inr e ↦ cc
]

shipped_fit : (purpose : Purpose) → all (fits purpose) shipped_rules ≡ true
unfolding all fits candidates contains list_beq purpose_value is_confidentiality is_authenticity
shipped_fit Purpose.signature = refl
shipped_fit _ = refl

Fits-targets :
    (purpose : Purpose) (found : Option Rule)
    → Holds (Fits purpose) found
    → (targets_of found ≡ []) ⊎ (targets_of found ≡ candidates purpose)
unfolding targets_of
Fits-targets purpose none h = inl refl
Fits-targets purpose (some r) h = h

-- Under the shipped rules, whatever the algorithm: the targets of a finding are none, or those of
-- the candidate class of its purpose, ML-KEM for key establishment and encryption, ML-DSA and
-- SLH-DSA for signatures and certificates, and none for the other purposes, UNKNOWN among them.
pub targets_for-candidates :
    (algorithm : Text) (purpose : Purpose)
    → (targets_for shipped_rules algorithm purpose ≡ [])
      ⊎ (targets_for shipped_rules algorithm purpose ≡ candidates purpose)
unfolding targets_for
targets_for-candidates algorithm purpose =
    Fits-targets purpose (matching_rule shipped_rules algorithm purpose) (
      matching_rule-Holds (Fits purpose) shipped_rules algorithm purpose
        (all_fit purpose shipped_rules (shipped_fit purpose)))
