-- ===== src/Analyzers/Common.antt =====
-- What the analyzers of src/quantumguard/analyzers share: the invariant of a finding as they make it,
-- and their parts that are alike.
use pqcensus.Base.{
  ℕ, Bool, true, false, ◌&&◌, ◌||◌, ◌≡◌, refl, Option, none, some, List, [], ◌∷◌, ◌++◌, Text, text,
  nat_beq, leb, if◌then◌else◌,
}
use pqcensus.Model.{Finding, Purpose, Environment, Status}
use pqcensus.Policy.{
  Rule, algorithm_status, default_severity, references_for, targets_for, matching_rule,
}
use pqcensus.Util.Paths.{test_only_path}

-- `"test" if test_only else "production"`
unfoldable pub environment_of : Bool → Environment
environment_of true = Environment.test
environment_of false = Environment.production

rule_id_or_unknown : Option Rule → Text
rule_id_or_unknown none = text "QG-UNKNOWN-CRYPTO"
rule_id_or_unknown (some r) = r.id

-- `str(rule["id"]) if rule else "QG-UNKNOWN-CRYPTO"`
unfoldable pub rule_id_of : List Rule → Text → Purpose → Text
unfolding rule_id_or_unknown
rule_id_of rules algorithm purpose = rule_id_or_unknown (matching_rule rules algorithm purpose)

-- A finding as an analyzer hands it over: what the rules and the policy say of its algorithm and
-- purpose, active, and placed by its path.
pub record IsFresh (rules : List Rule) (f : Finding) : Type 0 where
  pub risk : f.quantum_risk ≡ algorithm_status f.algorithm
  pub severity : f.severity ≡ default_severity f.algorithm f.purpose (test_only_path f.source_path)
  pub rule : f.rule_id ≡ rule_id_of rules f.algorithm f.purpose
  pub targets : f.migration_target ≡ targets_for rules f.algorithm f.purpose
  pub references : f.references ≡ references_for rules f.algorithm f.purpose
  pub environment : f.environment ≡ environment_of (test_only_path f.source_path)
  pub status : f.status ≡ Status.active
  pub suppression : f.suppression ≡ none

-- The characters at which `str.splitlines` breaks.
is_break : ℕ → Bool
is_break c =
    (leb 10 c && leb c 13)
    || (leb 28 c && leb c 30)
    || nat_beq c 0x85
    || nat_beq c 0x2028
    || nat_beq c 0x2029

pub data Role : Type 0 where
  joined ends plain : Role

-- A line feed behind a carriage return belongs to it.
role : Bool → ℕ → Role
unfolding is_break
role after_return c =
    if after_return && nat_beq c 10 then joined else if is_break c then ends else plain

lines_from : Bool → Text → Text → List Text
lines_from after_return [] [] = []
lines_from after_return (d ∷ line) [] = (d ∷ line) ∷ []
lines_from after_return line (c ∷ t) = elim (role after_return c) [
  | joined ↦ lines_from false [] t
  | ends ↦ line ∷ lines_from (nat_beq c 13) [] t
  | plain ↦ lines_from false (line ++ (c ∷ [])) t
]

-- `source.splitlines()`
unfoldable pub splitlines : Text → List Text
unfolding lines_from role
splitlines source = lines_from false [] source

lines_test :
    splitlines (97 ∷ 13 ∷ 10 ∷ 98 ∷ 10 ∷ 10 ∷ 99 ∷ []) ≡ text "a" ∷ text "b" ∷ [] ∷ text "c" ∷ []
unfolding splitlines
lines_test = refl
