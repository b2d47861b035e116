-- ===== src/Analyzers/Python/Assignments.antt =====
-- src/quantumguard/analyzers/python.py: `_classify_assignment` and `_rationale`.
use pqcensus.Base.{
  Bool, true, false, Option, none, some, List, [], ◌∷◌, ◌++◌, ◌&&◌, Text, text, lower, contains,
  nat_beq, nat_eq, list_eq, ◌==◌, if◌then◌else◌, ◌≡◌, ◌⊎◌, inl, inr, arith, ap, refl, ==_iff,
}
use pqcensus.Base.Dict.{Dict}
use pqcensus.Model.{Purpose, Confidence, QuantumStatus}
use pqcensus.Model.Values.{purpose_value, confidence_value}
use pqcensus.Policy.{algorithm_status}
use pqcensus.Util.Algorithms.{normalize_algorithm}
use pqcensus.Analyzers.Python.Syntax.{Expr, Import, constant, boolean, attribute, qualified_name}
use pqcensus.Analyzers.Python.Calls.{Observation, sure}

-- `t.rpartition(".")`, without the dot: what is before the last one and what is behind it.
unfoldable pub last_part : Text → Text × Text
last_part [] = ([], [])
last_part (c ∷ t) =
    let r = last_part t in
    if contains t b'.' then (c ∷ r.0, r.1) else if nat_beq c b'.' then ([], t) else ([], c ∷ t)

abbrev context_names : List Text
context_names =
    text "SSL.SSLCONTEXT"
    ∷ text "SSL.CREATEDEFAULTCONTEXT"
    ∷ text "SSLCONTEXT"
    ∷ text "CREATEDEFAULTCONTEXT"
    ∷ []

unfoldable pub is_ssl_context : Text → Bool
unfolding contains normalize_algorithm
is_ssl_context qname = contains context_names (normalize_algorithm qname)

unfoldable pub is_attribute : Expr → Bool
is_attribute (attribute e attr) = true
is_attribute _ = false

unfoldable pub is_false_constant : Expr → Bool
is_false_constant (constant (boolean false)) = true
is_false_constant _ = false

unfoldable pub is_constant : Expr → Bool
is_constant (constant c) = true
is_constant _ = false

-- The branches behind the test of the context, of the attribute, the value and its qualified name.
unfoldable pub context_assignment : Text → Expr → Text → Option Observation
unfolding is_false_constant is_constant normalize_algorithm
context_assignment attr value value_qname =
    if (attr == text "check_hostname") && is_constant value
    then (if is_false_constant value
        then some (
            sure (text "TLS-insecure") Purpose.unknown
              (text "TLS context assignment disables hostname verification"))
        else none)
    else if (attr == text "verify_mode") && (normalize_algorithm value_qname == text "SSL.CERTNONE")
    then some (
        sure (text "TLS-insecure") Purpose.unknown
          (text "TLS context assignment disables certificate validation"))
    else none

-- `_classify_assignment`
unfoldable pub classify_assignment :
    Dict Text Import → Dict Text Text → Expr → Option Expr → Text → Option Observation
unfolding context_assignment is_attribute is_ssl_context last_part qualified_name
classify_assignment aliases inferred target none qname = none
classify_assignment aliases inferred target (some value) qname =
    if is_attribute target && is_ssl_context (last_part qname).0
    then context_assignment (last_part qname).1 value (qualified_name aliases inferred value)
    else none

-- `_rationale`, of the status of the algorithm.
unfoldable pub rationale_of : QuantumStatus → Text → Purpose → Confidence → Text
unfolding purpose_value confidence_value lower
rationale_of QuantumStatus.insecure_config algorithm purpose confidence =
    algorithm
    ++ text " is an explicitly insecure or deprecated TLS posture observed in a "
    ++ purpose_value purpose
    ++ text " context; replace it before planning protocol migration."
rationale_of QuantumStatus.shor_vulnerable algorithm purpose confidence =
    algorithm
    ++ text " is a Shor-relevant public-key primitive observed in a "
    ++ purpose_value purpose
    ++ text " context with "
    ++ lower (confidence_value confidence)
    ++ text
        " evidence. The finding is a migration signal, not a claim that the current system is already compromised."
rationale_of QuantumStatus.pqc_standard algorithm purpose confidence =
    algorithm
    ++ text " is a standardized post-quantum candidate observed in a "
    ++ purpose_value purpose
    ++ text " context."
rationale_of status algorithm purpose confidence =
    if algorithm == text "SHA-2/SHA-3"
    then text
        "Hash use is not treated as an equivalent Shor-vulnerable public-key finding; review security level and lifecycle."
    else algorithm
      ++ text " was observed in a "
      ++ purpose_value purpose
      ++ text " context; external implementation and protocol boundaries remain unknown."

-- `_rationale`
unfoldable pub rationale : Text → Purpose → Confidence → Text
unfolding rationale_of algorithm_status
rationale algorithm purpose confidence =
    rationale_of (algorithm_status algorithm) algorithm purpose confidence

is_false_constant_lem : (e : Expr) → is_false_constant e ≡ true → e ≡ constant (boolean false)
unfolding is_false_constant
is_false_constant_lem (constant (boolean false)) h = refl
is_false_constant_lem (constant (boolean true)) h = absurd cc
is_false_constant_lem (constant _) h = absurd cc
is_false_constant_lem _ h = absurd cc

context_assignment_lem :
    (attr : Text) (value : Expr) (value_qname : Text) (o : Observation)
    → context_assignment attr value value_qname ≡ some o
    → (o.algorithm ≡ text "TLS-insecure")
      × (o.purpose ≡ Purpose.unknown)
      × (o.confidence ≡ Confidence.high)
unfolding context_assignment
context_assignment_lem attr value value_qname o h = ground arith

context_assignment-insecure :
    (attr : Text) (value : Expr) (value_qname : Text) (o : Observation)
    → context_assignment attr value value_qname ≡ some o
    → ((attr ≡ text "check_hostname") × (value ≡ constant (boolean false)))
      ⊎ ((attr ≡ text "verify_mode") × (normalize_algorithm value_qname ≡ text "SSL.CERTNONE"))
unfolding context_assignment
context_assignment-insecure attr value value_qname o h = ground (
  arith,
  ==_iff attr (text "check_hostname"),
  ==_iff attr (text "verify_mode"),
  ==_iff (normalize_algorithm value_qname) (text "SSL.CERTNONE"),
  is_false_constant_lem value,
)

guard_lem :
    {A B : Type 0} (a b : Bool) (o : Option A) (x : A)
    → (o ≡ some x → B)
    → (if a && b then o else none) ≡ some x
    → (a ≡ true) × (b ≡ true) × B
guard_lem true true o x f h = (refl, refl, f h)
guard_lem true false o x f h = cc
guard_lem false b o x f h = cc

-- What is observed of an assignment is an insecure setting of TLS, found for an attribute of an SSL
-- context, with high confidence and without a purpose: `check_hostname` is set to False, or
-- `verify_mode` to a name that is `ssl.CERT_NONE` when it is normalized.
pub classify_assignment_lem :
    (aliases : Dict Text Import) (inferred : Dict Text Text) (target : Expr) (value : Option Expr)
    (qname : Text) (o : Observation)
    → classify_assignment aliases inferred target value qname ≡ some o
    → (is_attribute target ≡ true)
      × (is_ssl_context (last_part qname).0 ≡ true)
      × (o.algorithm ≡ text "TLS-insecure")
      × (o.purpose ≡ Purpose.unknown)
      × (o.confidence ≡ Confidence.high)
      × (((last_part qname).1 ≡ text "check_hostname") × (value ≡ some (constant (boolean false)))
          ⊎ ((last_part qname).1 ≡ text "verify_mode")
            × ((v : Expr) × (value ≡ some v)
                × (normalize_algorithm (qualified_name aliases inferred v) ≡ text "SSL.CERTNONE")))
unfolding classify_assignment
classify_assignment_lem aliases inferred target none qname o h = absurd cc
classify_assignment_lem aliases inferred target (some v) qname o h =
    let attr = (last_part qname).1 in
    let name = qualified_name aliases inferred v in
    let (is_attr, is_context, made) =
      guard_lem (is_attribute target) (is_ssl_context (last_part qname).0)
        (context_assignment attr v name) o (λ e. e) h in
    let (algorithm, purpose, confidence) = context_assignment_lem attr v name o made in
    (
      is_attr,
      is_context,
      algorithm,
      purpose,
      confidence,
      elim (context_assignment-insecure attr v name o made) [
        | inl (a, e) ↦ inl (a, ap some e)
        | inr (a, e) ↦ inr (a, (v, refl, e))
      ],
    )
