-- ===== src/Analyzers/Python/Seen.antt =====
-- What the loop over the nodes of src/quantumguard/analyzers/python.py sees.
use mathlib.Core.Option.{some-injective}
use pqcensus.Base.{
  ℕ, suc, false, ◌≡◌, refl, sym, subst, ◌⊎◌, inl, inr, Option, none, some, Option-cases, Bool-cases,
  List, [], ◌∷◌, ◌++◌, Text, get_elem?, All, All-map, All-append, nat_eq, list_eq, if◌then◌else◌,
}
use pqcensus.Base.Sort.{nat_ord, list_ord, pair_ord}
use pqcensus.Analyzers.Python.Syntax.{Expr, Keyword, qualified_name, shadowed_reference}
use pqcensus.Analyzers.Python.Protocols.{Outcome, index_error, silent, observed, classify_call}
use pqcensus.Analyzers.Python.Assignments.{classify_assignment}
use pqcensus.Analyzers.Python.Tree.{
  Node, Kind, call, assign, ann_assign, named_expr, import_names, import_from, definition, argument,
  other_node, statically_unreachable,
}
use pqcensus.Analyzers.Python.Analysis.{
  Seen, Scope, assigned_value, seen_of_outcome, seen_call, seen_targets, seen_kind, seen_node,
  observations,
}

-- The targets and the value of an assignment.
abbrev pub targets_of : Kind → List Expr
targets_of (assign targets value) = targets
targets_of (ann_assign target annotation value) = target ∷ []
targets_of _ = []

abbrev pub value_of : Kind → Option Expr
value_of (assign targets value) = assigned_value (some value)
value_of (ann_assign target annotation value) = assigned_value value
value_of _ = none

-- A call of a name that is not shadowed is classified as the observation, by its qualified name.
abbrev pub IsCallSeen : Scope → Seen → Type 0
IsCallSeen s seen =
    (func : Expr) × (args : List Expr) × (keywords : List Keyword) × (seen.node.kind
      ≡ call func args keywords)
    × (shadowed_reference s.names.shadowed func ≡ false)
    × (seen.qname ≡ qualified_name s.names.aliases s.inferred func)
    × (classify_call seen.qname args keywords ≡ observed seen.observation)

-- One of the targets is classified as the observation, by its qualified name.
abbrev pub IsTargetSeen : Scope → List Expr → Option Expr → Seen → Type 0
IsTargetSeen s targets value seen =
    (i : ℕ) × (target : Expr) × (get_elem? targets i ≡ some target)
    × (seen.qname ≡ qualified_name s.names.aliases s.inferred target)
    × (classify_assignment s.names.aliases s.inferred target value seen.qname
        ≡ some seen.observation)

-- What is seen is seen of a given node that is reachable.
abbrev SeenOf : Scope → Node → Seen → Type 0
SeenOf s node seen =
    (seen.node ≡ node)
    × (IsCallSeen s seen ⊎ IsTargetSeen s (targets_of node.kind) (value_of node.kind) seen)

seen_of_outcome_lem :
    (s : Scope) (node : Node) (func : Expr) (args : List Expr) (keywords : List Keyword)
    (qname : Text) (o : Outcome) (seens : List Seen)
    → node.kind ≡ call func args keywords
    → shadowed_reference s.names.shadowed func ≡ false
    → qname ≡ qualified_name s.names.aliases s.inferred func
    → classify_call qname args keywords ≡ o
    → seen_of_outcome node qname o ≡ some seens
    → All (SeenOf s node) seens
unfolding seen_of_outcome
seen_of_outcome_lem s node func args keywords qname index_error seens k free q e h = absurd cc
seen_of_outcome_lem s node func args keywords qname silent seens k free q e h =
    subst (All (SeenOf s node)) (some-injective [] seens h) tt
seen_of_outcome_lem s node func args keywords qname (observed o) seens k free q e h =
    subst (All (SeenOf s node)) (some-injective _ seens h)
      ((refl, inl (func, args, keywords, k, free, q, e)), tt)

seen_call_lem :
    (s : Scope) (node : Node) (func : Expr) (args : List Expr) (keywords : List Keyword)
    (seens : List Seen)
    → node.kind ≡ call func args keywords
    → seen_call s node func args keywords ≡ some seens
    → All (SeenOf s node) seens
unfolding seen_call
seen_call_lem s node func args keywords seens k =
    let qname = qualified_name s.names.aliases s.inferred func in
    elim (Bool-cases (shadowed_reference s.names.shadowed func)) [
      | inl e ↦
          rw (seen_call, e, if◌then◌else◌)
            (λ h. subst (All (SeenOf s node)) (some-injective [] seens h) tt)
      | inr e ↦
          rw (seen_call, e, if◌then◌else◌)
            (seen_of_outcome_lem s node func args keywords qname (classify_call qname args keywords)
              seens k e refl refl)
    ]

IsTargetSeen-later :
    (s : Scope) (target : Expr) (targets : List Expr) (value : Option Expr) (seen : Seen)
    → IsTargetSeen s targets value seen
    → IsTargetSeen s (target ∷ targets) value seen
IsTargetSeen-later s target targets value seen (i, t, at, q, e) = (suc i, t, at, q, e)

seen_targets_lem :
    (s : Scope) (node : Node) (targets : List Expr) (value : Option Expr)
    → All
        (λ seen. (seen.node ≡ node) × IsTargetSeen s targets value seen)
        (seen_targets s node targets value)
unfolding seen_targets
seen_targets_lem s node [] value = tt
seen_targets_lem s node (target ∷ targets) value =
    let qname = qualified_name s.names.aliases s.inferred target in
    let later =
      All-map (λ seen. (seen.node ≡ node) × IsTargetSeen s targets value seen)
        (λ seen. (seen.node ≡ node) × IsTargetSeen s (target ∷ targets) value seen)
        (seen_targets s node targets value)
        (λ seen h. (h.0, IsTargetSeen-later s target targets value seen h.1))
        (seen_targets_lem s node targets value) in
    elim (Option-cases (classify_assignment s.names.aliases s.inferred target value qname)) [
      | inl e ↦ rw (seen_targets, e) later
      | inr (o, e) ↦ rw (seen_targets, e) ((refl, (0, target, refl, refl, e)), later)
    ]

none_seen :
    (s : Scope) (node : Node) (seens : List Seen) → some [] ≡ some seens → All (SeenOf s node) seens
none_seen s node seens h = subst (All (SeenOf s node)) (some-injective [] seens h) tt

seen_assignment_lem :
    (s : Scope) (node : Node) (k : Kind) (seens : List Seen)
    → node.kind ≡ k
    → some (seen_targets s node (targets_of k) (value_of k)) ≡ some seens
    → All (SeenOf s node) seens
seen_assignment_lem s node k seens e h =
    let seen = seen_targets s node (targets_of k) (value_of k) in
    subst (All (SeenOf s node)) (some-injective seen seens h) (
      All-map (λ x. (x.node ≡ node) × IsTargetSeen s (targets_of k) (value_of k) x) (SeenOf s node)
        seen
        (λ x p. (p.0, inr (subst (λ j. IsTargetSeen s (targets_of j) (value_of j) x) (sym e) p.1)))
        (seen_targets_lem s node (targets_of k) (value_of k)))

seen_kind_lem :
    (s : Scope) (node : Node) (k : Kind) (seens : List Seen)
    → node.kind ≡ k
    → seen_kind s node k ≡ some seens
    → All (SeenOf s node) seens
unfolding seen_kind
seen_kind_lem s node (call func args keywords) seens e h =
    seen_call_lem s node func args keywords seens e h
seen_kind_lem s node (assign targets value) seens e h =
    seen_assignment_lem s node (assign targets value) seens e h
seen_kind_lem s node (ann_assign target annotation value) seens e h =
    seen_assignment_lem s node (ann_assign target annotation value) seens e h
seen_kind_lem s node (named_expr t) seens e h = none_seen s node seens h
seen_kind_lem s node (import_names items) seens e h = none_seen s node seens h
seen_kind_lem s node (import_from source items) seens e h = none_seen s node seens h
seen_kind_lem s node (definition id) seens e h = none_seen s node seens h
seen_kind_lem s node (argument id annotation) seens e h = none_seen s node seens h
seen_kind_lem s node other_node seens e h = none_seen s node seens h

-- What is seen at a place of the walk: a reachable node, and what is seen of it.
abbrev pub SeenIn : Scope → List Node → Seen → Type 0
SeenIn s nodes seen =
    ((i : ℕ) × (get_elem? nodes i ≡ some seen.node))
    × (statically_unreachable seen.node.links ≡ false)
    × (IsCallSeen s seen
        ⊎ IsTargetSeen s (targets_of seen.node.kind) (value_of seen.node.kind) seen)

seen_node_lem :
    (s : Scope) (node : Node) (nodes : List Node) (seens : List Seen)
    → seen_node s node ≡ some seens
    → All (SeenIn s (node ∷ nodes)) seens
unfolding seen_node
seen_node_lem s node nodes seens = elim (Bool-cases (statically_unreachable node.links)) [
  | inl e ↦
      rw (seen_node, e, if◌then◌else◌)
        (λ h. subst (All (SeenIn s (node ∷ nodes))) (some-injective [] seens h) tt)
  | inr e ↦
      rw (seen_node, e, if◌then◌else◌)
        (λ h.
          All-map (SeenOf s node) (SeenIn s (node ∷ nodes)) seens
            (λ x p.
              subst
                (λ n.
                  ((i : ℕ) × (get_elem? (node ∷ nodes) i ≡ some n))
                  × (statically_unreachable n.links ≡ false)
                  × (IsCallSeen s x ⊎ IsTargetSeen s (targets_of n.kind) (value_of n.kind) x))
                (sym p.0) ((0, refl), e, p.1))
            (seen_kind_lem s node node.kind seens refl h))
]

SeenIn-later :
    (s : Scope) (node : Node) (nodes : List Node) (seen : Seen)
    → SeenIn s nodes seen
    → SeenIn s (node ∷ nodes) seen
SeenIn-later s node nodes seen ((i, at), reached, origin) = ((suc i, at), reached, origin)

pub observations_lem :
    (s : Scope) (nodes : List Node) (seens : List Seen)
    → observations s nodes ≡ some seens
    → All (SeenIn s nodes) seens
unfolding observations
observations_lem s [] seens = (λ h. subst (All (SeenIn s [])) (some-injective [] seens h) tt)
observations_lem s (node ∷ nodes) seens = elim (Option-cases (seen_node s node)) [
  | inl e ↦ rw (observations, e) (λ h. absurd cc)
  | inr (here, e) ↦ elim (Option-cases (observations s nodes)) [
    | inl f ↦ rw (observations, e, f) (λ h. absurd cc)
    | inr (later, f) ↦
        rw (observations, e, f)
          (λ h. subst (All (SeenIn s (node ∷ nodes))) (some-injective (here ++ later) seens h) (
            All-append (SeenIn s (node ∷ nodes)) here later (seen_node_lem s node nodes here e) (
              All-map (SeenIn s nodes) (SeenIn s (node ∷ nodes)) later (SeenIn-later s node nodes)
                (observations_lem s nodes later f))))
  ]
]
