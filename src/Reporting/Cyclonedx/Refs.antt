-- ===== src/Reporting/Cyclonedx/Refs.antt =====
-- The references among the components of a CycloneDX document (src/quantumguard/reporting.py).
use pqcensus.Base.{
  given_text, true, ◌≡◌, ◌∙◌, refl, inl, inr, Option, none, some, Option-cases, List, [], ◌∷◌, ◌++◌,
  Text, map, contains, ==_refl, All, All-map, All-append, lower, arith, nat_eq, list_eq,
}
use pqcensus.Base.Sort.{sorted, nat_ord, list_ord, pair_ord}
use pqcensus.Base.Sort.Laws.{contains-sorted, All-sorted, map-sorted}
use pqcensus.Base.Dict.{Dict, lookup, insert}
use pqcensus.Base.Dict.Entries.{All-insert, lookup-All}
use pqcensus.Model.Result.{CryptoAsset, Dependency}
use pqcensus.Audit.Complete.{AuditResult}
use pqcensus.Reporting.Cyclonedx.{
  asset_ref, asset_component, asset_components, dependency_of, append_to, add_asset, add_assets,
  application_ref, dependency_ref, dependency_component, dependency_refs, bom_components,
  asset_dependencies, cyclonedx_components, cyclonedx_dependencies,
}

-- A reference and all that depend on it are among the given ones.
abbrev pub RefersTo : List Text → Text × List Text → Type 0
RefersTo refs d = (contains refs d.0 ≡ true) × All (λ t. contains refs t ≡ true) d.1

-- A dict's values are among the given references.
abbrev Known : List Text → Text × Text → Type 0
Known refs e = contains refs e.1 ≡ true

append_to-RefersTo :
    (refs : List Text) (ref child : Text) (children : Dict Text (List Text))
    → contains refs ref ≡ true
    → contains refs child ≡ true
    → All (RefersTo refs) children
    → All (RefersTo refs) (append_to ref child children)
unfolding append_to
append_to-RefersTo refs ref child children h k all = elim (Option-cases (lookup ref children)) [
  | inl none_yet ↦
      rw (append_to, none_yet)
        (All-insert (RefersTo refs) ref (child ∷ []) children (h, (k, tt)) all)
  | inr (present, found) ↦
      rw (append_to, found)
        (All-insert (RefersTo refs) ref (present ++ child ∷ []) children
          (
            h,
            All-append (λ t. contains refs t ≡ true) present (child ∷ [])
                (lookup-All (RefersTo refs) ref present children all found).1 (k, tt),
          )
          all)
]

dependency_of-Known :
    (known : Dict Text Text) (refs : List Text) (a : CryptoAsset) (ref : Text)
    → All (Known refs) known
    → dependency_of known a ≡ some ref
    → contains refs ref ≡ true
unfolding dependency_of
dependency_of-Known known refs a ref all =
    elim (given_text a.dependency)
      as (λ o.
        elim o [ none ↦ none | some name ↦ lookup (lower name) known ] ≡ some ref
        → contains refs ref ≡ true) [
          | none ↦ (λ h. ground arith)
          | some name ↦ lookup-All (Known refs) (lower name) ref known all
        ]

-- The references of the components of assets are among the given ones.
abbrev Listed : List Text → List CryptoAsset → Type 0
Listed refs assets = All (λ c. contains refs c.bom_ref ≡ true) (asset_components assets)

-- What `add_asset` makes of the dependency of an asset with an algorithm.
abbrev add_to : Text → Dict Text (List Text) → Option Text → Dict Text (List Text)
add_to child children none = children
add_to child children (some ref) = append_to ref child children

add_to-RefersTo :
    (refs : List Text) (child : Text) (children : Dict Text (List Text)) (o : Option Text)
    → contains refs child ≡ true
    → All (RefersTo refs) children
    → ((ref : Text) → o ≡ some ref → contains refs ref ≡ true)
    → All (RefersTo refs) (add_to child children o)
add_to-RefersTo refs child children none h linked known = linked
add_to-RefersTo refs child children (some ref) h linked known =
    append_to-RefersTo refs ref child children (known ref refl) h linked

add_asset-RefersTo :
    (known : Dict Text Text) (refs : List Text) (a : CryptoAsset) (assets : List CryptoAsset)
    (children : Dict Text (List Text))
    → All (Known refs) known
    → Listed refs (a ∷ assets)
    → All (RefersTo refs) children
    → All (RefersTo refs) (add_asset known a children) × Listed refs assets
unfolding add_asset asset_components asset_component
add_asset-RefersTo known refs a assets children all listed linked =
    elim (given_text a.algorithm)
        as (λ o.
          All (λ c. contains refs c.bom_ref ≡ true)
            (elim o [
              | none ↦ asset_components assets
              | some algorithm ↦ asset_component a algorithm ∷ asset_components assets
            ])
          → All (RefersTo refs) (elim o [
            | none ↦ children
            | some algorithm ↦ elim (dependency_of known a) [
              | none ↦ children
              | some ref ↦ append_to ref (asset_ref a) children
            ]
          ])
            × Listed refs assets) [
              | none ↦ (λ h. (linked, h))
              | some algorithm ↦ (λ h. (
                add_to-RefersTo refs (asset_ref a) children (dependency_of known a) h.0 linked
                    (λ ref. dependency_of-Known known refs a ref all),
                h.1,
              ))
            ]
      listed

add_assets-RefersTo :
    (known : Dict Text Text) (refs : List Text) (assets : List CryptoAsset)
    (children : Dict Text (List Text))
    → All (Known refs) known
    → Listed refs assets
    → All (RefersTo refs) children
    → All (RefersTo refs) (add_assets known assets children)
unfolding add_assets
add_assets-RefersTo known refs [] children all listed linked = linked
add_assets-RefersTo known refs (a ∷ assets) children all listed linked =
    let (here, rest) = add_asset-RefersTo known refs a assets children all listed linked in
    add_assets-RefersTo known refs assets (add_asset known a children) all rest here

All-contains : (refs : List Text) → All (λ t. contains refs t ≡ true) refs
unfolding contains
All-contains [] = tt
All-contains (t ∷ ts) = (
  rw (==_refl t) refl,
  All-map (λ u. contains ts u ≡ true) (λ u. contains (t ∷ ts) u ≡ true) ts
      (λ u h. ground (arith, h)) (All-contains ts),
)

All-unmap {ℓ κ μ} :
    {A : Type ℓ} {B : Type κ} (f : A → B) (P : B → Type μ) (xs : List A)
    → All P (map f xs)
    → All (λ x. P (f x)) xs
All-unmap f P [] h = tt
All-unmap f P (x ∷ xs) h = (h.0, All-unmap f P xs h.1)

All-split {ℓ κ} :
    {A : Type ℓ} (P : A → Type κ) (xs ys : List A) → All P (xs ++ ys) → All P xs × All P ys
All-split P [] ys h = (tt, h)
All-split P (x ∷ xs) ys h = let (l, r) = All-split P xs ys h.1 in ((h.0, l), r)

sorted-RefersTo :
    (refs : List Text) (entries : Dict Text (List Text))
    → All (RefersTo refs) entries
    → All (RefersTo (sorted (λ t. t) refs)) (map (λ d. (d.0, sorted (λ t. t) d.1)) entries)
sorted-RefersTo refs [] linked = tt
sorted-RefersTo refs ((ref, children) ∷ entries) ((known, all), linked) = (
  (
    contains-sorted refs ref ∙ known,
    All-sorted (λ t. t) (λ t. contains (sorted (λ u. u) refs) t ≡ true) children
        (All-map (λ t. contains refs t ≡ true) (λ t. contains (sorted (λ u. u) refs) t ≡ true)
          children (λ t h. contains-sorted refs t ∙ h) all),
  ),
  sorted-RefersTo refs entries linked,
)

module _ (sha256 : Text → Text) where
  dependency_refs-Known :
      (refs : List Text) (known : Dict Text Text) (ds : List Dependency)
      → All (Known refs) known
      → All (λ d. contains refs (dependency_ref sha256 d) ≡ true) ds
      → All (Known refs) (dependency_refs sha256 known ds)
  unfolding dependency_refs
  dependency_refs-Known refs known [] all listed = all
  dependency_refs-Known refs known (d ∷ ds) all listed =
      dependency_refs-Known refs (insert (lower d.name) (dependency_ref sha256 d) known) ds
        (All-insert (Known refs) (lower d.name) (dependency_ref sha256 d) known listed.0 all)
        listed.1

  -- Every entry of `asset_dependencies` is among the references of the components.
  asset_dependencies-RefersTo :
      (r : AuditResult)
      → All
          (RefersTo (map (λ c. c.bom_ref) (bom_components sha256 r)))
          (asset_dependencies sha256 r)
  unfolding asset_dependencies bom_components dependency_component
  asset_dependencies-RefersTo r =
      let refs = map (λ c. c.bom_ref) (bom_components sha256 r) in
      let (libraries, found) =
        All-split (λ c. contains refs c.bom_ref ≡ true)
          (map (dependency_component sha256) r.dependencies) (asset_components r.assets)
          (All-unmap (λ c. c.bom_ref) (λ t. contains refs t ≡ true) (bom_components sha256 r)
            (All-contains refs)) in
      add_assets-RefersTo (dependency_refs sha256 [] r.dependencies) refs r.assets []
        (dependency_refs-Known refs [] r.dependencies tt (
          All-unmap (dependency_component sha256) (λ c. contains refs c.bom_ref ≡ true)
            r.dependencies libraries))
        found tt

  -- In a CycloneDX document, the first entry of "dependencies" is that of the application, which
  -- depends on every component, in the order in which they are listed; and each other entry is that
  -- of a listed component and names listed components only.
  pub cyclonedx_dependencies_lem :
      (r : AuditResult)
      → let refs = map (λ c. c.bom_ref) (cyclonedx_components sha256 r) in
        (rest : List (Text × List Text)) × (cyclonedx_dependencies sha256 r
          ≡ (application_ref sha256 r.repository, refs) ∷ rest)
        × All (RefersTo refs) rest
  unfolding cyclonedx_dependencies cyclonedx_components
  cyclonedx_dependencies_lem r =
      let components = bom_components sha256 r in
      let entries = sorted (λ d. d) (asset_dependencies sha256 r) in
      rw (map-sorted (λ c. c.bom_ref) components) (
        map (λ d. (d.0, sorted (λ t. t) d.1)) entries,
        refl,
        sorted-RefersTo (map (λ c. c.bom_ref) components) entries (
            All-sorted (λ d. d) (RefersTo (map (λ c. c.bom_ref) components))
              (asset_dependencies sha256 r) (asset_dependencies-RefersTo r)),
      )
