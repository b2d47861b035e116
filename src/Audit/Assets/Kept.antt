-- ===== src/Audit/Assets/Kept.antt =====
-- Which assets `_assets` of src/quantumguard/api.py returns.
use pqcensus.Base.{
  ℕ, suc, Bool, some, ◌&&◌, keep, get_elem?, Bool-cases, if◌then◌else◌, true, ◌≡◌, ◌⊎◌, inl, inr,
  refl, ◌∙◌, none, List, [], ◌∷◌, Text, map, any, count, All, All-append, nat_eq, list_eq, ◌==◌,
}
use pqcensus.Base.Dict.{last_with}
use pqcensus.Base.Dict.Indexed.{
  index_by, as_count, passes, any-index_by, count-index_by, All-index_by,
}
use pqcensus.Base.Sort.{IsSorted, nat_ord, list_ord, pair_ord}
use pqcensus.Base.Sort.Laws.{sorted-IsSorted, count-sorted, any-sorted, All-sorted}
use pqcensus.Model.{Finding}
use pqcensus.Model.Result.{CryptoAsset, Dependency}
use pqcensus.Dependencies.{crypto_dependency}
use pqcensus.Audit.Assets.{finding_asset, library_asset, written_assets, asset_key, assets}

module _ (sha256 : Text → Text) (fs : List Finding) (dependencies : List Dependency) where
  -- Where an asset comes from: it is that of a finding, or that of a dependency that is taken for a
  -- library of cryptography.
  abbrev pub IsTraced : CryptoAsset → Type 0
  IsTraced a =
      ((i : ℕ) × (f : Finding) × (get_elem? fs i ≡ some f)
        × (a ≡ finding_asset sha256 dependencies f))
      ⊎ ((i : ℕ) × (d : Dependency) × (get_elem? dependencies i ≡ some d)
          × (crypto_dependency d.name ≡ true)
          × (a ≡ library_asset sha256 d))

  finding_assets_lem :
      (gs : List Finding)
      → ((i : ℕ) (f : Finding) → get_elem? gs i ≡ some f → (j : ℕ) × (get_elem? fs j ≡ some f))
      → All IsTraced (map (finding_asset sha256 dependencies) gs)
  finding_assets_lem [] within = tt
  finding_assets_lem (g ∷ gs) within = (
    (let (j, at) = within 0 g refl in inl (j, g, at, refl)),
    finding_assets_lem gs (λ i f h. within (suc i) f h),
  )

  library_assets_lem :
      (ds : List Dependency)
      → ((i : ℕ) (d : Dependency)
          → get_elem? ds i ≡ some d
          → (j : ℕ) × (get_elem? dependencies j ≡ some d))
      → All IsTraced (map (library_asset sha256) (keep (λ d. crypto_dependency d.name) ds))
  unfolding keep
  library_assets_lem [] within = tt
  library_assets_lem (d ∷ ds) within =
      let rest = library_assets_lem ds (λ i c h. within (suc i) c h) in
      elim (Bool-cases (crypto_dependency d.name)) [
        | inl e ↦
            rw (e, if◌then◌else◌) ((let (j, at) = within 0 d refl in inr (j, d, at, e, refl)), rest)
        | inr e ↦ rw (e, if◌then◌else◌) rest
      ]

  written_assets-IsTraced : All IsTraced (written_assets sha256 fs dependencies)
  unfolding written_assets
  written_assets-IsTraced =
      All-append IsTraced _ _ (finding_assets_lem fs (λ i f h. (i, h)))
        (library_assets_lem dependencies (λ i d h. (i, h)))

  -- The assets are those of the findings and of the libraries of cryptography, exactly one for each
  -- identifier among them, the last that was written; each is the asset of a finding, or of a dependency
  -- in the list that is taken for a library of cryptography; and they are ordered by type, name and
  -- identifier.
  pub assets_lem :
      ((id : Text)
        → count (λ a. id == a.asset_id) (assets sha256 fs dependencies)
          ≡ as_count (last_with (λ a. a.asset_id) id none (written_assets sha256 fs dependencies)))
      × ((id : Text) (p : CryptoAsset → Bool)
          → any (λ a. (id == a.asset_id) && p a) (assets sha256 fs dependencies)
            ≡ passes p
                (last_with (λ a. a.asset_id) id none (written_assets sha256 fs dependencies)))
      × All IsTraced (assets sha256 fs dependencies)
      × IsSorted {K = Text × (Text × Text)}
          (λ a. (a.asset_type, (a.name, a.asset_id)))
          (assets sha256 fs dependencies)
  unfolding assets asset_key
  assets_lem =
      let written = written_assets sha256 fs dependencies in
      let kept = index_by (λ a. a.asset_id) written in
      (
        (λ id.
            count-sorted asset_key (λ a. id == a.asset_id) kept
            ∙ count-index_by (λ a. a.asset_id) id written),
        (λ id p.
            any-sorted asset_key (λ a. (id == a.asset_id) && p a) kept
            ∙ any-index_by (λ a. a.asset_id) id p written),
        All-sorted asset_key IsTraced kept
            (All-index_by (λ a. a.asset_id) IsTraced written written_assets-IsTraced),
        sorted-IsSorted asset_key kept,
      )
