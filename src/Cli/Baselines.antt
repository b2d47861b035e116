-- ===== src/Cli/Baselines.antt =====
-- The difference to a baseline sorts the identifiers into three.
use pqcensus.Base.{
  Bool, true, false, ◌&&◌, not, ◌≡◌, refl, ◌∙◌, List, [], ◌∷◌, Text, keep, contains, ◌==◌, ==_iff,
  list_eq, nat_eq, arith, ap, sym, some, map, list_beq, decimal,
}
use pqcensus.Base.Sort.{sorted, IsSorted, nat_ord, list_ord}
use pqcensus.Base.Sort.Laws.{contains-sorted, sorted-IsSorted}
use pqcensus.Model.{Finding}
use pqcensus.Base.Json.{Json, string, items_of, fields_of, document, number, strings, get_field}
use pqcensus.Cli.{
  distinct, active_ids, baseline_diff, baseline_document, baseline_dict, is_one, str, strs,
  baseline_ids, load_baseline,
}

contains-keep :
    (p : Text → Bool) (ts : List Text) (t : Text) → contains (keep p ts) t ≡ (contains ts t && p t)
unfolding keep contains
contains-keep p [] t = refl
contains-keep p (s ∷ ts) t = ground (arith, contains-keep p ts t, ==_iff t s)

pub contains-distinct : (ts : List Text) (t : Text) → contains (distinct ts) t ≡ contains ts t
unfolding distinct contains
contains-distinct [] t = refl
contains-distinct (s ∷ ts) t =
    ground
      (arith, contains-keep (λ r. not (r == s)) (distinct ts) t, contains-distinct ts t, ==_iff t s)

-- An identifier is new exactly if it is active now and not in the baseline, fixed exactly if it is in
-- the baseline and not active now, and unchanged exactly if it is both; the three lists are sorted.
pub baseline_diff_lem :
    (fs : List Finding) (baseline : List Text) (t : Text)
    → let d = baseline_diff fs baseline in
      (contains d.new_ids t ≡ (contains (active_ids fs) t && not (contains baseline t)))
      × (contains d.fixed t ≡ (contains baseline t && not (contains (active_ids fs) t)))
      × (contains d.unchanged t ≡ (contains (active_ids fs) t && contains baseline t))
      × IsSorted (λ s. s) d.new_ids
      × IsSorted (λ s. s) d.fixed
      × IsSorted (λ s. s) d.unchanged
unfolding baseline_diff
baseline_diff_lem fs baseline t =
    let now = distinct (active_ids fs) in
    (
      ground (
        arith,
        contains-sorted (keep (λ s. not (contains baseline s)) now) t,
        contains-keep (λ s. not (contains baseline s)) now t,
        contains-distinct (active_ids fs) t,
      ),
      ground (
        arith,
        contains-sorted (keep (λ s. not (contains now s)) baseline) t,
        contains-keep (λ s. not (contains now s)) baseline t,
        contains-distinct (active_ids fs) t,
      ),
      ground (
        arith,
        contains-sorted (keep (λ s. contains baseline s) now) t,
        contains-keep (λ s. contains baseline s) now t,
        contains-distinct (active_ids fs) t,
      ),
      sorted-IsSorted (λ s. s) (keep (λ s. not (contains baseline s)) now),
      sorted-IsSorted (λ s. s) (keep (λ s. not (contains now s)) baseline),
      sorted-IsSorted (λ s. s) (keep (λ s. contains baseline s) now),
    )

keep-nil :
    (p : Text → Bool) (ts : List Text)
    → ((t : Text) → contains ts t ≡ true → p t ≡ false)
    → keep p ts ≡ []
unfolding keep contains
keep-nil p [] h = refl
keep-nil p (t ∷ ts) h =
    rw (h t (ground (arith, ==_iff t t)), keep-nil p ts (λ s m. h s (ground arith)))

same :
    (fs : List Finding) (t : Text)
    → contains (distinct (sorted (λ s. s) (active_ids fs))) t
      ≡ contains (distinct (active_ids fs)) t
same fs t =
    contains-distinct (sorted (λ s. s) (active_ids fs)) t
    ∙ contains-sorted (active_ids fs) t
    ∙ sym (contains-distinct (active_ids fs) t)

strs-items_of :
    (to_text : Json → Text) (ts : List Text) → strs to_text (items_of (map string ts)) ≡ ts
unfolding strs str items_of
strs-items_of to_text [] = refl
strs-items_of to_text (t ∷ ts) = ap (λ r. t ∷ r) (strs-items_of to_text ts)

-- The document of a baseline is read as the set of its identifiers.
load_baseline-baseline_dict :
    (to_text : Json → Text) (fs : List Finding) (version repository : Text)
    → load_baseline to_text (baseline_dict (baseline_document fs version repository))
      ≡ some (distinct (sorted (λ t. t) (active_ids fs)))
unfolding load_baseline baseline_dict baseline_document baseline_ids is_one get_field number strings
    document fields_of list_beq decimal
load_baseline-baseline_dict to_text fs version repository =
    ap (λ ts. some (distinct ts)) (strs-items_of to_text (sorted (λ t. t) (active_ids fs)))

-- The document of a baseline is accepted when it is read back, whatever `str` makes of values that are no
-- strings, and the same findings have nothing new and nothing fixed against it.
pub baseline_diff_self :
    (to_text : Json → Text) (fs : List Finding) (version repository : Text)
    → (b : List Text) × (load_baseline to_text
          (baseline_dict (baseline_document fs version repository))
        ≡ some b)
      × ((baseline_diff fs b).new_ids ≡ [])
      × ((baseline_diff fs b).fixed ≡ [])
unfolding baseline_diff
baseline_diff_self to_text fs version repository =
    let b = distinct (sorted (λ t. t) (active_ids fs)) in
    let now = distinct (active_ids fs) in
    (
      b,
      load_baseline-baseline_dict to_text fs version repository,
      ap (sorted (λ t. t))
          (keep-nil (λ t. not (contains b t)) now (λ t m. ground (arith, same fs t))),
      ap (sorted (λ t. t))
          (keep-nil (λ t. not (contains now t)) b (λ t m. ground (arith, same fs t))),
    )
