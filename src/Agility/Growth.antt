-- ===== src/Agility/Growth.antt =====
-- More source files never lower the components of src/quantumguard/agility.py that look for signals in
-- texts.
use pqcensus.Base.{
  ℕ, ◌≤◌, Bool, true, ◌≡◌, refl, List, [], ◌∷◌, ◌++◌, Text, text, any, occurs, starts_with, keep,
  map, join, lower, contains, non_empty, All, nat_eq, ap, sym, ◌∙◌, ◌||◌, false, nat_beq_iff, arith,
  if◌then◌else◌, Bool-cases, inl, inr,
}
use pqcensus.Model.{Finding}
use pqcensus.Model.Result.{Dependency}
use pqcensus.Agility.{
  negotiation_words, dual_words, key_words, certificate_words, SourceText, is_signal_file,
  signal_texts, has_signal,
}
use pqcensus.Agility.Components.{components_of, signal_component}

-- A text that can stand in one line, and is not empty.
abbrev IsWord : Text → Type 0
IsWord s = (non_empty s ≡ true) × (contains s 10 ≡ false)

starts_with-append :
    (s p r : Text) → contains s 10 ≡ false → starts_with s (p ++ (10 ∷ r)) ≡ starts_with s p
unfolding starts_with contains
starts_with-append [] p r h = refl
starts_with-append (c ∷ s) [] r h = ground (arith, nat_beq_iff c 10)
starts_with-append (c ∷ s) (d ∷ p) r h = ground (arith, starts_with-append s p r)

occurs-append : (s p r : Text) → IsWord s → occurs s (p ++ (10 ∷ r)) ≡ (occurs s p || occurs s r)
unfolding occurs starts_with contains
occurs-append [] p r h = absurd cc
occurs-append (c ∷ s) [] r h = ground (arith, nat_beq_iff c 10)
occurs-append (c ∷ s) (d ∷ p) r h =
    ground (arith, occurs-append (c ∷ s) p r h, starts_with-append (c ∷ s) (d ∷ p) r h.1)

-- A word occurs in lines exactly if it occurs in one of them.
occurs-join :
    (s : Text) (ts : List Text) → IsWord s → occurs s (join (text "\n") ts) ≡ any (occurs s) ts
unfolding join any occurs starts_with
occurs-join [] ts h = absurd cc
occurs-join (c ∷ s) [] h = refl
occurs-join (c ∷ s) (p ∷ []) h = ground arith
occurs-join (c ∷ s) (p ∷ q ∷ r) h =
    occurs-append (c ∷ s) p (join (text "\n") (q ∷ r)) h
    ∙ ap (λ b. occurs (c ∷ s) p || b) (occurs-join (c ∷ s) (q ∷ r) h)

-- Another file among those that are read for signals hides nothing.
any-signal_files :
    (p : Text → Bool) (f : SourceText) (before after : List SourceText)
    → any p (map (λ r. lower r.1) (keep is_signal_file (before ++ after))) ≡ true
    → any p (map (λ r. lower r.1) (keep is_signal_file (before ++ (f ∷ after)))) ≡ true
unfolding any keep
any-signal_files p f [] after = elim (Bool-cases (is_signal_file f)) [
  | inl kept ↦ rw (kept, if◌then◌else◌) (λ h. ground arith)
  | inr dropped ↦ rw (dropped, if◌then◌else◌) (λ h. h)
]
any-signal_files p f (g ∷ before) after = elim (Bool-cases (is_signal_file g)) [
  | inl kept ↦ rw (kept, if◌then◌else◌) (λ h. ground (arith, any-signal_files p f before after))
  | inr dropped ↦ rw (dropped, if◌then◌else◌) (any-signal_files p f before after)
]

occurs-signal_texts :
    (s : Text) (f : SourceText) (before after : List SourceText)
    → IsWord s
    → occurs s (signal_texts (before ++ after)) ≡ true
    → occurs s (signal_texts (before ++ (f ∷ after))) ≡ true
unfolding signal_texts
occurs-signal_texts s f before after word h =
    let lines : List SourceText → List Text =
      λ sources. map (λ r. lower r.1) (keep is_signal_file sources) in
    occurs-join s (lines (before ++ (f ∷ after))) word
    ∙ any-signal_files (occurs s) f before after
        (sym (occurs-join s (lines (before ++ after)) word) ∙ h)

has_signal-signal_texts :
    (words : List Text) (f : SourceText) (before after : List SourceText)
    → All IsWord words
    → has_signal words (signal_texts (before ++ after)) ≡ true
    → has_signal words (signal_texts (before ++ (f ∷ after))) ≡ true
unfolding has_signal any
has_signal-signal_texts [] f before after all h = h
has_signal-signal_texts (w ∷ words) f before after all h = ground (
  arith,
  occurs-signal_texts w f before after all.0,
  has_signal-signal_texts words f before after all.1,
)

signal_component_mono :
    (a b : Bool) (high low : ℕ) (s t : Text)
    → low ≤ high
    → (a ≡ true → b ≡ true)
    → (signal_component a high low s t).score ≤ (signal_component b high low s t).score
unfolding signal_component
signal_component_mono a b high low s t h k = ground arith

-- With one more source file, wherever its path puts it among the others, the scores for negotiation, for
-- two algorithms at once, and for the rotation of keys and of certificates are never lower.
pub components_of_mono :
    (fs : List Finding) (dependencies : List Dependency) (f : SourceText)
    (before after : List SourceText)
    → let old = components_of fs dependencies (before ++ after) in
      let new = components_of fs dependencies (before ++ (f ∷ after)) in
      (old.negotiation.score ≤ new.negotiation.score)
      × (old.dual.score ≤ new.dual.score)
      × (old.key_rotation.score ≤ new.key_rotation.score)
      × (old.certificate_rotation.score ≤ new.certificate_rotation.score)
unfolding components_of contains
components_of_mono fs dependencies f before after = (
  signal_component_mono _ _ 80 25 _ _ (omega arith) (
      has_signal-signal_texts negotiation_words f before after
        ((refl, refl), ((refl, refl), ((refl, refl), ((refl, refl), tt))))),
  signal_component_mono _ _ 80 20 _ _ (omega arith) (
      has_signal-signal_texts dual_words f before after
        ((refl, refl), ((refl, refl), ((refl, refl), ((refl, refl), tt))))),
  signal_component_mono _ _ 75 30 _ _ (omega arith) (
      has_signal-signal_texts key_words f before after
        ((refl, refl), ((refl, refl), ((refl, refl), tt)))),
  signal_component_mono _ _ 75 30 _ _ (omega arith) (
      has_signal-signal_texts certificate_words f before after
        ((refl, refl), ((refl, refl), ((refl, refl), tt)))),
)
