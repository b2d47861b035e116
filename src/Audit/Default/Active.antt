-- ===== src/Audit/Default/Active.antt =====
-- The analyzers of src/quantumguard/analyzers return active findings, so that the theorems on whole
-- audits hold of `audit` of src/quantumguard/api.py with its own analyzers.
use pqcensus.Base.{
  true, false, ◌≡◌, ap, Option-cases, inl, inr, List, [], ◌∷◌, ◌++◌, Text, All, All-map, All-append,
  if◌then◌else◌,
}
use pqcensus.Model.{Finding}
use pqcensus.Model.Values.{is_active}
use pqcensus.Policy.{Rule}
use pqcensus.Analyzers.Common.{IsFresh}
use pqcensus.Analyzers.Config.Fresh.{IsFreshAt, analyze-IsFresh}
use pqcensus.Analyzers.Textual.Fresh.{IsFreshToken, analyze_text-IsFreshToken}
use pqcensus.Analyzers.Python.Analysis.{Parsed, failed, walked, analyze_nodes, analyze_python}
use pqcensus.Analyzers.Python.Traced.{IsTraced, analyze_nodes_lem}
use pqcensus.Audit.{Analyzer, sees, analyze_file, analyze_files}
use pqcensus.Audit.Default.{
  Tools, python_analyzer, text_analyzer, config_analyzer, default_analyzers, selected_analyzers,
  findings_or_none,
}

abbrev pub IsActive : Finding → Type 0
IsActive f = is_active f.status ≡ true

-- An analyzer returns active findings, of whatever file.
abbrev pub IsSound : Analyzer → Type 0
IsSound a = (path source : Text) → All IsActive (a.analyze path source)

IsFresh-IsActive : (rules : List Rule) (f : Finding) → IsFresh rules f → IsActive f
unfolding is_active
IsFresh-IsActive rules f fresh = ap is_active fresh.status

analyze_file-IsActive :
    (analyzers : List Analyzer) (path source : Text)
    → All IsSound analyzers
    → All IsActive (analyze_file analyzers path source)
unfolding analyze_file
analyze_file-IsActive [] path source h = tt
analyze_file-IsActive (a ∷ analyzers) path source (sound, h) =
    let rest = analyze_file-IsActive analyzers path source h in
    elim (sees a.kind path)
      as (λ b. All IsActive (
        if b
        then a.analyze path source ++ analyze_file analyzers path source
        else analyze_file analyzers path source)) [
          | true ↦
              All-append IsActive (a.analyze path source) (analyze_file analyzers path source)
                (sound path source) rest
          | false ↦ rest
        ]

analyze_files-IsActive :
    (analyzers : List Analyzer) (files : List (Text × Text))
    → All IsSound analyzers
    → All IsActive (analyze_files analyzers files)
unfolding analyze_files
analyze_files-IsActive analyzers [] h = tt
analyze_files-IsActive analyzers ((path, source) ∷ files) h =
    All-append IsActive (analyze_file analyzers path source) (analyze_files analyzers files)
      (analyze_file-IsActive analyzers path source h) (analyze_files-IsActive analyzers files h)

module _ (tools : Tools) (rules : List Rule) where
  config_analyzer-IsSound : IsSound (config_analyzer tools rules)
  unfolding config_analyzer
  config_analyzer-IsSound path source =
      All-map (IsFreshAt tools.parsers rules path) IsActive _ (λ f h. IsFresh-IsActive rules f h.0)
        (analyze-IsFresh tools.parsers rules path source)

  text_analyzer-IsSound : IsSound (text_analyzer tools rules)
  unfolding text_analyzer
  text_analyzer-IsSound path source =
      All-map (IsFreshToken tools.parsers.sha256 tools.isalnum rules path) IsActive _
        (λ f h. IsFresh-IsActive rules f h.0)
        (analyze_text-IsFreshToken tools.parsers.sha256 tools.isalnum rules path source)

  analyze_python-IsActive :
      (path source : Text) (parsed : Parsed)
      → All IsActive
          (findings_or_none (analyze_python tools.parsers.sha256 rules path source parsed))
  unfolding analyze_python findings_or_none
  analyze_python-IsActive path source (failed error) = tt
  analyze_python-IsActive path source (walked nodes) =
      elim (Option-cases (analyze_nodes tools.parsers.sha256 rules path source nodes)) [
        | inl e ↦ rw (findings_or_none, e) tt
        | inr (fs, e) ↦
            rw (findings_or_none, e)
              (All-map (IsTraced rules path nodes) IsActive fs (λ f h. IsFresh-IsActive rules f h.0)
                (analyze_nodes_lem tools.parsers.sha256 rules path source nodes fs e).0)
      ]

  python_analyzer-IsSound : IsSound (python_analyzer tools rules)
  unfolding python_analyzer
  python_analyzer-IsSound path source =
      analyze_python-IsActive path source (tools.parse_python path source)

  selected_analyzers-IsSound :
      (analyzers : List Analyzer)
      → All IsSound analyzers
      → All IsSound (selected_analyzers tools rules analyzers)
  unfolding selected_analyzers default_analyzers
  selected_analyzers-IsSound [] h =
      (python_analyzer-IsSound, (text_analyzer-IsSound, (config_analyzer-IsSound, tt)))
  selected_analyzers-IsSound (a ∷ analyzers) h = h

  pub selected_analyzers-IsActive :
      (analyzers : List Analyzer) (files : List (Text × Text))
      → All IsSound analyzers
      → All IsActive (analyze_files (selected_analyzers tools rules analyzers) files)
  selected_analyzers-IsActive analyzers files h =
      analyze_files-IsActive (selected_analyzers tools rules analyzers) files
        (selected_analyzers-IsSound analyzers h)
