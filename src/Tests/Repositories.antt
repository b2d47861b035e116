-- ===== src/Tests/Repositories.antt =====
-- The theorems about the files, the dependencies and the score of a repository, at concrete inputs.
use pqcensus.Base.{
  ◌++◌, lower, ◌≡◌, ◌≤◌, refl, true, false, ◌==◌, ◌&&◌, none, some, Bool, [], ◌∷◌, List, Text, text,
  any, count, nat_eq, list_eq, pair_eq, list_beq, is_upper, is_space,
}
use pqcensus.Base.Dict.{last_with}
use pqcensus.Base.Dict.Indexed.{as_count, passes}
use pqcensus.Base.Sort.{IsSorted, nat_ord, list_ord, pair_ord}
use pqcensus.Model.Result.{Dependency}
use pqcensus.Agility.{SourceText}
use pqcensus.Agility.Components.{overall_score, components_of}
use pqcensus.Agility.Scores.{overall_score-bounds}
use pqcensus.Agility.Growth.{components_of_mono}
use pqcensus.Dependencies.{found_dependencies, crypto_dependency, go_lines, conan_lines}
use pqcensus.Dependencies.Found.{found_dependencies_lem}
use pqcensus.Util.Walk.{
  Settings, Directory, FileEntry, iter_source_files, listed, no_directories, directory, answer,
}
use pqcensus.Util.Walk.Limits.{IsLimited, iter_source_files-IsLimited}
use pqcensus.Tests.Samples.{findings, dependencies}

abbrev sources : List SourceText
sources = (text "a.py", text "def rotate_key(): pass") ∷ []

overall_score_example :
    (28 ≤ overall_score findings dependencies sources)
    × (overall_score findings dependencies sources ≤ 77)
overall_score_example = overall_score-bounds findings dependencies sources

-- Selection 50, provider 30, negotiation 25, dual 20, rotation 75 and 30, constraints 70, policy 25: the
-- average is 40.625.
overall_score_test : overall_score findings dependencies sources ≡ 41
unfolding overall_score list_beq is_upper
overall_score_test = refl

abbrev first_source : SourceText
first_source = (text "a.py", text "def rotate_key(): pass")

abbrev last_source : SourceText
last_source = (text "c.py", [])

abbrev new_source : SourceText
new_source = (text "b.py", text "negotiate")

components_of_example :
    let old = components_of findings dependencies ((first_source ∷ []) ++ (last_source ∷ [])) in
    let new =
      components_of findings dependencies
        ((first_source ∷ []) ++ (new_source ∷ (last_source ∷ []))) in
    (old.negotiation.score ≤ new.negotiation.score)
    × (old.dual.score ≤ new.dual.score)
    × (old.key_rotation.score ≤ new.key_rotation.score)
    × (old.certificate_rotation.score ≤ new.certificate_rotation.score)
components_of_example =
    components_of_mono findings dependencies new_source (first_source ∷ []) (last_source ∷ [])

found_dependencies_example :
    ((k : Text × (Text × Text))
      → count
          (λ d. k == (d.ecosystem, (lower d.name, d.manifest)))
          (found_dependencies dependencies)
        ≡ as_count (last_with (λ d. (d.ecosystem, (lower d.name, d.manifest))) k none dependencies))
    × ((k : Text × (Text × Text)) (p : Dependency → Bool)
        → any
            (λ d. (k == (d.ecosystem, (lower d.name, d.manifest))) && p d)
            (found_dependencies dependencies)
          ≡ passes p
              (last_with (λ d. (d.ecosystem, (lower d.name, d.manifest))) k none dependencies))
    × IsSorted {K = Text × (Text × Text)}
        (λ d. (d.ecosystem, (lower d.name, d.manifest)))
        (found_dependencies dependencies)
found_dependencies_example = found_dependencies_lem dependencies

-- A name that has `ring` within is taken for cryptography.
string_width_test : crypto_dependency (text "string-width") ≡ true
unfolding crypto_dependency list_beq is_upper
string_width_test = refl

-- A comment in a block of go.mod is taken for a requirement.
go_comment_test :
    go_lines false
      (text "go.mod")
      (text "require (" ∷ text "// direct requirements" ∷ text ")" ∷ [])
    ≡ record {
      name = text "//";
      version = some (text "direct");
      manifest = text "go.mod";
      ecosystem = text "go";
      direct = true;
    }
      ∷ []
unfolding go_lines list_beq is_space
go_comment_test = refl

abbrev settings : Settings
settings = record {
  extensions = text ".py" ∷ [];
  max_files = 1;
  max_file_bytes = 100;
  max_total_bytes = 100;
}

abbrev python_file : Text → FileEntry
python_file name = record {
  name = name;
  link = some false;
  size = answer 9;
  content = some (some (text "import os"));
}

-- Two files, one too many.
abbrev tree : Directory
tree =
    listed
      (directory (text "src") (some false) (listed no_directories (python_file (text "b.py") ∷ []))
        no_directories)
      (python_file (text "a.py") ∷ [])

walk_test : (iter_source_files settings tree).skipped.file_limit ≡ 1
unfolding iter_source_files list_beq is_upper
walk_test = refl

iter_source_files_example : IsLimited settings (iter_source_files settings tree)
iter_source_files_example = iter_source_files-IsLimited settings tree

conan_test :
    conan_lines false
      (text "conanfile.txt")
      (text "[requires]" ∷ text "zlib/1.3" ∷ text "# x" ∷ text "[options]" ∷ text "a=b" ∷ [])
    ≡ record {
      name = text "zlib";
      version = none;
      manifest = text "conanfile.txt";
      ecosystem = text "cpp";
      direct = true;
    }
      ∷ []
unfolding conan_lines list_beq is_upper is_space
conan_test = refl
