-- ===== src/Util/Paths.antt =====
-- `test_only_path` of src/quantumguard/util.py, and what the program uses of `pathlib` on relative
-- POSIX paths.
use mathlib.Core.List.{get_last?}
use pqcensus.Base.{
  Bool, true, ◌&&◌, ◌||◌, not, Option, none, some, List, [], ◌∷◌, Text, text, lower, any, keep,
  non_empty, contains, starts_with, nat_beq, ◌==◌, nat_eq, list_eq, if◌then◌else◌, ◌≡◌, refl,
  list_beq, is_upper,
}

-- The pieces between the slashes.
pieces : Text → List Text
pieces [] = [] ∷ []
pieces (c ∷ t) = elim (pieces t) [
  | [] ↦ (c ∷ []) ∷ []
  | p ∷ ps ↦ if nat_beq c b'/' then [] ∷ p ∷ ps else (c ∷ p) ∷ ps
]

-- `Path(path).parts`: empty pieces and dots are left out.
unfoldable pub path_parts : Text → List Text
unfolding pieces keep
path_parts path = keep (λ p. non_empty p && not (p == text ".")) (pieces path)

last_or_empty : Option Text → Text
last_or_empty none = []
last_or_empty (some p) = p

-- `Path(path).name`
unfoldable pub path_name : Text → Text
unfolding path_parts last_or_empty
path_name path = last_or_empty (get_last? (path_parts path))

-- The last dot of a name and what follows it, if there is a dot.
last_dot : Text → Option Text
last_dot [] = none
last_dot (c ∷ t) = elim (last_dot t) [
  | some s ↦ some s
  | none ↦ if nat_beq c b'.' then some (c ∷ t) else none
]

-- `Path(path).suffix`: a dot at the beginning or at the end of the name makes none.
unfoldable pub path_suffix : Text → Text
unfolding path_name last_dot
path_suffix path = elim (path_name path) [
  | [] ↦ []
  | c ∷ name ↦ elim (last_dot name) [
    | none ↦ []
    | some [] ↦ []
    | some (dot ∷ []) ↦ []
    | some (dot ∷ d ∷ s) ↦ dot ∷ d ∷ s
  ]
]

-- A path under a directory of tests or fixtures, or a file named like a test.
unfoldable pub test_only_path : Text → Bool
unfolding any contains path_name lower starts_with
test_only_path path =
    let name = lower (path_name path) in
    any
      (λ p. contains (text "test" ∷ text "tests" ∷ text "fixtures" ∷ text "fixture" ∷ []) (lower p))
      (path_parts path)
    || starts_with (text "test_") name
    || starts_with (text "test-") name
    || starts_with (text "conftest") name

suffix_test : path_suffix (text "a.b/c.tar.gz") ≡ text ".gz"
unfolding path_suffix list_beq
suffix_test = refl

tests_path_test : test_only_path (text "src/Tests/app.py") ≡ true
unfolding test_only_path list_beq is_upper
tests_path_test = refl
