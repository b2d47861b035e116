-- ===== src/Util/Walk.antt =====
-- `iter_source_files` of src/quantumguard/util.py: the walk that selects the files to scan.
pub mod Limits
use pqcensus.Base.{
  ℕ, suc, ◌+◌, Bool, true, false, ◌&&◌, ◌||◌, not, Option, none, some, List, [], ◌∷◌, ◌++◌, Text,
  text, lower, contains, length, ltb, leb, nat_eq, list_eq, if◌then◌else◌,
}
use pqcensus.Base.Sort.{sorted, nat_ord, list_ord}
use pqcensus.Util.Paths.{path_suffix}

-- What the file system answers: `denied` is a `PermissionError`, `failed` another `OSError`.
pub data Answer {ℓ} (A : Type ℓ) : Type ℓ where
  denied : Answer A
  failed : Answer A
  answer : A → Answer A

-- A file: its name, whether it is a link (`none` for a `PermissionError`), its size, and what
-- `safe_read_text` does: `none` for a `PermissionError`, or else what it returns, `none` for a file that
-- is binary or cannot be read.
pub record FileEntry : Type 0 where
  pub name : Text
  pub link : Option Bool
  pub size : Answer ℕ
  pub content : Option (Option Text)

mutual
  -- A directory that cannot be listed, or its directories and its files, in the order of their names.
  pub data Directory : Type 0 where
    not_listed : Bool → Directory
    listed : Directories → List FileEntry → Directory

  pub data Directories : Type 0 where
    no_directories : Directories
    directory : Text → Option Bool → Directory → Directories → Directories

pub record Skipped : Type 0 where
  pub symlink : ℕ
  pub too_large : ℕ
  pub binary : ℕ
  pub permission : ℕ
  pub file_limit : ℕ
  pub byte_limit : ℕ
  pub walk_error : ℕ

pub record WalkState : Type 0 where
  pub selected : List (Text × Text)
  pub total : ℕ
  pub skipped : Skipped

pub record Settings : Type 0 where
  pub extensions : List Text
  pub max_files : ℕ
  pub max_file_bytes : ℕ
  pub max_total_bytes : ℕ

abbrev pub start : WalkState
start = record {
  selected = [];
  total = 0;
  skipped = record {
    symlink = 0;
    too_large = 0;
    binary = 0;
    permission = 0;
    file_limit = 0;
    byte_limit = 0;
    walk_error = 0;
  };
}

abbrev ignored_dirs : List Text
ignored_dirs =
    text ".git"
    ∷ text ".hg"
    ∷ text ".svn"
    ∷ text ".venv"
    ∷ text "venv"
    ∷ text "__pycache__"
    ∷ text "node_modules"
    ∷ text "vendor"
    ∷ text "dist"
    ∷ text "build"
    ∷ text ".tox"
    ∷ text ".mypy_cache"
    ∷ text ".pytest_cache"
    ∷ text "coverage"
    ∷ []

-- `skipped[...] += 1`
unfoldable pub skip_symlink : WalkState → WalkState
skip_symlink s = record s { skipped = record s.skipped { symlink = suc s.skipped.symlink } }

unfoldable pub skip_too_large : WalkState → WalkState
skip_too_large s = record s { skipped = record s.skipped { too_large = suc s.skipped.too_large } }

unfoldable pub skip_binary : WalkState → WalkState
skip_binary s = record s { skipped = record s.skipped { binary = suc s.skipped.binary } }

unfoldable pub skip_permission : WalkState → WalkState
skip_permission s = record s {
  skipped = record s.skipped { permission = suc s.skipped.permission };
}

unfoldable pub skip_file_limit : WalkState → WalkState
skip_file_limit s = record s {
  skipped = record s.skipped { file_limit = suc s.skipped.file_limit };
}

unfoldable pub skip_byte_limit : WalkState → WalkState
skip_byte_limit s = record s {
  skipped = record s.skipped { byte_limit = suc s.skipped.byte_limit };
}

unfoldable pub skip_walk_error : WalkState → WalkState
skip_walk_error s = record s {
  skipped = record s.skipped { walk_error = suc s.skipped.walk_error };
}

-- `current_path / name`, relative to the root, which is the empty path.
unfoldable pub child_path : Text → Text → Text
child_path [] name = name
child_path (c ∷ path) name = (c ∷ path) ++ text "/" ++ name

-- `on_walk_error`, of whether the error is a `PermissionError`.
unfoldable pub on_walk_error : Bool → WalkState → WalkState
unfolding skip_permission skip_walk_error
on_walk_error true s = skip_permission s
on_walk_error false s = skip_walk_error s

-- The loop over the directories, before the walk enters those that it retains.
unfoldable pub count_directory : Text → Option Bool → WalkState → WalkState
unfolding skip_permission skip_symlink contains
count_directory name none s = if contains ignored_dirs name then s else skip_permission s
count_directory name (some link) s =
    if contains ignored_dirs name then s else if link then skip_symlink s else s

unfoldable pub count_directories : Directories → WalkState → WalkState
unfolding count_directory
count_directories no_directories s = s
count_directories (directory name link d rest) s =
    count_directories rest (count_directory name link s)

-- Whether a directory is retained.
unfoldable pub is_retained : Text → Option Bool → Bool
unfolding contains
is_retained name none = false
is_retained name (some link) = not (contains ignored_dirs name) && not link

module _ (k : Settings) where
  -- The end of the loop over the files: reading a file of a size that fits.
  unfoldable pub read_file : Text → FileEntry → ℕ → WalkState → WalkState
  unfolding skip_permission skip_binary
  read_file path f size s = elim f.content as (λ c. WalkState) [
    | none ↦ skip_permission s
    | some content ↦ elim content as (λ c. WalkState) [
      | none ↦ skip_binary s
      | some t ↦ record s { selected = s.selected ++ ((path, t) ∷ []); total = s.total + size }
    ]
  ]

  -- The tests of the size and of the limits.
  unfoldable pub limit_file : Text → FileEntry → ℕ → WalkState → WalkState
  unfolding read_file skip_too_large skip_file_limit skip_byte_limit
  limit_file path f size s =
      if ltb k.max_file_bytes size
      then skip_too_large s
      else if leb k.max_files (length s.selected)
      then skip_file_limit s
      else if ltb k.max_total_bytes (s.total + size)
      then skip_byte_limit s
      else read_file path f size s

  -- The end of the body, from the size on.
  unfoldable pub stat_file : Text → FileEntry → Answer ℕ → WalkState → WalkState
  unfolding limit_file skip_permission child_path
  stat_file current f denied s = skip_permission s
  stat_file current f failed s = s
  stat_file current f (answer size) s = limit_file (child_path current f.name) f size s

  -- The body of the loop over the files.
  unfoldable pub visit_file : Text → FileEntry → WalkState → WalkState
  unfolding stat_file skip_permission skip_symlink path_suffix lower contains
  visit_file current f s = elim f.link as (λ l. WalkState) [
    | none ↦ skip_permission s
    | some link ↦
        if link
        then skip_symlink s
        else if not (contains k.extensions (lower (path_suffix f.name)))
        then s
        else stat_file current f f.size s
  ]

  unfoldable pub visit_files : Text → List FileEntry → WalkState → WalkState
  unfolding visit_file
  visit_files current [] s = s
  visit_files current (f ∷ fs) s = visit_files current fs (visit_file current f s)

  -- The walk from a directory, top down.
  unfoldable mutual
    unfolding is_retained visit_files count_directories on_walk_error child_path

    pub walk : Text → Directory → WalkState → WalkState
    walk current (not_listed is_permission) s = on_walk_error is_permission s
    walk current (listed ds fs) s =
        walk_retained current ds (visit_files current fs (count_directories ds s))

    pub walk_retained : Text → Directories → WalkState → WalkState
    walk_retained current no_directories s = s
    walk_retained current (directory name link d rest) s =
        walk_retained current rest
          (if is_retained name link then walk (child_path current name) d s else s)

  -- `iter_source_files`: the selection in the order of the paths, and the counters.
  unfoldable pub iter_source_files : Directory → WalkState
  unfolding walk sorted
  iter_source_files root =
      let s = walk [] root start in record s { selected = sorted (λ f. f.0) s.selected }
