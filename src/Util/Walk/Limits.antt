-- ===== src/Util/Walk/Limits.antt =====
-- The limits of the walk, `iter_source_files` of src/quantumguard/util.py.
use pqcensus.Base.{
  ℕ, suc, ◌+◌, ◌≤◌, Bool, true, false, ◌≡◌, Option, none, some, List, [], ◌∷◌, ◌++◌, Text, length,
  length-append, arith, if◌then◌else◌, nat_eq, list_eq,
}
use pqcensus.Base.Sort.{nat_ord, list_ord}
use pqcensus.Base.Sort.Laws.{length-sorted}
use pqcensus.Util.Walk.{
  Answer, answer, denied, failed, stat_file, skip_binary, skip_file_limit, skip_too_large,
  skip_byte_limit, skip_walk_error, no_directories, directory, not_listed, listed, count_directory,
  FileEntry, Directory, Directories, WalkState, Settings, start, skip_symlink, skip_permission,
  on_walk_error, child_path, read_file, limit_file, visit_file, visit_files, count_directories,
  is_retained, walk, walk_retained, iter_source_files,
}

module _ (k : Settings) where
  -- The selection is within the limits, and a file was left out for their number only if the selection is full.
  abbrev pub IsLimited : WalkState → Type 0
  IsLimited s =
      (length s.selected ≤ k.max_files)
      × (s.total ≤ k.max_total_bytes)
      × (1 ≤ s.skipped.file_limit → length s.selected ≡ k.max_files)

  read_file-IsLimited :
      (path : Text) (f : FileEntry) (size : ℕ) (s : WalkState)
      → IsLimited s
      → suc (length s.selected) ≤ k.max_files
      → s.total + size ≤ k.max_total_bytes
      → IsLimited (read_file k path f size s)
  unfolding read_file
  read_file-IsLimited path f size s h room fits =
      elim f.content
        as (λ c. IsLimited (elim c as (λ d. WalkState) [
          | none ↦ skip_permission s
          | some content ↦ elim content as (λ d. WalkState) [
            | none ↦ skip_binary s
            | some t ↦ record s {
              selected = s.selected ++ ((path, t) ∷ []);
              total = s.total + size;
            }
          ]
        ])) [
          | none ↦ h
          | some none ↦ h
          | some (some t) ↦ (
            omega (arith, length-append s.selected ((path, t) ∷ []), room),
            fits,
            λ l. absurd (omega (arith, h.2 l, room)),
          )
        ]

  limit_file-IsLimited :
      (path : Text) (f : FileEntry) (size : ℕ) (s : WalkState)
      → IsLimited s
      → IsLimited (limit_file k path f size s)
  unfolding limit_file skip_file_limit skip_too_large skip_byte_limit
  limit_file-IsLimited path f size s h = ground (arith, read_file-IsLimited path f size s h)

  stat_file-IsLimited :
      (current : Text) (f : FileEntry) (size : Answer ℕ) (s : WalkState)
      → IsLimited s
      → IsLimited (stat_file k current f size s)
  unfolding stat_file skip_permission
  stat_file-IsLimited current f denied s h = h
  stat_file-IsLimited current f failed s h = h
  stat_file-IsLimited current f (answer size) s h =
      limit_file-IsLimited (child_path current f.name) f size s h

  visit_file-IsLimited :
      (current : Text) (f : FileEntry) (s : WalkState)
      → IsLimited s
      → IsLimited (visit_file k current f s)
  unfolding visit_file skip_permission skip_symlink
  visit_file-IsLimited current f s h = ground (arith, stat_file-IsLimited current f f.size s h)

  visit_files-IsLimited :
      (current : Text) (fs : List FileEntry) (s : WalkState)
      → IsLimited s
      → IsLimited (visit_files k current fs s)
  unfolding visit_files
  visit_files-IsLimited current [] s h = h
  visit_files-IsLimited current (f ∷ fs) s h =
      visit_files-IsLimited current fs _ (visit_file-IsLimited current f s h)

  count_directory-IsLimited :
      (name : Text) (link : Option Bool) (s : WalkState)
      → IsLimited s
      → IsLimited (count_directory name link s)
  unfolding count_directory skip_permission skip_symlink
  count_directory-IsLimited name none s h = ground arith
  count_directory-IsLimited name (some link) s h = ground arith

  count_directories-IsLimited :
      (ds : Directories) (s : WalkState) → IsLimited s → IsLimited (count_directories ds s)
  unfolding count_directories
  count_directories-IsLimited no_directories s h = h
  count_directories-IsLimited (directory name link d rest) s h =
      count_directories-IsLimited rest _ (count_directory-IsLimited name link s h)

  mutual
    unfolding walk walk_retained on_walk_error skip_permission skip_walk_error

    walk-IsLimited :
        (current : Text) (d : Directory) (s : WalkState)
        → IsLimited s
        → IsLimited (walk k current d s)
    walk-IsLimited current (not_listed true) s h = h
    walk-IsLimited current (not_listed false) s h = h
    walk-IsLimited current (listed ds fs) s h =
        walk_retained-IsLimited current ds _
          (visit_files-IsLimited current fs _ (count_directories-IsLimited ds s h))

    walk_retained-IsLimited :
        (current : Text) (ds : Directories) (s : WalkState)
        → IsLimited s
        → IsLimited (walk_retained k current ds s)
    walk_retained-IsLimited current no_directories s h = h
    walk_retained-IsLimited current (directory name link d rest) s h =
        walk_retained-IsLimited current rest _
          (elim (is_retained name link)
            as (λ b. IsLimited (if b then walk k (child_path current name) d s else s)) [
              | true ↦ walk-IsLimited (child_path current name) d s h
              | false ↦ h
            ])

  -- Whatever the tree is, at most `max_files` files are selected, with at most `max_total_bytes` bytes
  -- by the sizes that were read, and a file is left out for the number of files only if `max_files` are selected.
  pub iter_source_files-IsLimited : (root : Directory) → IsLimited (iter_source_files k root)
  unfolding iter_source_files
  iter_source_files-IsLimited root =
      let h = walk-IsLimited [] root start (omega arith, omega arith, λ l. absurd (omega arith)) in
      rw (length-sorted (λ f. f.0) (walk k [] root start).selected) h
