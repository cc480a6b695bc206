-- ===== src/Conflicts.antt =====
-- src/impl/autotierfs/conflicts.cpp: the log of paths that two tiers both had. Both functions hold
-- the mutex from the reading to the writing.
pub mod Log
use autotier.Base.{
  ℕ, Text, codes, starts_with, Bool, true, false, ◌&&◌, ◌||◌, Option, none, some, List, [], ◌∷◌,
  ◌++◌, ◌==◌, if◌then◌else◌,
}
use autotier.Env.{Env}

abbrev pub newline : ℕ
newline = 10

-- The lines that `std::getline` yields, with what is read of the current one.
unfoldable pub lines_from : Text → Text → List Text
lines_from [] [] = []
lines_from [] (c ∷ cs) = (c ∷ cs) ∷ []
lines_from (c ∷ text) line = elim (c == newline) [
  | true ↦ line ∷ lines_from text []
  | false ↦ lines_from text (line ++ (c ∷ []))
]

unfoldable pub get_lines : Text → List Text
unfolding lines_from
get_lines text = lines_from text []

-- `f << entry << std::endl` for each entry.
unfoldable pub put_lines : List Text → Text
put_lines [] = []
put_lines (entry ∷ rest) = entry ++ (newline ∷ put_lines rest)

unfoldable pub any_starts_with : Text → List Text → Bool
any_starts_with test_string [] = false
any_starts_with test_string (path ∷ paths) =
    starts_with path test_string || any_starts_with test_string paths

unfoldable pub not_empty : Text → Bool
not_empty [] = false
not_empty (c ∷ cs) = true

module _ (E : Env) where
  open E use {World, join, parent_path, read_file, write_file, path_exists, dir_paths}

  -- The test on one line of the log: the path exists, and next to it there is one that begins like
  -- a conflicting copy of it.
  unfoldable pub still_conflicted : World → Text → Bool
  still_conflicted w entry =
      not_empty entry
      && (path_exists entry w
          && any_starts_with (entry ++ codes ".autotier_conflict")
              (dir_paths (parent_path entry) w))

  unfoldable pub keep_conflicted : World → List Text → List Text
  keep_conflicted w [] = []
  keep_conflicted w (entry ∷ rest) =
      let kept = keep_conflicted w rest in if still_conflicted w entry then entry ∷ kept else kept

  unfoldable pub read_conflicts : List Text → Text → World → List Text
  read_conflicts conflicts path w = elim (read_file path w) [
    | none ↦ conflicts
    | some text ↦ conflicts ++ keep_conflicted w (get_lines text)
  ]

  unfoldable pub write_conflicts : List Text → Text → World → World
  write_conflicts conflicts path w = elim (write_file path (put_lines conflicts) w) [
    | none ↦ w
    | some w' ↦ w'
  ]

  unfoldable pub log_file : Text → Text
  log_file run_path = join run_path (codes "conflicts.log")

  -- The conflicts, and whether there are any.
  unfoldable pub check_conflicts : List Text → Text → World → List Text × Bool × World
  check_conflicts conflicts run_path w =
      let found = read_conflicts conflicts (log_file run_path) w in
      (found, not_empty_list found, write_conflicts found (log_file run_path) w)
    where
      not_empty_list : List Text → Bool
      not_empty_list [] = false
      not_empty_list (c ∷ cs) = true

  unfoldable pub add_conflict : Text → Text → World → World
  add_conflict path run_path w =
      write_conflicts (read_conflicts [] (log_file run_path) w ++ (path ∷ [])) (log_file run_path) w
