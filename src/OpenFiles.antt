-- ===== src/OpenFiles.antt =====
-- src/impl/autotierfs/openFiles.cpp: the table of open backend paths, which tiering and pinning
-- consult. Each function holds the mutex, so it is one step. A count is a C++ `int`; fewer than
-- 2 ^ 31 descriptors of one path are open at a time.
pub mod Count
use autotier.Base.{ℕ, ◌+◌, ◌-◌, Text, Bool, true, false, Option, none, some, leb, if◌then◌else◌}
use autotier.Base.Dict.{Dict, lookup, insert, erase}

abbrev pub OpenFiles : Type 0
OpenFiles = Dict ℕ

unfoldable pub register_open_file : Text → OpenFiles → OpenFiles
register_open_file path open_files = elim (lookup path open_files) [
  | none ↦ insert path 1 open_files
  | some count ↦ insert path (count + 1) open_files
]

unfoldable pub release_open_file : Text → OpenFiles → OpenFiles
release_open_file path open_files = elim (lookup path open_files) [
  | none ↦ open_files
  | some count ↦
      if leb (count - 1) 0 then erase path open_files else insert path (count - 1) open_files
]

unfoldable pub is_open : Text → OpenFiles → Bool
is_open path open_files = elim (lookup path open_files) [ none ↦ false | some count ↦ true ]
