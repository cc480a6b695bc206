-- ===== src/Fuse/Table.antt =====
-- The two tables of `FusePriv` in src/incl/fuseOps.hpp, keyed by file descriptor. Each function
-- holds the table's mutex, so it is one step.
use autotier.Base.{ℕ, Text, Option, none, some, List, [], ◌∷◌, ◌==◌, if◌then◌else◌}
use autotier.Fuse.{Slot, live, dangling}

module _ {ℓ} {V : Type ℓ} where
  -- `at`, where `none` is `std::out_of_range`.
  unfoldable pub find_fd : ℕ → List (ℕ × V) → Option V
  find_fd fd [] = none
  find_fd fd ((k, v) ∷ rest) = let later = find_fd fd rest in if k == fd then some v else later

  unfoldable pub erase_fd : ℕ → List (ℕ × V) → List (ℕ × V)
  erase_fd fd [] = []
  erase_fd fd ((k, v) ∷ rest) =
      let later = erase_fd fd rest in if k == fd then later else (k, v) ∷ later

-- A descriptor that has a path already: its string is freed, and the copy of the new one goes to a
-- local variable.
unfoldable pub insert_fd_to_path : ℕ → Text → List (ℕ × Slot) → List (ℕ × Slot)
insert_fd_to_path fd path table = elim (find_fd fd table) [
  | some old ↦ (fd, dangling) ∷ erase_fd fd table
  | none ↦ (fd, live path) ∷ table
]

unfoldable pub remove_fd_to_path : ℕ → List (ℕ × Slot) → List (ℕ × Slot)
remove_fd_to_path fd table = erase_fd fd table

unfoldable pub fd_to_path : ℕ → List (ℕ × Slot) → Option Slot
fd_to_path fd table = find_fd fd table

unfoldable pub insert_size_at_open : ℕ → ℕ → List (ℕ × ℕ) → List (ℕ × ℕ)
insert_size_at_open fd size table = (fd, size) ∷ erase_fd fd table

unfoldable pub remove_size_at_open : ℕ → List (ℕ × ℕ) → List (ℕ × ℕ)
remove_size_at_open fd table = erase_fd fd table

unfoldable pub size_at_open : ℕ → List (ℕ × ℕ) → Option ℕ
size_at_open fd table = find_fd fd table
