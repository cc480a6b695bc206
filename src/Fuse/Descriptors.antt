-- ===== src/Fuse/Descriptors.antt =====
-- `fallocate`, `flock` and `copy_file_range` of src/impl/autotierfs/fuseOps/: calls on descriptors
-- that are open already.
use autotier.Base.{ℕ, ◌==◌, if◌then◌else◌}
use autotier.Env.{Env, posix_fallocate, flock, copy_file_range}
use autotier.Fuse.{M, ◌>>◌, return, fail_with}
use autotier.Fuse.Helpers.{sys}

abbrev eopnotsupp : ℕ
eopnotsupp = 95

module _ (E : Env) where
  -- Only mode 0; `-posix_fallocate(...)` is -errno where that fails.
  unfoldable pub fallocate : ℕ → ℕ → ℕ → ℕ → M E ℕ
  fallocate mode offset length fh =
      if mode == 0
      then sys E (posix_fallocate fh offset length) >> return 0
      else fail_with eopnotsupp

  unfoldable pub lock_file : ℕ → ℕ → M E ℕ
  lock_file fh op = sys E (flock fh op) >> return 0

  unfoldable pub copy_range : ℕ → ℕ → ℕ → ℕ → ℕ → ℕ → M E ℕ
  copy_range fh_in offset_in fh_out offset_out len flags =
      sys E (copy_file_range fh_in offset_in fh_out offset_out len flags)
