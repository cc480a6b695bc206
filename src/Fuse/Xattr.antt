-- ===== src/Fuse/Xattr.antt =====
-- src/impl/autotierfs/fuseOps/xattr.cpp. The path of a regular file is the tier's path followed by
-- the path in the file system, as strings.
use autotier.Base.{ℕ, Text, Bool, true, false, ◌++◌}
use autotier.Env.{Env, lsetxattr, lgetxattr, llistxattr, lremovexattr}
use autotier.Fuse.{M, ◌>>=◌, ◌>>◌, return, Context}
use autotier.Fuse.Helpers.{sys, front_tier, is_directory, lookup_file, each_tier, with_priv}

module _ (E : Env) (ctx : Context) where
  abbrev set_at : Text → Text → Text → ℕ → Bool → M E ℕ
  set_at path name value flags true =
      each_tier E (return 0) (λ t. sys E (lsetxattr (E.join t.path path) name value flags))
  set_at path name value flags false =
      lookup_file E path >>= λ f. sys E (lsetxattr (f.tier_path ++ path) name value flags)

  unfoldable pub setxattr : Text → Text → Text → ℕ → M E ℕ
  setxattr path name value flags =
      with_priv E ctx (is_directory E path >>= set_at path name value flags >> return 0)

  -- The path that `getxattr` and `listxattr` ask.
  abbrev attr_path : Text → Bool → M E Text
  attr_path path true = front_tier E >>= λ t. return (E.join t.path path)
  attr_path path false = lookup_file E path >>= λ f. return (f.tier_path ++ path)

  unfoldable pub getxattr : Text → Text → ℕ → M E ℕ
  getxattr path name size =
      with_priv E ctx
        (is_directory E path >>= attr_path path >>= λ full. sys E (lgetxattr full name size))

  unfoldable pub listxattr : Text → ℕ → M E ℕ
  listxattr path size =
      with_priv E ctx
        (is_directory E path >>= attr_path path >>= λ full. sys E (llistxattr full size))

  abbrev remove_at : Text → Text → Bool → M E ℕ
  remove_at path name true =
      each_tier E (return 0) (λ t. sys E (lremovexattr (E.join t.path path) name))
  remove_at path name false =
      lookup_file E path >>= λ f. sys E (lremovexattr (f.tier_path ++ path) name)

  unfoldable pub removexattr : Text → Text → M E ℕ
  removexattr path name = with_priv E ctx (is_directory E path >>= remove_at path name >> return 0)
