-- ===== src/Fuse/Attr.antt =====
-- The callbacks on a file's attributes: `getattr`, `readlink`, `chmod`, `chown`, `truncate`,
-- `access` and `utimens` of src/impl/autotierfs/fuseOps/. `handle` is `fi->fh` where `fi` is not
-- null.
use autotier.Base.{
  ℕ, ◌+◌, ◌-◌, ◌%◌, ◌^◌, Text, Bool, true, false, Option, none, some, List, if◌then◌else◌,
}
use autotier.Env.{
  Env, Stat, lstat, fstat, chmod, fchmod, lchown, fchown, truncate, ftruncate, access, utimensat,
  futimens, readlink,
}
use autotier.Fuse.{crash, M, ◌>>=◌, return, fail_with, Context, enoent, echild}
use autotier.Fuse.Helpers.{
  sys, sys_minus_one, try_stat, check, front_tier, is_directory, lookup_file, each_tier, with_priv,
}

module _ (E : Env) (ctx : Context) where
  abbrev stat_path : Text → Bool → M E Stat
  stat_path path true = front_tier E >>= λ t. try_stat E (lstat (E.join t.path path)) >>= check E
  stat_path path false =
      lookup_file E path >>= λ f. try_stat E (lstat (E.join f.tier_path path)) >>= check E

  -- What it returns is what it puts into `stbuf`.
  abbrev get_attributes : Text → Option ℕ → M E Stat
  get_attributes path (some fh) = try_stat E (fstat fh) >>= check E
  get_attributes path none = is_directory E path >>= stat_path path

  unfoldable pub getattr : Text → Option ℕ → M E Stat
  getattr path handle = if ctx.has_priv then get_attributes path handle else fail_with echild

  -- It returns the length that ends the text in the buffer. `size - 1` wraps in 64 bits.
  unfoldable pub read_link : Text → ℕ → M E ℕ
  read_link path size = with_priv E ctx (
      lookup_file E path >>= λ f.
      sys E (readlink (E.join f.tier_path path) ((size + (2 ^ 64 - 1)) % 2 ^ 64)))

  abbrev chmod_path : Text → ℕ → Bool → M E ℕ
  chmod_path path mode true =
      each_tier E (fail_with enoent) (λ t. sys E (chmod (E.join t.path path) mode))
  chmod_path path mode false =
      lookup_file E path >>= λ f. sys E (chmod (E.join f.tier_path path) mode)

  unfoldable pub change_mode : Text → ℕ → Option ℕ → M E ℕ
  change_mode path mode (some fh) = with_priv E ctx (sys E (fchmod fh mode))
  change_mode path mode none = with_priv E ctx (is_directory E path >>= chmod_path path mode)

  abbrev chown_path : Text → ℕ → ℕ → Bool → M E ℕ
  chown_path path uid gid true =
      each_tier E (fail_with enoent) (λ t. sys E (lchown (E.join t.path path) uid gid))
  chown_path path uid gid false =
      lookup_file E path >>= λ f. sys E (lchown (E.join f.tier_path path) uid gid)

  unfoldable pub change_owner : Text → ℕ → ℕ → Option ℕ → M E ℕ
  change_owner path uid gid (some fh) = with_priv E ctx (sys E (fchown fh uid gid))
  change_owner path uid gid none = with_priv E ctx (is_directory E path >>= chown_path path uid gid)

  -- The tier's usage is not told of the new size.
  unfoldable pub truncate_file : Text → ℕ → Option ℕ → M E ℕ
  truncate_file path size (some fh) = with_priv E ctx (sys E (ftruncate fh size))
  truncate_file path size none =
      with_priv E ctx (lookup_file E path >>= λ f. sys E (truncate (E.join f.tier_path path) size))

  abbrev access_at : Text → ℕ → Bool → M E ℕ
  access_at path mask true =
      each_tier E (return 0) (λ t. sys_minus_one E (access (E.join t.path path) mask))
  access_at path mask false =
      lookup_file E path >>= λ f. sys_minus_one E (access (E.join f.tier_path path) mask)

  -- A failed `access` is returned as -1, not as -errno.
  unfoldable pub access_path : Text → ℕ → M E ℕ
  access_path path mask = with_priv E ctx (is_directory E path >>= access_at path mask)

  abbrev utimens_at : Text → List ℕ → Bool → M E ℕ
  utimens_at path ts true =
      each_tier E (fail_with enoent) (λ t. sys_minus_one E (utimensat (E.join t.path path) ts))
  utimens_at path ts false =
      lookup_file E path >>= λ f. sys E (utimensat (E.join f.tier_path path) ts)

  -- Without `private_data` the test for a directory, which comes first, reads through null.
  unfoldable pub utimens : Text → List ℕ → Option ℕ → M E ℕ
  utimens path ts (some fh) = sys E (futimens fh ts)
  utimens path ts none =
      if ctx.has_priv then is_directory E path >>= utimens_at path ts else λ s. (crash, s)
