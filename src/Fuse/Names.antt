-- ===== src/Fuse/Names.antt =====
-- The callbacks that make, remove and rename names: `unlink`, `rename`, `mkdir`, `rmdir`,
-- `symlink`, `link` and `mknod` of src/impl/autotierfs/fuseOps/.
pub mod Removal
pub mod Renaming
pub mod Moving
use autotier.Base.{
  ℕ, Text, Bool, true, false, Option, none, some, List, [], ◌∷◌, ◌==◌, ◌/◌, ◌%◌, modify, drop,
  if◌then◌else◌,
}
use autotier.Env.{
  Env, Outcome, ret, fail, lstat, rename, mkdir, rmdir, lchown, symlink, link, mkfifo, mknod,
  unlink, delete,
}
use autotier.Metadata.{Metadata, metadata_at, update}
use autotier.Tier.{Tier, subtract_file_size}
use autotier.Fuse.{
  Mount, Result, ok, error, crash, M, ◌>>=◌, ◌>>◌, return, fail_with, Context, enoent, einval,
  eperm,
}
use autotier.Fuse.Helpers.{
  sys, size_of, check, front_tier, is_directory, lookup_file, tier_lookup, each_tier,
  update_keys_in_directory, with_priv,
}

-- `S_ISFIFO(mode)`.
abbrev pub is_fifo : ℕ → Bool
is_fifo mode = mode / 4096 % 16 == 1

module _ (E : Env) (ctx : Context) where
  -- `tptr->subtract_file_size(size)`, where `tptr` may be null.
  abbrev pub subtract_at : Option ℕ → ℕ → M E ℕ
  subtract_at none size = λ s. (crash, s)
  subtract_at (some i) size =
      λ s. (ok 0, record s { tiers = modify s.tiers i (subtract_file_size E size) })

  abbrev pub stored : Option E.Db → M E ℕ
  stored none = fail_with eperm
  stored (some db) = λ s. (ok 0, record s { db = db })

  -- The key is the path without its first character.
  abbrev pub delete_key : Text → M E ℕ
  delete_key path s = stored (E.db_write s.db (delete (drop 1 path) ∷ [])) s

  unfoldable pub unlink_file : Text → M E ℕ
  unlink_file path = with_priv E ctx (
      lookup_file E path >>= λ f.
      let full_path = E.join f.tier_path path in
      size_of E (lstat full_path) >>= check E >>= λ size.
      (λ s. subtract_at (tier_lookup E f.tier_path s.tiers) size s)
      >> sys E (unlink full_path)
      >> delete_key path)

  abbrev rename_in : Text → Text → Tier → M E ℕ
  rename_in from to t = sys E (rename (E.join t.path from) (E.join t.path to))

  abbrev pub rename_directory : Text → Text → M E ℕ
  rename_directory from to = each_tier E (fail_with enoent) (rename_in from to) >>= λ res.
      λ s. (ok res, record s { db = update_keys_in_directory E (drop 1 from) (drop 1 to) s.db })

  abbrev pub rename_regular : Text → Text → M E ℕ
  rename_regular from to = lookup_file E from >>= λ f.
      sys E (rename (E.join f.tier_path from) (E.join f.tier_path to)) >>= λ res.
      λ s. (ok res, record s { db = update E f to (some from) s.db })

  unfoldable pub rename_path : Text → Text → ℕ → M E ℕ
  rename_path from to flags = with_priv E ctx (
      if flags == 0
      then (is_directory E from >>= λ dir.
          if dir then rename_directory from to else rename_regular from to)
      else fail_with einval)

  unfoldable pub make_directory : Text → ℕ → M E ℕ
  make_directory path mode = with_priv E ctx (
      each_tier E (fail_with enoent) (λ t.
        sys E (mkdir (E.join t.path path) mode)
        >> sys E (lchown (E.join t.path path) ctx.uid ctx.gid)))

  -- 64 is ENONET.
  unfoldable pub remove_directory : Text → M E ℕ
  remove_directory path =
      with_priv E ctx (each_tier E (fail_with 64) (λ t. sys E (rmdir (E.join t.path path))))

  -- The `Metadata` object that `symlink`, `link` and `mknod` make at the end is not stored.
  unfoldable pub make_symlink : Text → Text → M E ℕ
  make_symlink from to = with_priv E ctx (
      front_tier E >>= λ t.
      sys E (symlink from (E.join t.path to)) >> sys E (lchown (E.join t.path to) ctx.uid ctx.gid))

  unfoldable pub make_link : Text → Text → M E ℕ
  make_link from to = with_priv E ctx (
      lookup_file E from >>= λ f.
      sys E (link (E.join f.tier_path from) (E.join f.tier_path to))
      >> sys E (lchown to ctx.uid ctx.gid))

  unfoldable pub make_node : Text → ℕ → ℕ → M E ℕ
  make_node path mode rdev = with_priv E ctx (
      front_tier E >>= λ t.
      let fullpath = E.join t.path path in
      sys E (if is_fifo mode then mkfifo fullpath mode else mknod fullpath mode rdev)
      >> sys E (lchown fullpath ctx.uid ctx.gid))
