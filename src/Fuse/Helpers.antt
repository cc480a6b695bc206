-- ===== src/Fuse/Helpers.antt =====
-- src/impl/autotierfs/fuseOps/helpers.cpp, `tier_lookup` of
-- src/impl/autotierfs/TierEngine/components/base.cpp, and what the callbacks have in common: the
-- null test of `private_data`, a call tested against -1, the lookup of a file's record, and the
-- loop over the tiers.
pub mod Keys
pub mod Moved
use autotier.Base.{
  ℕ, suc, Text, Bool, Option, none, some, List, [], ◌∷◌, ◌++◌, ◌==◌, if◌then◌else◌, starts_with,
  length, drop,
}
use autotier.Env.{
  Env, Syscall, StatCall, Stat, Outcome, ret, fail, symlink_status, BatchOp, delete, put,
}
use autotier.Metadata.{Metadata, metadata_at, strip_slash}
use autotier.Tier.{Tier}
use mathlib.Core.Option
use autotier.Fuse.{
  Mount, Result, ok, error, crash, M, ◌>>=◌, return, fail_with, Context, enoent, echild, eperm,
}

-- A path that ends in `/`.
unfoldable pub add_slash : Text → Text
add_slash [] = b'/' ∷ []
add_slash (c ∷ []) = if c == b'/' then c ∷ [] else c ∷ b'/' ∷ []
add_slash (c ∷ d ∷ cs) = c ∷ add_slash (d ∷ cs)

-- The first tier whose path `fullpath` starts with. The end of a shorter `fullpath` is a NUL,
-- which no tier's path holds.
unfoldable pub fullpath_to_tier : Text → List Tier → Option ℕ
fullpath_to_tier fullpath [] = none
fullpath_to_tier fullpath (t ∷ ts) =
    let later = fullpath_to_tier fullpath ts in
    if starts_with fullpath t.path then some 0 else Option.map suc later

-- The batch of `update_keys_in_directory`, from the entries that the iterator gives: the loop
-- stops at the first key outside of the directory.
unfoldable pub moved_keys : Text → Text → List (Text × Text) → List BatchOp
moved_keys old_directory new_directory [] = []
moved_keys old_directory new_directory ((key, value) ∷ rest) =
    let later = moved_keys old_directory new_directory rest in
    if starts_with key old_directory
    then delete key ∷ put (new_directory ++ drop (length old_directory) key) value ∷ later
    else []

module _ (E : Env) where
  open E use {Db, World, same_path, join, call, stat_call, db_seek, db_write}

  unfoldable pub tier_lookup : Text → List Tier → Option ℕ
  tier_lookup p [] = none
  tier_lookup p (t ∷ ts) =
      let later = tier_lookup p ts in if same_path t.path p then some 0 else Option.map suc later

  -- The status of the write is not looked at.
  unfoldable pub update_keys_in_directory : Text → Text → Db → Db
  update_keys_in_directory old_directory new_directory db =
      let old = add_slash (strip_slash old_directory) in
      let new = add_slash (strip_slash new_directory) in
      Option.get_or (db_write db (moved_keys old new (db_seek db old))) db

  abbrev pub with_world : Mount E → World → Mount E
  with_world s w = record s { world = w }

  unfoldable pub check : {A : Type 0} → Outcome A → M E A
  check (ret x) = return x
  check (fail e) = fail_with e

  -- A call's outcome, and a call whose -1 makes the callback return -errno, or -1 itself.
  unfoldable pub try_sys : Syscall → M E (Outcome ℕ)
  try_sys c s = let (r, w) = call c s.world in (ok r, with_world s w)

  unfoldable pub sys : Syscall → M E ℕ
  sys c = try_sys c >>= check

  unfoldable pub or_minus_one : Outcome ℕ → M E ℕ
  or_minus_one (ret x) = return x
  or_minus_one (fail e) = fail_with eperm

  unfoldable pub sys_minus_one : Syscall → M E ℕ
  sys_minus_one c = try_sys c >>= or_minus_one

  unfoldable pub try_stat : StatCall → M E (Outcome Stat)
  try_stat c s = let (r, w) = stat_call c s.world in (ok r, with_world s w)

  -- `goto`: what runs when the code before it gives an error, which stays the result.
  abbrev pub keep_error : {A : Type 0} → ℕ → Result Unit × Mount E → Result A × Mount E
  keep_error e (crash, s) = (crash, s)
  keep_error e (_, s) = (error e, s)

  abbrev pub handled : {A : Type 0} → Result A × Mount E → M E Unit → Result A × Mount E
  handled (error e, s) label = keep_error e (label s)
  handled r label = r

  unfoldable pub on_error : {A : Type 0} → M E A → M E Unit → M E A
  on_error m label s = handled (m s) label

  -- `priv->tiers_.front()`.
  abbrev pub front : List Tier → M E Tier
  front [] = λ s. (crash, s)
  front (t ∷ ts) = return t

  unfoldable pub front_tier : M E Tier
  front_tier s = front s.tiers s

  -- `l::is_directory`. What `symlink_status` throws is a `filesystem_error`, which the handler for
  -- `error_code` does not catch and no caller does.
  unfoldable pub is_one : Outcome ℕ → M E Bool
  is_one (ret n) = return (n == 1)
  is_one (fail e) = λ s. (crash, s)

  unfoldable pub is_directory : Text → M E Bool
  is_directory path = front_tier >>= λ t. try_sys (symlink_status (join t.path path)) >>= is_one

  -- The two forms of `l::file_size`.
  unfoldable pub size_of : StatCall → M E (Outcome ℕ)
  size_of c = try_stat c >>= λ r. return (elim r [ ret info ↦ ret info.st_size | fail e ↦ fail e ])

  abbrev pub found : Metadata E → M E (Metadata E)
  found f = if f.not_found then fail_with enoent else return f

  -- `Metadata f(path, priv->db_); if (f.not_found()) return -ENOENT`.
  unfoldable pub lookup_file : Text → M E (Metadata E)
  lookup_file path s = found (metadata_at E path s.db none) s

  -- `res = ...; for (Tier *tptr : priv->tiers_) { res = f(tptr); ... }`, where an error of `f`
  -- returns.
  unfoldable pub each_of : List Tier → M E ℕ → (Tier → M E ℕ) → M E ℕ
  each_of [] res f = res
  each_of (t ∷ ts) res f = f t >>= λ r. each_of ts (return r) f

  unfoldable pub each_tier : M E ℕ → (Tier → M E ℕ) → M E ℕ
  each_tier res f s = each_of s.tiers res f s

  -- `if (!priv) return -ECHILD`.
  unfoldable pub with_priv : Context → M E ℕ → M E ℕ
  with_priv ctx m = if ctx.has_priv then m else fail_with echild
