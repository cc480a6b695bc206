-- ===== src/Fuse/Statfs.antt =====
-- src/impl/autotierfs/fuseOps/statfs.cpp: the size of the mount is the sum of the quotas, in blocks
-- of each tier. The counts are unsigned 64-bit numbers, which wrap around.
pub mod Free
use autotier.Base.{ℕ, ◌+◌, ◌-◌, ◌/◌, ◌%◌, ◌^◌, Text, Bool, List, [], ◌∷◌, ◌==◌, if◌then◌else◌}
use autotier.Env.{Env, StatVfs, Outcome, ret, fail}
use autotier.Tier.{Tier}
use autotier.Fuse.{Mount, M, Result, ok, error, crash, Context, enoent, echild}

abbrev pub add_word : ℕ → ℕ → ℕ
add_word a b = (a + b) % 2 ^ 64

abbrev pub sub_word : ℕ → ℕ → ℕ
sub_word a b = (a + 2 ^ 64 - b) % 2 ^ 64

abbrev or_first : ℕ → ℕ → ℕ
or_first a b = if a == 0 then b else a

-- What one tier adds.
unfoldable pub add_tier : Tier → StatVfs → StatVfs → StatVfs
add_tier t stats stbuf = record stbuf {
  f_bsize = or_first stbuf.f_bsize stats.f_bsize;
  f_frsize = or_first stbuf.f_frsize stats.f_frsize;
  f_blocks = add_word stbuf.f_blocks (t.quota / stats.f_bsize);
  f_bfree = sub_word stbuf.f_bfree (t.usage / stats.f_bsize);
  f_files = add_word stbuf.f_files stats.f_files;
  f_ffree = or_first stbuf.f_ffree stats.f_ffree;
  f_favail = or_first stbuf.f_favail stats.f_favail;
}

abbrev pub no_stats : StatVfs
no_stats = record {
  f_bsize = 0;
  f_frsize = 0;
  f_blocks = 0;
  f_bfree = 0;
  f_bavail = 0;
  f_files = 0;
  f_ffree = 0;
  f_favail = 0;
}

unfoldable pub finish_stats : StatVfs → StatVfs
finish_stats stbuf = record stbuf {
  f_bfree = add_word stbuf.f_bfree stbuf.f_blocks;
  f_bavail = add_word stbuf.f_bfree stbuf.f_blocks;
}

module _ (E : Env) where
  -- A block size of 0 divides by zero.
  abbrev pub add_stats :
      (StatVfs → E.World → Result StatVfs × E.World)
      → Tier
      → Outcome StatVfs × E.World
      → StatVfs
      → Result StatVfs × E.World
  add_stats rest t (fail e, w) stbuf = (error e, w)
  add_stats rest t (ret stats, w) stbuf =
      if stats.f_bsize == 0 then (crash, w) else rest (add_tier t stats stbuf) w

  -- The loop over the tiers.
  unfoldable pub sum_tiers : Text → List Tier → StatVfs → E.World → Result StatVfs × E.World
  unfolding add_tier
  sum_tiers path [] stbuf w = (ok stbuf, w)
  sum_tiers path (t ∷ ts) stbuf w =
      add_stats (sum_tiers path ts) t (E.statvfs (E.join t.path path) w) stbuf

  abbrev finished : Result StatVfs × E.World → Mount E → Result StatVfs × Mount E
  finished (ok stbuf, w) s = (ok (finish_stats stbuf), record s { world = w })
  finished (error e, w) s = (error e, record s { world = w })
  finished (crash, w) s = (crash, record s { world = w })

  -- Without tiers `res` stays -ENOENT.
  unfoldable pub statfs_of : List Tier → Text → M E StatVfs
  unfolding sum_tiers finish_stats
  statfs_of [] path s = (error enoent, s)
  statfs_of (t ∷ ts) path s = finished (sum_tiers path (t ∷ ts) no_stats s.world) s

  unfoldable pub statfs : Context → Text → M E StatVfs
  unfolding statfs_of
  statfs ctx path s = if ctx.has_priv then statfs_of s.tiers path s else (error echild, s)
