-- ===== src/Fuse/Statfs/Free.antt =====
-- The free space that `statfs` reports.
use autotier.Base.{
  ℕ, ◌+◌, ◌/◌, ◌%◌, ◌^◌, ◌≤◌, ◌<◌, ◌≡◌, refl, Text, List, [], ◌∷◌, ◌==◌, arith, if_split, if_both,
}
use autotier.Env.{Env, StatVfs, Outcome, ret, fail}
use autotier.Tier.{Tier}
use autotier.Fuse.{Mount, Result, ok, error, crash, Context}
use autotier.Fuse.Statfs.{
  add_tier, finish_stats, add_stats, sum_tiers, no_stats, finished, statfs_of, statfs,
}

module _ (E : Env) (size : ℕ) where
  -- Every backend has blocks of this size.
  abbrev pub HasBlocks : Type 0
  HasBlocks =
      (path : Text) (w v : E.World) (stats : StatVfs)
      → E.statvfs path w ≡ (ret stats, v)
      → stats.f_bsize ≡ size

  -- The blocks of the quotas, and of what is used.
  unfoldable pub quota_blocks : List Tier → ℕ
  quota_blocks [] = 0
  quota_blocks (t ∷ ts) = t.quota / size + quota_blocks ts

  unfoldable pub used_blocks : List Tier → ℕ
  used_blocks [] = 0
  used_blocks (t ∷ ts) = t.usage / size + used_blocks ts

  -- Blocks are the quotas', free and available blocks what the usage leaves of them.
  abbrev pub Reports : List Tier → Result StatVfs → Type 0
  Reports tiers (ok st) =
      (st.f_blocks ≡ quota_blocks tiers)
      × ((st.f_bfree + used_blocks tiers ≡ quota_blocks tiers) × (st.f_bavail ≡ st.f_bfree))
  Reports tiers (error e) = Unit
  Reports tiers crash = ⊥

  -- The counts while the loop runs, from those before.
  abbrev Sums : List Tier → StatVfs → Result StatVfs × E.World → Type 0
  Sums ts before (ok st, w) =
      (st.f_blocks ≡ (before.f_blocks + quota_blocks ts) % 2 ^ 64)
      × ((st.f_bfree + used_blocks ts) % 2 ^ 64 ≡ before.f_bfree % 2 ^ 64)
  Sums ts before (error e, w) = Unit
  Sums ts before (crash, w) = ⊥

  add_tier_blocks :
      (t : Tier) (stats before : StatVfs) → (add_tier t stats before).f_blocks < 2 ^ 64
  unfolding add_tier
  add_tier_blocks t stats before = omega arith

  Sums-cons :
      (t : Tier) (ts : List Tier) (stats before : StatVfs) (r : Result StatVfs × E.World)
      → stats.f_bsize ≡ size
      → t.usage / size + used_blocks ts < 2 ^ 64
      → Sums ts (add_tier t stats before) r
      → Sums (t ∷ ts) before r
  unfolding add_tier quota_blocks used_blocks
  Sums-cons t ts stats before (ok st, w) e u h =
      let (blocks, free) = h in
      let q : t.quota / stats.f_bsize ≡ t.quota / size = rw e refl in
      let p : t.usage / stats.f_bsize ≡ t.usage / size = rw e refl in
      (omega (arith, blocks, q), omega (arith, free, p))
  Sums-cons t ts stats before (error x, w) e u h = tt
  Sums-cons t ts stats before (crash, w) e u h = h

  module _ (pos : 0 < size) (B : HasBlocks) where
    add_stats-Sums :
        (rest : StatVfs → E.World → Result StatVfs × E.World) (t : Tier) (ts : List Tier)
        (r : Outcome StatVfs × E.World) (before : StatVfs)
        → t.usage / size + used_blocks ts < 2 ^ 64
        → ((stats : StatVfs) (v : E.World) → r ≡ (ret stats, v) → stats.f_bsize ≡ size)
        → ((stats : StatVfs) (v : E.World)
            → Sums ts (add_tier t stats before) (rest (add_tier t stats before) v))
        → Sums (t ∷ ts) before (add_stats E rest t r before)
    add_stats-Sums rest t ts (fail e, w) before u b h = tt
    add_stats-Sums rest t ts (ret stats, w) before u b h =
        let e = b stats w refl in
        if_split (Sums (t ∷ ts) before) (stats.f_bsize == 0) (λ z. absurd (ground arith))
          (λ _. Sums-cons t ts stats before (rest (add_tier t stats before) w) e u (h stats w))

    sum_tiers-Sums :
        (path : Text) (ts : List Tier) (before : StatVfs) (w : E.World)
        → used_blocks ts < 2 ^ 64
        → before.f_blocks < 2 ^ 64
        → Sums ts before (sum_tiers E path ts before w)
    unfolding sum_tiers quota_blocks used_blocks
    sum_tiers-Sums path [] before w u a = (omega arith, omega arith)
    sum_tiers-Sums path (t ∷ ts) before w u a =
        add_stats-Sums (sum_tiers E path ts) t ts (E.statvfs (E.join t.path path) w) before u
          (λ stats v e. B (E.join t.path path) w v stats e)
          (λ stats v.
            sum_tiers-Sums path ts (add_tier t stats before) v (omega arith)
              (add_tier_blocks t stats before))

    finished-Reports :
        (r : Result StatVfs × E.World) (ts : List Tier) (s : Mount E)
        → quota_blocks ts < 2 ^ 64
        → used_blocks ts ≤ quota_blocks ts
        → Sums ts no_stats r
        → Reports ts (finished E r s).0
    unfolding finish_stats
    finished-Reports (ok st, w) ts s q u h =
        let (blocks, free) = h in (omega (arith, blocks), (omega (arith, blocks, free), refl))
    finished-Reports (error e, w) ts s q u h = tt
    finished-Reports (crash, w) ts s q u h = h

    -- `statfs` on a mount whose backends have blocks of one size, while the tiers' usage, in
    -- blocks, is within the sum of their quotas and that is a 64-bit number: it does not crash,
    -- and where it succeeds it reports the quotas' blocks as the size, and exactly what the usage
    -- leaves of them as free and as available, though the count of free blocks passes below zero
    -- while it is computed.
    pub statfs-Reports :
        (ctx : Context) (path : Text) (s : Mount E)
        → quota_blocks s.tiers < 2 ^ 64
        → used_blocks s.tiers ≤ quota_blocks s.tiers
        → Reports s.tiers (statfs E ctx path s).0
    unfolding statfs statfs_of
    statfs-Reports ctx path s q u =
        if_both (λ (r : Result StatVfs × Mount E). Reports s.tiers r.0) ctx.has_priv
          (at s.tiers q u) tt
      where
        at :
            (ts : List Tier)
            → quota_blocks ts < 2 ^ 64
            → used_blocks ts ≤ quota_blocks ts
            → Reports ts (statfs_of E ts path s).0
        at [] q u = tt
        at (t ∷ ts) q u =
            finished-Reports (sum_tiers E path (t ∷ ts) no_stats s.world) (t ∷ ts) s q u
              (sum_tiers-Sums path (t ∷ ts) no_stats s.world (omega arith) (omega arith))
