-- ===== src/Tiering.antt =====
-- src/impl/autotierfs/TierEngine/components/tiering.cpp: which tier each file belongs in. The
-- files come sorted; each goes to the first tier whose simulated usage leaves room for it.
pub mod Delivery
pub mod FirstFit
pub mod Priority
pub mod Quota
use mathlib.Core.Option
use autotier.Base.{
  ℕ, zero, suc, ◌+◌, Text, Bool, Option, none, some, List, [], ◌∷◌, ◌==◌, map, if◌then◌else◌,
}
use autotier.Env.{Env}
use autotier.Tier.{Tier, add_file_size_sim, full_test, reset_sim, enqueue_file_ptr}
use autotier.File.{File}

module _ (E : Env) where
  -- The body of the inner loop once the file fits: `j` is the tier's index, `i` the file's.
  unfoldable pub accept : ℕ → File E → ℕ → Tier → Tier
  accept i f j t =
      let t' = add_file_size_sim E f.size t in if f.tier_ptr == j then t' else enqueue_file_ptr i t'

  -- The inner loop over the tiers from the `j`-th on; `none` is `titr == tiers_.end()`.
  unfoldable pub place : ℕ → File E → ℕ → List Tier → Option (List Tier)
  place i f j [] = none
  place i f j (t ∷ ts) =
      let later = Option.map (λ us. t ∷ us) (place i f (suc j) ts) in
      if full_test E f.size t then later else some (accept i f j t ∷ ts)

  -- The outer loop over the files from the `i`-th on. The second result lists the files for
  -- which `Could not fit file in any tiers` is logged.
  unfoldable pub simulate_from : ℕ → List (File E) → List Tier → List Tier × List ℕ
  simulate_from i [] tiers = (tiers, [])
  simulate_from i (f ∷ fs) tiers = elim (place i f 0 tiers) [
    | some tiers' ↦ simulate_from (suc i) fs tiers'
    | none ↦ let (last, errors) = simulate_from (suc i) fs tiers in (last, i ∷ errors)
  ]

  unfoldable pub simulate_tier : List (File E) → List Tier → List Tier × List ℕ
  simulate_tier files tiers = simulate_from 0 files (map reset_sim tiers)
