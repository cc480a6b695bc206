-- ===== src/Tiering/Delivery.antt =====
-- What the plan puts on each tier, and in what order of preference.
use mathlib.Core.List.{append-nil, append_assoc}
use autotier.Base.{
  ℕ, zero, suc, ◌+◌, ◌≤◌, ◌<◌, ◌≡◌, refl, sym, ◌∙◌, ap, Option, none, some, List, [], ◌∷◌, ◌++◌,
  map, inl, inr, ◌==◌, arith, All, modify, get_elem?, Option-cases, if◌then◌else◌,
}
use autotier.Env.{Env}
use autotier.Env.Laws.{IsWordSized, half_word}
use autotier.Tier.{Tier, add_file_size_sim, reset_sim, enqueue_file_ptr}
use autotier.File.{File}
use autotier.Tiering.{accept, simulate_tier}
use autotier.Tiering.FirstFit.{
  fit, pack, room, quotas, sizes, IsSmall, deliver, fit-zero, fit-suc, modify-IsSmall,
  reset-IsSmall, room-reset, simulate_tier-pack,
}

-- The sum of the sizes that a plan gives to place `j`.
pub planned : ℕ → List ℕ → List (Option ℕ) → ℕ
planned j (s ∷ ss) (some k ∷ plan) = (if k == j then s else 0) + planned j ss plan
planned j (s ∷ ss) (none ∷ plan) = planned j ss plan
planned j _ _ = 0

abbrev pub sim_at : ℕ → List Tier → ℕ
sim_at j ts = elim (get_elem? ts j) [ none ↦ 0 | some t ↦ t.sim_usage ]

abbrev pub incoming_at : ℕ → List Tier → List ℕ
incoming_at j ts = elim (get_elem? ts j) [ none ↦ [] | some t ↦ t.incoming_files ]

module _ (E : Env) where
  -- The files, by number from `i` on, that a plan sends to tier `j` from another tier.
  unfoldable pub arrivals : ℕ → ℕ → List (File E) → List (Option ℕ) → List ℕ
  arrivals j i (f ∷ fs) (some k ∷ plan) =
      let rest = arrivals j (suc i) fs plan in
      if k == j then (if f.tier_ptr == j then rest else i ∷ rest) else rest
  arrivals j i (f ∷ fs) (none ∷ plan) = arrivals j (suc i) fs plan
  arrivals j i _ _ = []

arrival :
    (k j p i : ℕ) (xs rest : List ℕ)
    → (if k == j then (if p == k then xs else xs ++ (i ∷ [])) else xs) ++ rest
      ≡ xs ++ (if k == j then (if p == j then rest else i ∷ rest) else rest)
arrival k j p i xs rest = ground (arith, append_assoc xs (i ∷ []) rest)

sim_at-reset : (j : ℕ) (ts : List Tier) → sim_at j (map reset_sim ts) ≡ 0
unfolding reset_sim
sim_at-reset j [] = refl
sim_at-reset zero (t ∷ ts) = refl
sim_at-reset (suc j) (t ∷ ts) = sim_at-reset j ts

incoming_at-reset : (j : ℕ) (ts : List Tier) → incoming_at j (map reset_sim ts) ≡ incoming_at j ts
unfolding reset_sim
incoming_at-reset j [] = refl
incoming_at-reset zero (t ∷ ts) = refl
incoming_at-reset (suc j) (t ∷ ts) = incoming_at-reset j ts

module _ (E : Env) (L : IsWordSized E) where
  accept-sim :
      (i : ℕ) (f : File E) (j : ℕ) (t : Tier)
      → IsSmall t
      → f.size ≤ room t
      → (accept E i f j t).sim_usage ≡ t.sim_usage + f.size
  unfolding accept add_file_size_sim enqueue_file_ptr
  accept-sim i f j t v h = ground (arith, L.add_word t.sim_usage f.size)

  sim_at-modify :
      (i : ℕ) (f : File E) (m j k : ℕ) (ts : List Tier)
      → All IsSmall ts
      → fit f.size (map room ts) ≡ some k
      → sim_at j (modify ts k (accept E i f m)) ≡ sim_at j ts + (if k == j then f.size else 0)
  unfolding fit
  sim_at-modify i f m j k [] v h = cc
  sim_at-modify i f m zero zero (t ∷ ts) v h = accept-sim i f m t v.0 (fit-zero f.size _ _ h)
  sim_at-modify i f m (suc j) zero (t ∷ ts) v h = ground arith
  sim_at-modify i f m zero (suc k) (t ∷ ts) v h = ground arith
  sim_at-modify i f m (suc j) (suc k) (t ∷ ts) v h =
      sim_at-modify i f m j k ts v.1 (fit-suc f.size _ _ h) ∙ ground arith

  sim_at-deliver :
      (j i : ℕ) (fs : List (File E)) (ts : List Tier)
      → All IsSmall ts
      → sim_at j (deliver E i fs (pack (sizes E fs) (map room ts)) ts)
        ≡ sim_at j ts + planned j (sizes E fs) (pack (sizes E fs) (map room ts))
  unfolding deliver pack planned
  sim_at-deliver j i [] ts v = omega arith
  sim_at-deliver j i (f ∷ fs) ts v = elim (Option-cases (fit f.size (map room ts))) [
    | inl e ↦ rw (e, pack) (sim_at-deliver j (suc i) fs ts v)
    | inr (k, e) ↦
        let (small, less) = modify-IsSmall E L i f k k ts v e in
        rw (e, pack)
          (rw (← less) (
            sim_at-deliver j (suc i) fs (modify ts k (accept E i f k)) small
            ∙ omega (arith, sim_at-modify i f k j k ts v e)))
  ]

  accept-incoming :
      (i : ℕ) (f : File E) (j : ℕ) (t : Tier)
      → (accept E i f j t).incoming_files
        ≡ (if f.tier_ptr == j then t.incoming_files else t.incoming_files ++ (i ∷ []))
  unfolding accept add_file_size_sim enqueue_file_ptr
  accept-incoming i f j t = ground arith

  incoming_at-modify :
      (i : ℕ) (f : File E) (m j k : ℕ) (ts : List Tier)
      → fit f.size (map room ts) ≡ some k
      → incoming_at j (modify ts k (accept E i f m)) ≡ (
          if k == j
          then (if f.tier_ptr == m then incoming_at j ts else incoming_at j ts ++ (i ∷ []))
          else incoming_at j ts)
  unfolding fit
  incoming_at-modify i f m j k [] h = cc
  incoming_at-modify i f m zero zero (t ∷ ts) h = accept-incoming i f m t
  incoming_at-modify i f m (suc j) zero (t ∷ ts) h = ground arith
  incoming_at-modify i f m zero (suc k) (t ∷ ts) h = ground arith
  incoming_at-modify i f m (suc j) (suc k) (t ∷ ts) h =
      incoming_at-modify i f m j k ts (fit-suc f.size _ _ h) ∙ ground arith

  incoming_at-deliver :
      (j i : ℕ) (fs : List (File E)) (ts : List Tier)
      → All IsSmall ts
      → incoming_at j (deliver E i fs (pack (sizes E fs) (map room ts)) ts)
        ≡ incoming_at j ts ++ arrivals E j i fs (pack (sizes E fs) (map room ts))
  unfolding deliver pack arrivals
  incoming_at-deliver j i [] ts v = sym (append-nil _)
  incoming_at-deliver j i (f ∷ fs) ts v = elim (Option-cases (fit f.size (map room ts))) [
    | inl e ↦ rw (e, pack) (incoming_at-deliver j (suc i) fs ts v)
    | inr (k, e) ↦
        let (small, less) = modify-IsSmall E L i f k k ts v e in
        rw (e, pack)
          (rw (← less) (
            incoming_at-deliver j (suc i) fs (modify ts k (accept E i f k)) small
            ∙ rw (incoming_at-modify i f k j k ts e)
                (arrival k j f.tier_ptr i (incoming_at j ts) _)))
  ]

  module _ (fs : List (File E)) (ts : List Tier) (small_tiers : All (λ t. t.quota < half_word) ts)
      (small_files : All (λ f. f.size < half_word) fs) where
    pub simulate_tier-delivers :
        (j : ℕ)
        → (sim_at j (simulate_tier E fs ts).0
            ≡ planned j (sizes E fs) (pack (sizes E fs) (quotas ts)))
          × (incoming_at j (simulate_tier E fs ts).0
              ≡ incoming_at j ts ++ arrivals E j 0 fs (pack (sizes E fs) (quotas ts)))
    simulate_tier-delivers j = (
      ap (λ r. sim_at j r.0) (simulate_tier-pack E L fs ts small_tiers small_files) ∙ sim,
      ap (λ r. incoming_at j r.0) (simulate_tier-pack E L fs ts small_tiers small_files) ∙ inc,
    )
      where
        start : List Tier
        start = map reset_sim ts

        small : All IsSmall start
        small = reset-IsSmall ts small_tiers

        sim :
            sim_at j (deliver E 0 fs (pack (sizes E fs) (quotas ts)) start)
            ≡ planned j (sizes E fs) (pack (sizes E fs) (quotas ts))
        sim =
            rw (← room-reset ts)
              (sim_at-deliver j 0 fs start small ∙ rw (sim_at-reset j ts) (omega arith))

        inc :
            incoming_at j (deliver E 0 fs (pack (sizes E fs) (quotas ts)) start)
            ≡ incoming_at j ts ++ arrivals E j 0 fs (pack (sizes E fs) (quotas ts))
        inc =
            rw (← room-reset ts)
              (incoming_at-deliver j 0 fs start small ∙ rw (incoming_at-reset j ts))
