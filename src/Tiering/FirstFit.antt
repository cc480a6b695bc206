-- ===== src/Tiering/FirstFit.antt =====
-- The simulation against its specification: first-fit packing of sizes into lists of free space.
use mathlib.Core.Option
use autotier.Base.{
  ℕ, zero, suc, ◌+◌, ◌-◌, ◌≤◌, ◌<◌, ◌≡◌, refl, ap, true, false, Option, none, some, List, [], ◌∷◌,
  map, inl, inr, leb, arith, All, modify, Bool-cases, Option-cases, if◌then◌else◌,
}
use native.Mathlib.Nat.{add-zero}
use autotier.Env.{Env}
use autotier.Env.Laws.{IsWordSized, half_word}
use autotier.Tier.{Tier, add_file_size_sim, full_test, reset_sim, enqueue_file_ptr}
use autotier.File.{File}
use autotier.Tiering.{accept, place, simulate_from, simulate_tier}

-- The first place with room.
unfoldable pub fit : ℕ → List ℕ → Option ℕ
fit size [] = none
fit size (room ∷ rooms) = if leb size room then some 0 else Option.map suc (fit size rooms)

-- The place of each item in turn, where an item without one is left out.
unfoldable pub pack : List ℕ → List ℕ → List (Option ℕ)
pack [] rooms = []
pack (s ∷ ss) rooms = elim (fit s rooms) [
  | none ↦ none ∷ pack ss rooms
  | some k ↦ some k ∷ pack ss (modify rooms k (λ room. room - s))
]

abbrev pub quotas : List Tier → List ℕ
quotas = map (λ t. t.quota)

abbrev pub room : Tier → ℕ
room t = t.quota - t.sim_usage

-- The word arithmetic of a tier does not wrap: half of the words' range is left free.
abbrev pub IsSmall : Tier → Type 0
IsSmall t = (t.sim_usage ≤ t.quota) × (t.quota < half_word)

module _ (E : Env) where
  abbrev pub sizes : List (File E) → List ℕ
  sizes = map (λ f. f.size)

  -- The tiers once the files went where a plan says.
  unfoldable pub deliver : ℕ → List (File E) → List (Option ℕ) → List Tier → List Tier
  deliver i (f ∷ fs) (some k ∷ plan) tiers =
      deliver (suc i) fs plan (modify tiers k (accept E i f k))
  deliver i (f ∷ fs) (none ∷ plan) tiers = deliver (suc i) fs plan tiers
  deliver i _ _ tiers = tiers

-- The items that a plan leaves out.
unfoldable pub left_out : ℕ → List (Option ℕ) → List ℕ
left_out i [] = []
left_out i (some k ∷ plan) = left_out (suc i) plan
left_out i (none ∷ plan) = i ∷ left_out (suc i) plan

pub fit-zero : (s r : ℕ) (rs : List ℕ) → fit s (r ∷ rs) ≡ some 0 → s ≤ r
unfolding fit
fit-zero s r rs h = ground (arith, Option-cases (fit s rs))

pub fit-suc : (s r : ℕ) (rs : List ℕ) {k : ℕ} → fit s (r ∷ rs) ≡ some (suc k) → fit s rs ≡ some k
unfolding fit
fit-suc s r rs h = ground (arith, Option-cases (fit s rs))

pub reset-IsSmall :
    (ts : List Tier) → All (λ t. t.quota < half_word) ts → All IsSmall (map reset_sim ts)
unfolding reset_sim
reset-IsSmall [] v = tt
reset-IsSmall (t ∷ ts) v = ((omega arith, v.0), reset-IsSmall ts v.1)

pub room-reset : (ts : List Tier) → map room (map reset_sim ts) ≡ map (λ t. t.quota) ts
unfolding reset_sim
room-reset [] = refl
room-reset (t ∷ ts) = let e : t.quota - 0 ≡ t.quota = omega arith in rw (e, room-reset ts)

module _ (E : Env) (L : IsWordSized E) where
  full_test-leb :
      (size : ℕ) (t : Tier)
      → IsSmall t
      → size < half_word
      → full_test E size t ≡ (if leb size (room t) then false else true)
  unfolding full_test
  full_test-leb size t v h =
      ground (arith, L.gt_word (E.bytes_add t.sim_usage size) t.quota, L.add_word t.sim_usage size)

  place-fit :
      (i : ℕ) (f : File E) (j : ℕ) (ts : List Tier)
      → All IsSmall ts
      → f.size < half_word
      → place E i f j ts
        ≡ Option.map (λ k. modify ts k (accept E i f (j + k))) (fit f.size (map room ts))
  unfolding place fit
  place-fit i f j [] v h = refl
  place-fit i f j (t ∷ ts) v h = elim (Bool-cases (leb f.size (room t))) [
    | inl fits ↦ rw (full_test-leb f.size t v.0 h, fits, add-zero)
    | inr full ↦
        rw (full_test-leb f.size t v.0 h, full, place-fit i f (suc j) ts v.1 h)
          (shift (fit f.size (map room ts)))
  ]
    where
      shift :
          (o : Option ℕ)
          → Option.map (λ us. t ∷ us) (Option.map (λ k. modify ts k (accept E i f (suc j + k))) o)
            ≡ Option.map (λ k. modify (t ∷ ts) k (accept E i f (j + k))) (Option.map suc o)
      shift none = refl
      shift (some k) =
          let e : suc j + k ≡ j + suc k = omega arith in
          ap (λ m. some (t ∷ modify ts k (accept E i f m))) e

  pub accept-IsSmall :
      (i : ℕ) (f : File E) (j : ℕ) (t : Tier)
      → IsSmall t
      → f.size ≤ room t
      → IsSmall (accept E i f j t) × (room (accept E i f j t) ≡ room t - f.size)
  unfolding accept add_file_size_sim enqueue_file_ptr
  accept-IsSmall i f j t v h = ground (arith, L.add_word t.sim_usage f.size)

  pub modify-IsSmall :
      (i : ℕ) (f : File E) (j k : ℕ) (ts : List Tier)
      → All IsSmall ts
      → fit f.size (map room ts) ≡ some k
      → All IsSmall (modify ts k (accept E i f j))
        × (map room (modify ts k (accept E i f j)) ≡ modify (map room ts) k (λ r. r - f.size))
  unfolding fit
  modify-IsSmall i f j k [] v h = cc
  modify-IsSmall i f j zero (t ∷ ts) v h =
      let (small, less) = accept-IsSmall i f j t v.0 (fit-zero f.size _ _ h) in
      ((small, v.1), ap (λ r. r ∷ map room ts) less)
  modify-IsSmall i f j (suc k) (t ∷ ts) v h =
      let (small, less) = modify-IsSmall i f j k ts v.1 (fit-suc f.size _ _ h) in
      ((v.0, small), ap (◌∷◌ (room t)) less)

  simulate_from-deliver :
      (i : ℕ) (fs : List (File E)) (ts : List Tier)
      → All IsSmall ts
      → All (λ f. f.size < half_word) fs
      → simulate_from E i fs ts ≡ (
        deliver E i fs (pack (sizes E fs) (map room ts)) ts,
        left_out i (pack (sizes E fs) (map room ts)),
      )
  unfolding simulate_from pack deliver left_out
  simulate_from-deliver i [] ts v h = refl
  simulate_from-deliver i (f ∷ fs) ts v h = elim (Option-cases (fit f.size (map room ts))) [
    | inl none_fits ↦
        rw (place-fit i f 0 ts v h.0, simulate_from)
          (rw (none_fits, pack, simulate_from)
            (rw (simulate_from-deliver (suc i) fs ts v h.1, simulate_from)))
    | inr (k, found) ↦
        let (small, less) = modify-IsSmall i f k k ts v found in
        let e : 0 + k ≡ k = omega arith in
        rw (place-fit i f 0 ts v h.0, simulate_from)
          (rw (found, pack, simulate_from)
            (rw (e, simulate_from-deliver (suc i) fs _ small h.1, less)))
  ]

  pub simulate_tier-pack :
      (fs : List (File E)) (ts : List Tier)
      → All (λ t. t.quota < half_word) ts
      → All (λ f. f.size < half_word) fs
      → simulate_tier E fs ts ≡ (
        deliver E 0 fs (pack (sizes E fs) (quotas ts)) (map reset_sim ts),
        left_out 0 (pack (sizes E fs) (quotas ts)),
      )
  unfolding simulate_tier
  simulate_tier-pack fs ts v h =
      rw (simulate_from-deliver 0 fs (map reset_sim ts) (reset-IsSmall ts v) h, room-reset ts)
