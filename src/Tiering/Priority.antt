-- ===== src/Tiering/Priority.antt =====
-- Hotter files come first in the list, and get the better tier.
use mathlib.Core.List.{Memᴰ}
use autotier.Base.{
  ℕ, zero, suc, ◌+◌, ◌-◌, ◌≤◌, ◌<◌, ◌≡◌, ◌⊎◌, ◌==◌, ◌++◌, ◌∙◌, ap, refl, Bool, true, false, Option,
  none, some, List, [], ◌∷◌, inl, inr, arith, All, modify, get_elem?, Bool-cases, Option-cases,
  if◌then◌else◌,
}
use autotier.Env.{Env}
use autotier.Env.Laws.{IsWordSized, half_word}
use autotier.Tier.{Tier}
use autotier.File.{File}
use autotier.Tiering.{simulate_tier}
use autotier.Tiering.FirstFit.{fit, pack, quotas, sizes, fit-suc, fit-zero}
use autotier.Tiering.Delivery.{arrivals, incoming_at, simulate_tier-delivers}

-- Every place has at most as much room.
data Shrunk : List ℕ → List ℕ → Type 0 where
  nil : Shrunk [] []
  cons : {r r' : ℕ} {rs rs' : List ℕ} → r' ≤ r → Shrunk rs rs' → Shrunk (r ∷ rs) (r' ∷ rs')

Shrunk-refl : (rs : List ℕ) → Shrunk rs rs
Shrunk-refl [] = nil
Shrunk-refl (r ∷ rs) = cons (omega arith) (Shrunk-refl rs)

Shrunk-trans : {rs ss us : List ℕ} → Shrunk rs ss → Shrunk ss us → Shrunk rs us
Shrunk-trans nil nil = nil
Shrunk-trans (cons h s) (cons k t) = cons (omega arith) (Shrunk-trans s t)

Shrunk-modify : (s k : ℕ) (rs : List ℕ) → Shrunk rs (modify rs k (λ r. r - s))
Shrunk-modify s k [] = nil
Shrunk-modify s zero (r ∷ rs) = cons (omega arith) (Shrunk-refl rs)
Shrunk-modify s (suc k) (r ∷ rs) = cons (omega arith) (Shrunk-modify s k rs)

-- What fits a larger item later fits a smaller one now, no further down.
abbrev Sooner : ℕ → Option ℕ → Type 0
Sooner j none = ⊥
Sooner j (some k) = k ≤ j

fit-Sooner :
    (s s' j : ℕ) {rs rs' : List ℕ}
    → s ≤ s'
    → Shrunk rs rs'
    → fit s' rs' ≡ some j
    → Sooner j (fit s rs)
unfolding fit
fit-Sooner s s' j h nil e = cc
fit-Sooner s s' zero h (cons {r = r} {r' = r'} k t) e =
    let le : s' ≤ r' = fit-zero s' r' _ e in ground arith
fit-Sooner s s' (suc j) h (cons {r = r} {r' = r'} {rs = rs} {rs' = rs'} k t) e =
    ground (arith, fit-Sooner s s' j h t (fit-suc s' r' rs' e), Option-cases (fit s rs))

-- Item `b` of a list that starts with an item no larger, whose place was sought among `rooms`.
pack-Sooner :
    (s s' b j : ℕ) (ss rooms rooms' : List ℕ)
    → s ≤ s'
    → Shrunk rooms rooms'
    → get_elem? ss b ≡ some s'
    → get_elem? (pack ss rooms') b ≡ some (some j)
    → Sooner j (fit s rooms)
unfolding pack
pack-Sooner s s' b j [] rooms rooms' h t es e = cc
pack-Sooner s s' zero j (x ∷ ss) rooms rooms' h t es e = elim (Option-cases (fit x rooms')) [
  | inl miss ↦ absurd (ground arith)
  | inr (k, found) ↦ fit-Sooner s s' j h t (ground arith)
]
pack-Sooner s s' (suc b) j (x ∷ ss) rooms rooms' h t es e = elim (Option-cases (fit x rooms')) [
  | inl miss ↦ pack-Sooner s s' b j ss rooms rooms' h t es (rw (miss, pack) at e)
  | inr (k, found) ↦
      pack-Sooner s s' b j ss rooms (modify rooms' k (λ r. r - x)) h
        (Shrunk-trans t (Shrunk-modify x k rooms')) es (rw (found, pack) at e)
]

-- A plan whose item `a` is placed at `j` or before.
abbrev pub PlacedBy : ℕ → ℕ → List (Option ℕ) → Type 0
PlacedBy a j plan = (k : ℕ) × (get_elem? plan a ≡ some (some k)) × (k ≤ j)

pack-PlacedBy :
    (a b s s' j : ℕ) (ss rooms : List ℕ)
    → a < b
    → s ≤ s'
    → get_elem? ss a ≡ some s
    → get_elem? ss b ≡ some s'
    → get_elem? (pack ss rooms) b ≡ some (some j)
    → PlacedBy a j (pack ss rooms)
unfolding pack
pack-PlacedBy a b s s' j [] rooms lt h ea eb e = cc
pack-PlacedBy a zero s s' j (x ∷ ss) rooms lt h ea eb e = elim lt [ ]
pack-PlacedBy zero (suc b) s s' j (x ∷ ss) rooms lt h ea eb e = elim (Option-cases (fit x rooms)) [
  | inl miss ↦
      let later : Sooner j (fit x rooms) =
        pack-Sooner x s' b j ss rooms rooms (ground arith) (Shrunk-refl rooms) eb
          (rw (miss, pack) at e) in
      absurd (rw miss at later)
  | inr (k, found) ↦
      let later : Sooner j (fit x rooms) =
        pack-Sooner x s' b j ss rooms (modify rooms k (λ r. r - x)) (ground arith)
          (Shrunk-modify x k rooms) eb (rw (found, pack) at e) in
      rw (found, pack) (k, refl, rw found at later)
]
pack-PlacedBy (suc a) (suc b) s s' j (x ∷ ss) rooms lt h ea eb e =
    elim (Option-cases (fit x rooms)) [
      | inl miss ↦
          rw (miss, pack)
            (pack-PlacedBy a b s s' j ss rooms (omega arith) h ea eb (rw (miss, pack) at e))
      | inr (k, found) ↦
          rw (found, pack)
            (pack-PlacedBy a b s s' j ss (modify rooms k (λ r. r - x)) (omega arith) h ea eb
              (rw (found, pack) at e))
    ]

get_elem?-map :
    (E : Env) (fs : List (File E)) (i : ℕ) {f : File E}
    → get_elem? fs i ≡ some f
    → get_elem? (sizes E fs) i ≡ some f.size
get_elem?-map E [] i h = cc
get_elem?-map E (g ∷ fs) zero h = ground arith
get_elem?-map E (g ∷ fs) (suc i) h = get_elem?-map E fs i h

Memᴰ-if :
    (b : Bool) (x y : ℕ) (xs : List ℕ)
    → Memᴰ x (if b then xs else y ∷ xs)
    → ((b ≡ false) × (x ≡ y)) ⊎ Memᴰ x xs
Memᴰ-if true x y xs m = inr m
Memᴰ-if false x y xs (Memᴰ.head e) = inl (refl, e)
Memᴰ-if false x y xs (Memᴰ.tail m) = inr m

module _ (E : Env) where
  -- File `x`, counted from `i` on, gets place `j` and is in another tier.
  pub record Sent (j i x : ℕ) (fs : List (File E)) (plan : List (Option ℕ)) : Type 0 where
    pub n : ℕ
    pub number : x ≡ i + n
    pub placed : get_elem? plan n ≡ some (some j)
    pub from : (f : File E) → get_elem? fs n ≡ some f → (f.tier_ptr == j) ≡ false

  Sent-later :
      (j i x : ℕ) (f : File E) (fs : List (File E)) (p : Option ℕ) (plan : List (Option ℕ))
      → Sent j (suc i) x fs plan
      → Sent j i x (f ∷ fs) (p ∷ plan)
  Sent-later j i x f fs p plan s = record {
    n = suc s.n;
    number = omega (arith, s.number);
    placed = s.placed;
    from = s.from;
  }

  arrivals-Sent :
      (j i x : ℕ) (fs : List (File E)) (plan : List (Option ℕ))
      → Memᴰ x (arrivals E j i fs plan)
      → Sent j i x fs plan
  unfolding arrivals
  arrivals-Sent j i x [] plan m = elim m [ ]
  arrivals-Sent j i x (f ∷ fs) [] m = elim m [ ]
  arrivals-Sent j i x (f ∷ fs) (none ∷ plan) m =
      Sent-later j i x f fs none plan (arrivals-Sent j (suc i) x fs plan m)
  arrivals-Sent j i x (f ∷ fs) (some k ∷ plan) m = elim (Bool-cases (k == j)) [
    | inr other ↦
        Sent-later j i x f fs (some k) plan (arrivals-Sent j (suc i) x fs plan (rw other at m))
    | inl here ↦ elim (Memᴰ-if (f.tier_ptr == j) x i _ (rw here at m)) [
      | inl (apart, e) ↦ record {
        n = 0;
        number = omega (arith, e);
        placed = ap (λ n. some (some n)) (let q : k ≡ j = ground arith in q);
        from = λ g h. let q : f ≡ g = ground arith in rw q at apart;
      }
      | inr later ↦ Sent-later j i x f fs (some k) plan (arrivals-Sent j (suc i) x fs plan later)
    ]
  ]

  Memᴰ-later : (b : Bool) (x y : ℕ) (xs : List ℕ) → Memᴰ x xs → Memᴰ x (if b then xs else y ∷ xs)
  Memᴰ-later true x y xs m = m
  Memᴰ-later false x y xs m = Memᴰ.tail m

  Memᴰ-both :
      (b c : Bool) (x y : ℕ) (xs : List ℕ)
      → Memᴰ x xs
      → Memᴰ x (if b then (if c then xs else y ∷ xs) else xs)
  Memᴰ-both true c x y xs m = Memᴰ-later c x y xs m
  Memᴰ-both false c x y xs m = m

  -- A file with a place in another tier is among the arrivals there.
  arrivals-mem :
      (k i a : ℕ) (fs : List (File E)) (plan : List (Option ℕ)) {f : File E}
      → get_elem? fs a ≡ some f
      → get_elem? plan a ≡ some (some k)
      → (f.tier_ptr == k) ≡ false
      → Memᴰ (i + a) (arrivals E k i fs plan)
  unfolding arrivals
  arrivals-mem k i a [] plan h e n = absurd (ground arith)
  arrivals-mem k i a (g ∷ fs) [] h e n = absurd (ground arith)
  arrivals-mem k i zero (g ∷ fs) (none ∷ plan) h e n = absurd (ground arith)
  arrivals-mem k i zero (g ∷ fs) (some m ∷ plan) {f} h e n =
      let q : (m == k) ≡ true = ground arith in
      let same : g ≡ f = ground arith in
      let apart : (g.tier_ptr == k) ≡ false = rw same n in rw (q, apart) (Memᴰ.head (omega arith))
  arrivals-mem k i (suc a) (g ∷ fs) (none ∷ plan) h e n =
      let p : i + suc a ≡ suc i + a = omega arith in rw p (arrivals-mem k (suc i) a fs plan h e n)
  arrivals-mem k i (suc a) (g ∷ fs) (some m ∷ plan) h e n =
      let p : i + suc a ≡ suc i + a = omega arith in
      rw p (Memᴰ-both (m == k) (g.tier_ptr == k) _ i _ (arrivals-mem k (suc i) a fs plan h e n))

  -- File `a` is sent to tier `k`, or is in it and is sent nowhere.
  abbrev pub GoesTo : ℕ → File E → ℕ → List Tier → Type 0
  GoesTo a f k tiers =
      Memᴰ a (incoming_at k tiers) ⊎ ((f.tier_ptr ≡ k) × ((m : ℕ) → ¬ Memᴰ a (incoming_at m tiers)))

incoming_none :
    (ts : List Tier) (m : ℕ) → All (λ t. t.incoming_files ≡ []) ts → incoming_at m ts ≡ []
incoming_none [] m v = refl
incoming_none (t ∷ ts) zero v = v.0
incoming_none (t ∷ ts) (suc m) v = incoming_none ts m v.1

module _ (E : Env) (L : IsWordSized E) (fs : List (File E)) (ts : List Tier)
    (small_tiers : All (λ t. t.quota < half_word) ts)
    (small_files : All (λ f. f.size < half_word) fs)
    (idle : All (λ t. t.incoming_files ≡ []) ts) where
  plan_of : List (Option ℕ)
  plan_of = pack (sizes E fs) (quotas ts)

  queue-arrivals : (m : ℕ) → incoming_at m (simulate_tier E fs ts).0 ≡ arrivals E m 0 fs plan_of
  unfolding plan_of
  queue-arrivals m =
      (simulate_tier-delivers E L fs ts small_tiers small_files m).1
      ∙ ap (λ q. q ++ arrivals E m 0 fs (pack (sizes E fs) (quotas ts))) (incoming_none ts m idle)

  placed-GoesTo :
      (a k : ℕ) (f : File E)
      → get_elem? fs a ≡ some f
      → get_elem? plan_of a ≡ some (some k)
      → GoesTo E a f k (simulate_tier E fs ts).0
  placed-GoesTo a k f h e = elim (Bool-cases (f.tier_ptr == k)) [
    | inr n ↦
        let mem = arrivals-mem E k 0 a fs plan_of h e n in
        let p : 0 + a ≡ a = omega arith in inl (rw (queue-arrivals k) (rw p at mem))
    | inl s ↦ inr (
      ground arith,
      λ m x.
          let sent = arrivals-Sent E m 0 a fs plan_of (rw (queue-arrivals m) at x) in
          let at_a : sent.n ≡ a = omega (arith, sent.number) in
          let there : get_elem? plan_of a ≡ some (some m) = rw at_a at (sent.placed) in
          let away : (f.tier_ptr == m) ≡ false = sent.from f (rw at_a h) in
          let same : k ≡ m = cc in
          let no_more : (f.tier_ptr == k) ≡ false = rw same away in absurd (ground arith),
    )
  ]

  -- On tiers and files below half the range of a word, with empty queues at the start: if the
  -- simulation sends a file to tier `j`, then each file that stands before it in the list and is no
  -- larger goes to a tier that is `j` or a better one: it is sent there, or it is there already and
  -- is sent nowhere.
  pub simulate_tier-GoesTo :
      (a b j : ℕ) (f g : File E)
      → a < b
      → get_elem? fs a ≡ some f
      → get_elem? fs b ≡ some g
      → f.size ≤ g.size
      → Memᴰ b (incoming_at j (simulate_tier E fs ts).0)
      → (k : ℕ) × (k ≤ j) × GoesTo E a f k (simulate_tier E fs ts).0
  unfolding plan_of
  simulate_tier-GoesTo a b j f g lt fa gb h m =
      let sent = arrivals-Sent E j 0 b fs plan_of (rw (queue-arrivals j) at m) in
      let at_b : sent.n ≡ b = omega (arith, sent.number) in
      let e : get_elem? plan_of b ≡ some (some j) = rw at_b at (sent.placed) in
      let (k, p, l) =
        pack-PlacedBy a b f.size g.size j _ _ lt h (get_elem?-map E fs a fa)
          (get_elem?-map E fs b gb) e in
      (k, l, placed-GoesTo a k f fa p)
