-- ===== src/Ranking/Order.antt =====
-- The comparison is one that `std::sort` may be given.
use autotier.Base.{◌≡◌, ◌↔◌, ◌⊎◌, inl, inr, ◌∙◌, Bool-cases, true, false, arith}
use autotier.Env.{Env}
use autotier.File.{File}
use autotier.Ranking.{comes_first}

-- The numbers that occur are ordered: there is no NaN among them.
pub record IsOrdered (E : Env) : Type 0 where
  pub same_iff : (a b : E.Double) → (E.same a b ≡ true) ↔ (a ≡ b)
  pub less_irrefl : (a : E.Double) → E.less a a ≡ false
  pub less_trans : (a b c : E.Double) → E.less a b ≡ true → E.less b c ≡ true → E.less a c ≡ true
  pub less_total : (a b : E.Double) → E.same a b ≡ false → (E.less a b ≡ true) ⊎ (E.less b a ≡ true)

module _ (E : Env) (L : IsOrdered E) where
  -- Neither comes first.
  abbrev pub Ties : File E → File E → Type 0
  Ties a b = (comes_first E a b ≡ false) × (comes_first E b a ≡ false)

  Ties-popularity : (a b : File E) → Ties a b → a.metadata.popularity ≡ b.metadata.popularity
  unfolding comes_first
  Ties-popularity a b (h, k) =
      let p = a.metadata.popularity in
      let q = b.metadata.popularity in
      elim (Bool-cases (E.same p q)) [
        | inl e ↦ (L.same_iff p q).0 e
        | inr e ↦ elim (L.less_total p q e) [
          | inl l ↦ absurd (ground (arith, L.same_iff p q, L.same_iff q p))
          | inr l ↦ absurd (ground (arith, L.same_iff p q))
        ]
      ]

  Ties-equal :
      (a b : File E)
      → Ties a b
      → (a.metadata.popularity ≡ b.metadata.popularity)
        × (a.atime_sec ≡ b.atime_sec)
        × (a.atime_usec ≡ b.atime_usec)
  unfolding comes_first
  Ties-equal a b (h, k) =
      let p = a.metadata.popularity in
      let q = b.metadata.popularity in
      let e = Ties-popularity a b (h, k) in
      (
        e,
        ground (arith, L.same_iff p q, L.same_iff q p),
        ground (arith, L.same_iff p q, L.same_iff q p),
      )

  Ties-of_equal :
      (a b : File E)
      → a.metadata.popularity ≡ b.metadata.popularity
      → a.atime_sec ≡ b.atime_sec
      → a.atime_usec ≡ b.atime_usec
      → Ties a b
  unfolding comes_first
  Ties-of_equal a b e s u =
      let p = a.metadata.popularity in
      let q = b.metadata.popularity in
      (ground (arith, L.same_iff p q), ground (arith, L.same_iff q p))

  -- A file that comes before one that comes before a third comes before the third, and the third
  -- does not come before it.
  pub comes_first_trans :
      (a b c : File E)
      → comes_first E a b ≡ true
      → comes_first E b c ≡ true
      → (comes_first E a c ≡ true) × (comes_first E c a ≡ false)
  unfolding comes_first
  comes_first_trans a b c h k =
      let p = a.metadata.popularity in
      let q = b.metadata.popularity in
      let r = c.metadata.popularity in
      let e : comes_first E a c ≡ true = ground (
        arith,
        L.same_iff p q,
        L.same_iff q r,
        L.same_iff p r,
        L.less_trans r q p,
        L.less_trans p q r,
        L.less_irrefl p,
        L.less_irrefl q,
      ) in
      (e, ground (arith, L.same_iff p r, L.same_iff r p, L.less_trans p r p, L.less_irrefl p))

  -- Files of which neither comes first tie as a relation that is transitive: with the theorem
  -- above, the comparison is the strict weak order that `std::sort` asks for.
  pub Ties-trans : (a b c : File E) → Ties a b → Ties b c → Ties a c
  Ties-trans a b c h k =
      let (e, s, u) = Ties-equal a b h in
      let (e', s', u') = Ties-equal b c k in Ties-of_equal a c (e ∙ e') (s ∙ s') (u ∙ u')
