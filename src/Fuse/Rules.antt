-- ===== src/Fuse/Rules.antt =====
-- Rules for what a callback leaves: from a condition on the mount, one condition where it returns,
-- another where it gives an error, and no crash.
use autotier.Base.{ℕ, ◌≡◌, refl, Bool-cases, inl, inr, Text, none, List, ◌∷◌}
use autotier.Env.{Env, Syscall, StatCall, Outcome, ret, fail}
use autotier.Tier.{Tier}
use autotier.Metadata.{Metadata, metadata_at}
use autotier.Fuse.{Mount, Result, ok, error, crash, M, and_then, ◌>>=◌, ◌>>◌, Context}
use autotier.Fuse.Helpers.{
  sys, sys_minus_one, or_minus_one, try_sys, size_of, try_stat, check, handled, keep_error,
  on_error, with_world, lookup_file, front_tier, with_priv,
}

module _ (E : Env) where
  abbrev pub Post :
      {A : Type 0} → (A → Mount E → Type 0) → (Mount E → Type 0) → Result A × Mount E → Type 0
  Post P Q (ok a, s) = P a s
  Post P Q (error e, s) = Q s
  Post P Q (crash, s) = ⊥

  -- A condition that does not look at the world.
  abbrev pub IsWorldless : (Mount E → Type 0) → Type 0
  IsWorldless Q = (s : Mount E) (w : E.World) → Q s → Q (with_world E s w)

module _ {E : Env} where
  pub record Triple {A : Type 0} (R : Mount E → Type 0) (m : M E A) (P : A → Mount E → Type 0)
      (Q : Mount E → Type 0) : Type 0 where
    pub run : (s : Mount E) → R s → Post E P Q (m s)

  Post-and_then :
      {A B : Type 0} (P : A → Mount E → Type 0) (R : B → Mount E → Type 0) (Q : Mount E → Type 0)
      (r : Result A × Mount E) (k : A → M E B)
      → Post E P Q r
      → ((a : A) (s : Mount E) → P a s → Post E R Q (k a s))
      → Post E R Q (and_then r k)
  Post-and_then P R Q (ok a, s) k h f = f a s h
  Post-and_then P R Q (error e, s) k h f = h
  Post-and_then P R Q (crash, s) k h f = h

  pub Triple-bind :
      {A B : Type 0} {R : Mount E → Type 0} {P : A → Mount E → Type 0} {T : B → Mount E → Type 0}
      {Q : Mount E → Type 0} {m : M E A} {k : A → M E B}
      → Triple R m P Q
      → ((a : A) → Triple (P a) (k a) T Q)
      → Triple R (m >>= k) T Q
  unfolding ◌>>=◌
  Triple-bind {P = P} {T = T} {Q = Q} {m = m} {k = k} h f = record {
    run = λ s r. Post-and_then P T Q (m s) k (h.run s r) (λ a. (f a).run);
  }

  pub Triple-then :
      {A B : Type 0} {R : Mount E → Type 0} {P : A → Mount E → Type 0} {T : B → Mount E → Type 0}
      {Q : Mount E → Type 0} {m : M E A} {k : M E B}
      → Triple R m P Q
      → ((a : A) → Triple (P a) k T Q)
      → Triple R (m >> k) T Q
  unfolding ◌>>◌
  Triple-then {P = P} {T = T} {Q = Q} {m = m} {k = k} h f = record {
    run = λ s r. Post-and_then P T Q (m s) (λ _. k) (h.run s r) (λ a. (f a).run);
  }

  Post-handled :
      {A : Type 0} (P : A → Mount E → Type 0) (Q T : Mount E → Type 0) (r : Result A × Mount E)
      (label : M E Unit)
      → Post E P Q r
      → ((t : Mount E) → Q t → Post E (λ _. T) T (label t))
      → Post E P T (handled E r label)
  Post-handled {A = A} P Q T r label h f = at r h
    where
      kept :
          (e : ℕ) (q : Result Unit × Mount E)
          → Post E (λ _. T) T q
          → Post E P T (keep_error E {A = A} e q)
      kept e (ok a, t) h = h
      kept e (error x, t) h = h
      kept e (crash, t) h = h

      at : (r : Result A × Mount E) → Post E P Q r → Post E P T (handled E r label)
      at (ok a, t) h = h
      at (error e, t) h = kept e (label t) (f t h)
      at (crash, t) h = h

  pub Triple-on_error :
      {A : Type 0} {R : Mount E → Type 0} {P : A → Mount E → Type 0} {Q T : Mount E → Type 0}
      {m : M E A} {label : M E Unit}
      → Triple R m P Q
      → Triple Q label (λ _. T) T
      → Triple R (on_error E m label) P T
  unfolding on_error
  Triple-on_error {P = P} {Q = Q} {T = T} {m = m} {label = label} h f = record {
    run = λ s r. Post-handled P Q T (m s) label (h.run s r) f.run;
  }

  pub Triple-with_priv :
      {P : ℕ → Mount E → Type 0} {R Q : Mount E → Type 0} {m : M E ℕ} (ctx : Context)
      → ((s : Mount E) → R s → Q s)
      → Triple R m P Q
      → Triple R (with_priv E ctx m) P Q
  unfolding with_priv
  Triple-with_priv ctx q h = record {
    run = λ s r. elim (Bool-cases ctx.has_priv) [ inl e ↦ rw e (h.run s r) | inr e ↦ rw e (q s r) ];
  }

  pub Triple-lookup_file :
      {P : Metadata E → Mount E → Type 0} {R Q : Mount E → Type 0} (path : Text)
      → ((s : Mount E) → R s → P (metadata_at E path s.db none) s)
      → ((s : Mount E) → R s → Q s)
      → Triple R (lookup_file E path) P Q
  unfolding lookup_file
  Triple-lookup_file path p q = record {
    run = λ s r. elim (Bool-cases (metadata_at E path s.db none).not_found) [
      | inl e ↦ rw e (q s r)
      | inr e ↦ simp e (p s r)
    ];
  }

  pub Triple-front_tier_of :
      {R Q : Mount E → Type 0} (top : Tier) (rest : List Tier)
      → Triple (λ s. (s.tiers ≡ top ∷ rest) × R s) (front_tier E) (λ t s. (t ≡ top) × R s) Q
  unfolding front_tier
  Triple-front_tier_of top rest = record { run = λ s h. simp (h.0) (refl, h.1) }

  -- A condition that is not about the mount is a hypothesis.
  pub Triple-given :
      {A : Type 0} {X : Type 0} {R : Mount E → Type 0} {P : A → Mount E → Type 0}
      {Q : Mount E → Type 0} {m : M E A}
      → (X → Triple R m P Q)
      → Triple (λ s. X × R s) m P Q
  Triple-given f = record { run = λ s h. (f h.0).run s h.1 }

  pub Triple-check :
      {A : Type 0} {R Q : Mount E → Type 0} (r : Outcome A)
      → ((s : Mount E) → R s → Q s)
      → Triple R (check E r) (λ _. R) Q
  unfolding check
  Triple-check (ret x) q = record { run = λ s h. h }
  Triple-check (fail e) q = record { run = λ s h. q s h }

  pub Triple-try_sys :
      {R Q : Mount E → Type 0} (c : Syscall) → IsWorldless E R → Triple R (try_sys E c) (λ _. R) Q
  unfolding try_sys
  Triple-try_sys c v = record { run = λ s h. v s ((E.call c s.world).1) h }

  pub Triple-sys :
      {R Q : Mount E → Type 0} (c : Syscall)
      → IsWorldless E R
      → ((s : Mount E) → R s → Q s)
      → Triple R (sys E c) (λ _. R) Q
  unfolding sys
  Triple-sys c v q = Triple-bind (Triple-try_sys c v) (λ r. Triple-check r q)

  pub Triple-sys_minus_one :
      {R Q : Mount E → Type 0} (c : Syscall)
      → IsWorldless E R
      → ((s : Mount E) → R s → Q s)
      → Triple R (sys_minus_one E c) (λ _. R) Q
  unfolding sys_minus_one or_minus_one
  Triple-sys_minus_one {R = R} {Q = Q} c v q = Triple-bind (Triple-try_sys c v) (λ r. at r)
    where
      at : (r : Outcome ℕ) → Triple R (or_minus_one E r) (λ _. R) Q
      at (ret x) = record { run = λ s h. h }
      at (fail e) = record { run = λ s h. q s h }

  pub Triple-size_of :
      {R Q : Mount E → Type 0} (c : StatCall) → IsWorldless E R → Triple R (size_of E c) (λ _. R) Q
  unfolding size_of try_stat ◌>>=◌
  Triple-size_of c v = record { run = λ s h. v s ((E.stat_call c s.world).1) h }
