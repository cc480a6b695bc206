-- ===== src/Fuse/Data/Retry.antt =====
-- A `write` that finds the tier full waits for tiering and tries again.
use autotier.Base.{
  ℕ, zero, suc, ◌<◌, ◌≡◌, ◌≢◌, ◌⊎◌, ◌==◌, ap, ◌∙◌, refl, Bool, true, false, some, List, [], arith,
  inl, inr, Bool-cases, if_both,
}
use autotier.Env.{Env, Outcome, ret, fail}
use autotier.Fuse.{Mount, Result, ok, error, Context}
use autotier.Commands.{oneshot, enqueue_work}
use autotier.Fuse.Helpers.{with_world}
use autotier.Fuse.Data.{write_at, settle, after_pwrite, done, again, ask_tiering, enospc}

-- What a write returns: the count, or the error.
abbrev pub answer : Outcome ℕ → Result ℕ
answer (ret n) = ok n
answer (fail e) = error e

-- There is nothing to wait for: the tier has space, or the period is strict.
abbrev pub IsFinal : Bool → Outcome ℕ → Type 0
IsFinal strict r = (r ≢ fail enospc) ⊎ (strict ≡ true)

module _ (E : Env) (ctx : Context) (others : Mount E → Mount E) (fd : ℕ) (bytes : List ℕ)
    (offset : ℕ) where
  abbrev attempt : Mount E → Outcome ℕ × E.World
  attempt s = E.pwrite fd bytes offset s.world

  -- The mount after a write that found no space, with tiering asked for.
  abbrev pub asking : Mount E → E.World → Mount E
  asking s w = record s { world = w; work = enqueue_work oneshot [] s.work }

  -- The write finds no space `n` times, asks for tiering each time, and the rest of the program
  -- runs in between; then it is in the second mount.
  pub data Waits : ℕ → Mount E → Mount E → Type 0 where
    at_once : (s : Mount E) → Waits 0 s s
    full :
        (n : ℕ) (s t : Mount E) (w : E.World)
        → attempt s ≡ (fail enospc, w)
        → s.strict_period ≡ false
        → Waits n (others (asking s w)) t
        → Waits (suc n) s t

  write_at-last :
      (fuel : ℕ) (t : Mount E) (r : Outcome ℕ) (v : E.World) (x : Result ℕ)
      → attempt t ≡ (r, v)
      → after_pwrite E ctx others t.strict_period r ≡ done x
      → write_at E ctx others (suc fuel) fd bytes offset t ≡ (some x, with_world E t v)
  unfolding write_at settle
  write_at-last fuel t r v x e h = rw (e, h) refl

  after_pwrite-full : ctx.has_priv ≡ true → after_pwrite E ctx others false (fail enospc) ≡ again
  unfolding after_pwrite
  after_pwrite-full h = rw h refl

  write_at-full :
      (fuel : ℕ) (s : Mount E) (w : E.World)
      → ctx.has_priv ≡ true
      → attempt s ≡ (fail enospc, w)
      → s.strict_period ≡ false
      → write_at E ctx others (suc fuel) fd bytes offset s
        ≡ write_at E ctx others fuel fd bytes offset (others (asking s w))
  unfolding write_at settle ask_tiering
  write_at-full fuel s w p e h = rw (e, h, after_pwrite-full p) refl

  after_pwrite-IsFinal :
      (strict : Bool) (r : Outcome ℕ)
      → IsFinal strict r
      → after_pwrite E ctx others strict r ≡ done (answer r)
  unfolding after_pwrite
  after_pwrite-IsFinal strict (ret n) h = refl
  after_pwrite-IsFinal strict (fail e) h = elim (Bool-cases (e == enospc)) [
    | inl same ↦ elim h [
      | inl n ↦ absurd (n (ap fail (let k : e ≡ enospc = ground arith in k)))
      | inr strictly ↦
          rw (same, strictly) (if_both (λ a. a ≡ done (answer (fail e))) ctx.has_priv refl refl)
    ]
    | inr other ↦ rw other refl
  ]

  -- A write that waits for space any number of times, asking for tiering each time, and then finds
  -- the tier with space, or the period strict, returns what that last attempt gives: the count, or
  -- the error, whichever it is. It takes one attempt more than it waited as fuel.
  pub write_at-Waits :
      (n : ℕ) (s t : Mount E) (fuel : ℕ) (r : Outcome ℕ) (v : E.World)
      → ctx.has_priv ≡ true
      → Waits n s t
      → n < fuel
      → attempt t ≡ (r, v)
      → IsFinal t.strict_period r
      → write_at E ctx others fuel fd bytes offset s ≡ (some (answer r), with_world E t v)
  write_at-Waits n s t zero r v p h l e k = absurd (omega arith)
  write_at-Waits zero s t (suc fuel) r v p (at_once _) l e k =
      write_at-last fuel t r v (answer r) e (after_pwrite-IsFinal t.strict_period r k)
  write_at-Waits (suc n) s t (suc fuel) r v p (full _ _ _ w f q h) l e k =
      write_at-full fuel s w p f q ∙ write_at-Waits n _ t fuel r v p h (omega arith) e k
