-- ===== src/Fuse/Open/Count.antt =====
-- The callbacks against the table of open paths: what `create` registers, `release` takes back.
use autotier.Base.{ℕ, ◌+◌, ◌≡◌, refl, Text, text_eq, List, ◌∷◌, if◌then◌else◌, arith}
use autotier.Env.{Env}
use autotier.Tier.{Tier}
use autotier.OpenFiles.{OpenFiles, register_open_file, release_open_file}
use autotier.OpenFiles.Count.{count_of, opened, closed, count_of-step}
use autotier.Fuse.{Mount, Context}
use autotier.Fuse.Rules.{
  Post, IsWorldless, Triple, Triple-bind, Triple-then, Triple-given, Triple-on_error,
  Triple-with_priv, Triple-front_tier_of, Triple-sys,
}
use autotier.Fuse.Open.{
  create_path, create_registered, register, unregister, become_caller, become_self,
}

module _ (E : Env) (ctx : Context) where
  -- The table counts as `m` does, and as `m` with `p` opened once more.
  abbrev pub CountsAs : OpenFiles → Mount E → Type 0
  CountsAs m s = (q : Text) → count_of q s.open_files ≡ count_of q m

  abbrev pub CountsMore : Text → OpenFiles → Mount E → Type 0
  CountsMore p m s =
      (q : Text)
      → count_of q s.open_files ≡ (if text_eq p q then count_of q m + 1 else count_of q m)

  CountsMore-register :
      (p : Text) (m : OpenFiles) (s : Mount E)
      → CountsAs m s
      → CountsMore p m (record s { open_files = register_open_file p s.open_files })
  CountsMore-register p m s h q = ground (arith, count_of-step (opened p) q s.open_files, h q)

  CountsAs-unregister :
      (p : Text) (m : OpenFiles) (s : Mount E)
      → CountsMore p m s
      → CountsAs m (record s { open_files = release_open_file p s.open_files })
  CountsAs-unregister p m s h q = ground (arith, count_of-step (closed p) q s.open_files, h q)

  Triple-become_caller :
      {R Q : Mount E → Type 0}
      → IsWorldless E R
      → ((s : Mount E) → R s → Q s)
      → Triple R (become_caller E ctx) (λ _. R) Q
  Triple-become_caller v q = Triple-then (Triple-sys _ v q) (λ n. Triple-sys _ v q)

  Triple-become_self :
      {R Q : Mount E → Type 0}
      → IsWorldless E R
      → ((s : Mount E) → R s → Q s)
      → Triple R (become_self E ctx) (λ _. R) Q
  Triple-become_self v q = Triple-then (Triple-sys _ v q) (λ n. Triple-sys _ v q)

  Triple-unregister :
      (p : Text) (m : OpenFiles)
      → Triple (CountsMore p m) (unregister E ctx p) (λ _. CountsAs m) (CountsAs m)
  Triple-unregister p m = record { run = λ s h. CountsAs-unregister p m s h }

  Triple-register :
      (p : Text) (m : OpenFiles)
      → Triple (CountsAs m) (register E ctx p) (λ _. CountsMore p m) (CountsAs m)
  Triple-register p m = record { run = λ s h. CountsMore-register p m s h }

  Triple-create_registered :
      (path fullpath : Text) (mode : ℕ) (top : Tier) (m : OpenFiles)
      → Triple
          (CountsMore fullpath m)
          (create_registered E ctx path fullpath mode top)
          (λ _. CountsMore fullpath m)
          (CountsMore fullpath m)
  Triple-create_registered path fullpath mode top m =
      Triple-bind {P = λ _. CountsMore fullpath m} (Triple-sys _ (λ s w h. h) (λ s h. h)) (λ fd.
        Triple-then
          (Triple-then
            (Triple-then
              (Triple-then {P = λ _. CountsMore fullpath m} (record { run = λ s h. h })
                (λ x. record { run = λ s h. h }))
              (λ x. record { run = λ s h. h }))
            (λ x. Triple-become_self (λ s w h. h) (λ s h. h)))
          (λ x. record { run = λ s h. h }))

  Triple-create_path :
      (path : Text) (mode : ℕ) (top : Tier) (rest : List Tier) (m : OpenFiles)
      → Triple
          (λ s. (s.tiers ≡ top ∷ rest) × CountsAs m s)
          (create_path E ctx path mode)
          (λ _. CountsMore (E.join top.path path) m)
          (CountsAs m)
  unfolding create_path
  Triple-create_path path mode top rest m =
      Triple-with_priv _ (λ s h. h.1)
        (Triple-bind (Triple-front_tier_of top rest) (λ t. Triple-given (λ e. rw e (
          Triple-on_error
            (Triple-then
              (Triple-then {P = λ _. CountsAs m} (Triple-become_caller (λ s w h. h) (λ s h. h))
                (λ n. Triple-register (E.join top.path path) m))
              (λ x.
                Triple-on_error (Triple-create_registered path (E.join top.path path) mode top m)
                  (Triple-unregister (E.join top.path path) m)))
            (record { run = λ s h. h })))))

  -- With a tier to create it in, `create` does not crash. If it succeeds it counts one more
  -- descriptor for the path in the top tier; if it fails, at any of its calls, it leaves every
  -- count as it was.
  pub create_path-count :
      (path : Text) (mode : ℕ) (s : Mount E) (top : Tier) (rest : List Tier)
      → s.tiers ≡ top ∷ rest
      → Post E
          (λ _. CountsMore (E.join top.path path) s.open_files)
          (CountsAs s.open_files)
          (create_path E ctx path mode s)
  create_path-count path mode s top rest e =
      (Triple-create_path path mode top rest s.open_files).run s (e, λ q. refl)
