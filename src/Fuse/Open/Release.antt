-- ===== src/Fuse/Open/Release.antt =====
-- What `release` leaves of a descriptor.
use autotier.Base.{
  ℕ, ◌-◌, ◌≡◌, ◌⊎◌, inl, inr, refl, Text, text_eq, Option, none, some, List, [], ◌∷◌, if◌then◌else◌,
  arith,
}
use autotier.Env.{Env}
use autotier.OpenFiles.{OpenFiles}
use autotier.OpenFiles.Count.{count_of, closed, count_of-step}
use autotier.Fuse.{Mount, live, Context}
use autotier.Fuse.Table.{
  find_fd, erase_fd, fd_to_path, remove_fd_to_path, size_at_open, remove_size_at_open,
}
use autotier.Fuse.Helpers.{fullpath_to_tier}
use autotier.Fuse.Rules.{
  Post, Triple, Triple-bind, Triple-then, Triple-with_priv, Triple-size_of, Triple-check,
  Triple-sys_minus_one,
}
use autotier.Fuse.Open.{release, release_sized, forget, account}

find_fd-erase_fd :
    {V : Type 0} (fd : ℕ) (table : List (ℕ × V)) → find_fd fd (erase_fd fd table) ≡ none
unfolding find_fd erase_fd
find_fd-erase_fd fd [] = refl
find_fd-erase_fd fd ((k, v) ∷ rest) = let h = find_fd-erase_fd fd rest in ground (arith, h)

module _ (E : Env) (ctx : Context) where
  -- The path of the descriptor counts one less, no other does, and both tables forgot the
  -- descriptor.
  abbrev pub Forgotten : ℕ → Text → OpenFiles → Mount E → Type 0
  Forgotten fd p m t =
      ((q : Text)
        → count_of q t.open_files ≡ (if text_eq p q then count_of q m - 1 else count_of q m))
      × (fd_to_path fd t.fd_to_path ≡ none)
      × (size_at_open fd t.size_at_open ≡ none)

  forget-Forgotten :
      (fd : ℕ) (p : Text) (s : Mount E) → Forgotten fd p s.open_files (forget E ctx fd p s)
  unfolding forget fd_to_path size_at_open remove_fd_to_path remove_size_at_open
  forget-Forgotten fd p s = (
    (λ q. count_of-step (closed p) q s.open_files),
    find_fd-erase_fd fd s.fd_to_path,
    find_fd-erase_fd fd s.size_at_open,
  )

  account-Forgotten :
      (fd : ℕ) (p : Text) (m : OpenFiles) (i : Option ℕ) (a b : ℕ) (s : Mount E)
      → Forgotten fd p m s
      → Forgotten fd p m (account E ctx i a b s)
  unfolding account
  account-Forgotten fd p m none a b s h = h
  account-Forgotten fd p m (some i) a b s h = h

  abbrev pub Left : ℕ → Text → OpenFiles → Mount E → Type 0
  Left fd p m t = Forgotten fd p m t ⊎ (t.open_files ≡ m)

  Triple-release_sized :
      (fd : ℕ) (p : Text) (size : Option ℕ) (m : OpenFiles)
      → Triple
          (λ s. s.open_files ≡ m)
          (release_sized E ctx fd p size)
          (λ _. Forgotten fd p m)
          (Left fd p m)
  Triple-release_sized fd p none m =
      Triple-then {P = λ _. Forgotten fd p m}
        (record { run = λ s h. rw (← h) (forget-Forgotten fd p s) })
        (λ x. Triple-sys_minus_one _ (λ s w h. h) (λ s h. inl h))
  Triple-release_sized fd p (some old_size) m =
      Triple-bind (Triple-bind (Triple-size_of _ (λ s w h. h)) (λ r. Triple-check r (λ s h. inr h)))
        (λ new_size.
          Triple-then {P = λ _. Forgotten fd p m}
            (record {
              run = λ s h. rw (← h) (
                  account-Forgotten fd p s.open_files (fullpath_to_tier p s.tiers) old_size new_size
                    (forget E ctx fd p s) (forget-Forgotten fd p s));
            })
            (λ x. Triple-sys_minus_one _ (λ s w h. h) (λ s h. inl h)))

  -- `release` of a descriptor whose path is in the table does not crash. Where it returns 0, the path counts one
  -- descriptor less and both tables forgot the descriptor. Where it fails, either that also holds,
  -- or the count of open paths is untouched, as the `fstat` before it failed.
  pub release-forgets :
      (fd : ℕ) (p : Text) (s : Mount E)
      → fd_to_path fd s.fd_to_path ≡ some (live p)
      → Post E (λ _. Forgotten fd p s.open_files) (Left fd p s.open_files) (release E ctx fd s)
  unfolding release
  release-forgets fd p s e =
      (Triple-with_priv {R = λ t. t ≡ s} ctx (λ t h. inr (rw h refl))
          (record {
            run = λ t h.
                rw (h, e)
                  ((Triple-release_sized fd p (size_at_open fd s.size_at_open) s.open_files).run s
                    refl);
          })).run
        s refl
