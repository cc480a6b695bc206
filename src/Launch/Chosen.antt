-- ===== src/Launch/Chosen.antt =====
-- What the options choose: the last of each kind counts.
use mathlib.Core.Option
use autotier.Base.{
  ℕ, ◌≡◌, ◌∙◌, refl, arith, Text, codes, Bool, true, false, Option, none, some, List, [], ◌∷◌, ◌||◌,
  if◌then◌else◌, Bool-cases, if_together, inl, inr,
}
use autotier.Launch.{
  Flag, config_file, fuse_options, help_flag, quiet, verbose, version, unknown, Options, Launch,
  shown, failed, uncaught, mounts, defaults, read_options, mount_at, looked_at, with_options,
  launch,
}

-- What an option says of each setting.
abbrev pub config_of : Flag → Option Text
config_of (config_file path) = some path
config_of _ = none

abbrev pub opts_of : Flag → Option (Option Text)
opts_of (fuse_options opts) = some (some opts)
opts_of _ = none

abbrev pub level_of : Flag → Option (Option ℕ)
level_of quiet = some (some 0)
level_of verbose = some (some 2)
level_of _ = none

abbrev pub is_help : Flag → Bool
is_help help_flag = true
is_help _ = false

abbrev pub is_version : Flag → Bool
is_version version = true
is_version _ = false

abbrev pub any : (Flag → Bool) → List Flag → Bool
any p [] = false
any p (f ∷ fs) = p f || any p fs

-- The last of the values, or the one from before.
abbrev pub last_or : {A : Type 0} → (Flag → Option A) → List Flag → A → A
last_or g [] before = before
last_or g (f ∷ fs) before = last_or g fs (Option.get_or (g f) before)

abbrev version_of : Flag → Option Bool
version_of version = some true
version_of _ = none

-- The settings that the options choose, from those before.
abbrev chosen : List Flag → Options → Options
chosen flags o = record {
  config_path = last_or config_of flags o.config_path;
  fuse_opts = last_or opts_of flags o.fuse_opts;
  log_level_override = last_or level_of flags o.log_level_override;
  print_version = last_or version_of flags o.print_version;
}

read_options-chosen :
    (flags : List Flag) (o : Options)
    → read_options flags o ≡ (if any is_help flags then none else some (chosen flags o))
unfolding read_options
read_options-chosen [] o = refl
read_options-chosen (config_file path ∷ rest) o =
    read_options-chosen rest (record o { config_path = path })
read_options-chosen (fuse_options opts ∷ rest) o =
    read_options-chosen rest (record o { fuse_opts = some opts })
read_options-chosen (help_flag ∷ rest) o = refl
read_options-chosen (verbose ∷ rest) o =
    read_options-chosen rest (record o { log_level_override = some 2 })
read_options-chosen (quiet ∷ rest) o =
    read_options-chosen rest (record o { log_level_override = some 0 })
read_options-chosen (version ∷ rest) o =
    read_options-chosen rest (record o { print_version = true })
read_options-chosen (unknown ∷ rest) o = read_options-chosen rest o

last_or-version_of :
    (flags : List Flag) (b : Bool) → last_or version_of flags b ≡ (b || any is_version flags)
last_or-version_of [] b = ground arith
last_or-version_of (version ∷ rest) b = last_or-version_of rest true ∙ ground arith
last_or-version_of (config_file path ∷ rest) b = last_or-version_of rest b
last_or-version_of (fuse_options opts ∷ rest) b = last_or-version_of rest b
last_or-version_of (help_flag ∷ rest) b = last_or-version_of rest b
last_or-version_of (verbose ∷ rest) b = last_or-version_of rest b
last_or-version_of (quiet ∷ rest) b = last_or-version_of rest b
last_or-version_of (unknown ∷ rest) b = last_or-version_of rest b

module _ (look : Text → Option Bool) where
  abbrev chosen_mount : List Flag → List Text → Launch
  chosen_mount flags [] = failed
  chosen_mount flags (mountpoint ∷ rest) = elim (look mountpoint) [
    | none ↦ uncaught
    | some false ↦ failed
    | some true ↦
        mounts (last_or config_of flags (codes "/etc/autotier.conf")) (last_or level_of flags none)
          mountpoint (last_or opts_of flags none)
  ]

  -- What is started, from the options and the first of the other arguments alone: the usage or the
  -- version if one of them is asked for; an error without a mount point, or where it is no
  -- directory; an exception where looking at it throws; and else a mount with the last
  -- configuration file, log level and mount options that were given.
  abbrev pub chosen_launch : List Flag → List Text → Launch
  chosen_launch flags args =
      if any is_help flags || any is_version flags then shown else chosen_mount flags args

  mount_at-chosen :
      (flags : List Flag) (args : List Text) (b : Bool)
      → mount_at look (record (chosen flags defaults) { print_version = b }) args
        ≡ chosen_mount flags args
  unfolding mount_at defaults
  mount_at-chosen flags [] b = refl
  mount_at-chosen flags (mountpoint ∷ rest) b = at (look mountpoint)
    where
      at :
          (found : Option Bool)
          → looked_at look (record (chosen flags defaults) { print_version = b }) mountpoint found
            ≡ (elim found [
              | none ↦ uncaught
              | some false ↦ failed
              | some true ↦
                  mounts
                    (last_or config_of flags (codes "/etc/autotier.conf"))
                    (last_or level_of flags none)
                    mountpoint
                    (last_or opts_of flags none)
            ])
      at none = refl
      at (some true) = refl
      at (some false) = refl

  -- For all options and arguments, `main` starts what they choose: `-h` and `-V` in any place show
  -- the usage or the version and nothing is mounted; of `-c`, `-o`, and `-q` and `-v`, the last one
  -- counts.
  pub launch-chosen :
      (flags : List Flag) (args : List Text) → launch look flags args ≡ chosen_launch flags args
  unfolding launch
  launch-chosen flags args =
      rw (read_options-chosen flags defaults) (elim (Bool-cases (any is_help flags)) [
        | inl e ↦ rw e
        | inr e ↦ rw e (at (any is_version flags) refl)
      ])
    where
      at :
          (b : Bool)
          → any is_version flags ≡ b
          → with_options look args (some (chosen flags defaults))
            ≡ (if b then shown else chosen_mount flags args)
      at b e =
          rw (last_or-version_of flags false, e)
            (if_together (λ (x y : Launch). x ≡ y) b refl (mount_at-chosen flags args b))
