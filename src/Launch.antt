-- ===== src/Launch.antt =====
-- `main` of src/impl/autotierfs/autotierfs.cpp: from the options to the mount, and the arguments
-- that src/impl/autotierfs/fuseOps/fusePassthrough.cpp hands to `fuse_main`. `getopt_long` gives
-- the options, in order, and the arguments that are left. Messages are left out.
pub mod Chosen
use autotier.Base.{
  ℕ, Text, codes, Bool, true, false, Option, none, some, List, [], ◌∷◌, if◌then◌else◌,
}

-- `unknown` is one that `getopt_long` prints an error for.
pub data Flag : Type 0 where
  config_file fuse_options : Text → Flag
  help_flag quiet verbose version unknown : Flag

-- A log level of `none` is not overridden.
pub record Options : Type 0 where
  pub config_path : Text
  pub fuse_opts : Option Text
  pub log_level_override : Option ℕ
  pub print_version : Bool

-- `exit` with 0 or 1, an exception that nothing catches, or the mount.
pub data Launch : Type 0 where
  shown failed uncaught : Launch
  mounts : Text → Option ℕ → Text → Option Text → Launch

unfoldable pub defaults : Options
defaults = record {
  config_path = codes "/etc/autotier.conf";
  fuse_opts = none;
  log_level_override = none;
  print_version = false;
}

-- The switch; `-h` exits at once.
unfoldable pub read_options : List Flag → Options → Option Options
read_options [] o = some o
read_options (config_file path ∷ rest) o = read_options rest (record o { config_path = path })
read_options (fuse_options opts ∷ rest) o = read_options rest (record o { fuse_opts = some opts })
read_options (help_flag ∷ rest) o = none
read_options (verbose ∷ rest) o = read_options rest (record o { log_level_override = some 2 })
read_options (quiet ∷ rest) o = read_options rest (record o { log_level_override = some 0 })
read_options (version ∷ rest) o = read_options rest (record o { print_version = true })
read_options (unknown ∷ rest) o = read_options rest o

-- `look` is `fs::is_directory`, or `none` where it throws.
module _ (look : Text → Option Bool) where
  abbrev pub looked_at : Options → Text → Option Bool → Launch
  looked_at o mountpoint none = uncaught
  looked_at o mountpoint (some false) = failed
  looked_at o mountpoint (some true) =
      mounts o.config_path o.log_level_override mountpoint o.fuse_opts

  unfoldable pub mount_at : Options → List Text → Launch
  mount_at o [] = failed
  mount_at o (mountpoint ∷ rest) = looked_at o mountpoint (look mountpoint)

  abbrev pub with_options : List Text → Option Options → Launch
  with_options args none = shown
  with_options args (some o) = if o.print_version then shown else mount_at o args

  unfoldable pub launch : List Flag → List Text → Launch
  unfolding read_options defaults mount_at
  launch flags args = with_options args (read_options flags defaults)

-- What `mount_fs` passes to `fuse_main`.
unfoldable pub fuse_argv : Text → Option Text → List Text
fuse_argv mountpoint none = codes "autotier" ∷ mountpoint ∷ []
fuse_argv mountpoint (some opts) = codes "autotier" ∷ mountpoint ∷ codes "-o" ∷ opts ∷ []
