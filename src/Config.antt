-- ===== src/Config.antt =====
-- src/impl/autotierfs/config.cpp: the settings and the tiers, from a file that the parser of lib45d
-- read. What the parser gives is a parameter; a scope is a section, or `none` for the top level.
-- Messages are left out.
pub mod Complete
pub mod Dump
use mathlib.Core.Option
use autotier.Base.{
  ℕ, ◌+◌, ◌*◌, ◌%◌, ◌^◌, Text, codes, Bool, true, false, not, ◌&&◌, ◌||◌, Option, none, some, List,
  [], ◌∷◌, ◌++◌, ◌==◌, ltb, if◌then◌else◌, starts_with,
}
use autotier.Base.Format.{decimal, endl, concat, quoted, bool_text}
use autotier.Env.{Env, Outcome, ret, fail, is_directory, create_directories, access, StatVfs}
use autotier.Logger.{bytes_with_unit}
use autotier.Regex.{Regex, eps, one_of, seq, star, chars, regex_match}
use autotier.Tier.{Tier}

-- `int` and `int64_t`: `negsuc n` is -(n + 1).
pub data ℤ : Type 0 where
  pos negsuc : ℕ → ℤ

-- `get<T>(key, default)` in a scope, `get<std::string>(key, &errors)`, which sets `errors` where it
-- has `none`, and `get_quota` for a size, by its `get()`. `sections` are the `value_`s of
-- `sub_confs_`; a guard of any other section throws `out_of_range`.
pub record Parsed : Type 0 where
  pub sections : List Text
  pub has_section : Text → Bool
  pub get_int : Option Text → Text → ℤ → ℤ
  pub get_bytes : Option Text → Text → ℕ → ℕ
  pub get_bool : Option Text → Text → Bool → Bool
  pub get_text : Option Text → Text → Text → Text
  pub find_text : Text → Text → Option Text
  pub get_quota : Text → ℕ → ℕ

-- `Config`; a `crawler_threads` of `none` was not initialised.
pub record Config : Type 0 where
  pub log_level : ℕ
  pub copy_buff_sz : ℕ
  pub tier_period_s : ℤ
  pub strict_period : Bool
  pub crawler_threads : Option ℤ
  pub run_path : Text

-- `exit(EXIT_FAILURE)`, or the settings and the tiers.
pub data Load (A : Type 0) : Type 0 where
  exited : Load A
  loaded : A → Load A

-- A log level from 0 to 2.
unfoldable pub clamp : ℤ → ℕ
clamp (pos n) = if ltb 2 n then 2 else n
clamp (negsuc n) = 0

unfoldable pub thread_count : ℤ → ℤ
thread_count (pos n) = if n == 0 then pos 8 else pos n
thread_count (negsuc n) = pos 8

-- What both branches read.
unfoldable pub common_settings : Parsed → Option Text → Option ℤ → Config
unfolding clamp
common_settings p scope threads = record {
  log_level = clamp (p.get_int scope (codes "Log Level") (pos 1));
  copy_buff_sz = p.get_bytes scope (codes "Copy Buffer Size") (1024 * 1024);
  tier_period_s = p.get_int scope (codes "Tier Period") (negsuc 0);
  strict_period = p.get_bool scope (codes "Strict Period") false;
  crawler_threads = threads;
  run_path = p.get_text scope (codes "Run Path") (codes "/var/lib/autotier");
}

unfoldable pub section_settings : Parsed → Text → Config
unfolding common_settings thread_count
section_settings p section =
    common_settings p (some section)
      (some (thread_count (p.get_int (some section) (codes "Crawler Threads") (pos 8))))

-- The section `Global`, or `global`, or the top level.
unfoldable pub global_settings : Parsed → Config
unfolding section_settings common_settings
global_settings p =
    if p.has_section (codes "Global")
    then section_settings p (codes "Global")
    else (if p.has_section (codes "global")
        then section_settings p (codes "global")
        else common_settings p none none)

abbrev space_re : Regex
space_re = star (one_of (codes " \t\n\r" ++ (11 ∷ 12 ∷ [])))

-- `"^\\s*[Gg]lobal\\s*$"`.
abbrev pub global_re : Regex
global_re = seq space_re (seq (one_of (codes "Gg")) (chars (codes "lobal") space_re))

-- The constructor of `Tier`.
unfoldable pub make_tier : Text → Text → ℕ → ℕ → Tier
make_tier id path quota capacity = record {
  quota = quota;
  capacity = capacity;
  usage = 0;
  sim_usage = 0;
  id = id;
  path = path;
  incoming_files = [];
}

unfoldable pub enough_tiers : List Tier → Bool
enough_tiers [] = false
enough_tiers (t ∷ []) = false
enough_tiers (t ∷ u ∷ ts) = true

module _ (E : Env) where
  open E use {World, join, call, statvfs}

  abbrev access_of : Outcome ℕ × World → Bool × World
  access_of (ret n, w) = (not (n == 0), w)
  access_of (fail e, w) = (true, w)

  -- From `access` on: whether there are errors. The mode is R_OK | W_OK.
  unfoldable pub check_directory : Text → Bool → World → Bool × World
  check_directory path true w = access_of (call (access path 6) w)
  check_directory path false w = (true, w)

  abbrev created : Text → Outcome ℕ × World → Bool × World
  created path (ret n, w) = check_directory path (n == 1) w
  created path (fail e, w) = (true, w)

  abbrev looked_at : Text → Bool → Outcome ℕ × World → Bool × World
  looked_at path create (fail e, w) = (true, w)
  looked_at path create (ret n, w) =
      if not (n == 1) && create
      then created path (call (create_directories path) w)
      else check_directory path (n == 1) w

  -- Whether the path is wrong, in which case `errors` is set.
  unfoldable pub validate_backend_path : Text → Bool → World → Bool × World
  unfolding check_directory
  validate_backend_path path create w =
      if starts_with path (b'/' ∷ [])
      then looked_at path create (call (is_directory path) w)
      else (true, w)

  abbrev tier_size : StatVfs → ℕ
  tier_size stats = (stats.f_blocks * stats.f_frsize) % 2 ^ 64

  -- `errors`, the tiers and the world, after a section.
  abbrev pub Sections : Type 0
  Sections = Bool × List Tier × World

  -- A tier for a section with a path. A failed `statvfs` ends the program.
  abbrev pub add_section :
      Parsed → Text → Text → Outcome StatVfs × World → List Tier → Load Sections
  add_section p name path (fail e, w) tiers = exited
  add_section p name path (ret stats, w) tiers =
      let size = tier_size stats in
      loaded (false, tiers ++ (make_tier name path (p.get_quota name size) size ∷ []), w)

  abbrev pub read_section : Parsed → Text → Option Text → Sections → Load Sections
  read_section p name none (errors, tiers, w) = loaded (true, tiers, w)
  read_section p name (some path) (true, tiers, w) = loaded (true, tiers, w)
  read_section p name (some path) (false, tiers, w) = add_section p name path (statvfs path w) tiers

  abbrev pub then_sections : Load Sections → (Sections → Load Sections) → Load Sections
  then_sections exited next = exited
  then_sections (loaded s) next = next s

  -- The loop over the sections, without the global one. Once there are errors no tier is added.
  unfoldable pub load_sections : Parsed → List Text → Sections → Load Sections
  unfolding make_tier
  load_sections p [] s = loaded s
  load_sections p (name ∷ names) s =
      if regex_match name global_re
      then load_sections p names s
      else then_sections (read_section p name (p.find_text name (codes "Path")) s)
          (load_sections p names)

  -- From the run path on.
  abbrev pub finish_load : Config → Load Sections → Load (Config × List Tier × World)
  finish_load c exited = exited
  finish_load c (loaded (errors, tiers, w)) =
      let (wrong, w') = validate_backend_path c.run_path true w in
      if errors || (wrong || not (enough_tiers tiers)) then exited else loaded (c, tiers, w')

  -- `level` is the override of the log level, `hash` the hash of the path of the file, in decimal.
  unfoldable pub load_config : Parsed → Text → Option ℕ → World → Load (Config × List Tier × World)
  unfolding global_settings load_sections enough_tiers
  load_config p hash level w =
      let c = global_settings p in
      let run_path = join c.run_path hash in
      let log_level = Option.get_or level c.log_level in
      finish_load (record c { run_path = run_path; log_level = log_level })
        (load_sections p p.sections (false, [], w))
