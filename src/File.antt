-- ===== src/File.antt =====
-- src/incl/file.hpp, src/impl/autotierfs/file.cpp and src/incl/popularityCalc.hpp: a file that was
-- found in a tier, with its metadata. A tier pointer is an index into the engine's tiers. Times
-- are seconds and microseconds after the epoch.
use autotier.Base.{ℕ, ◌/◌, Text, none, some, ◌==◌, if◌then◌else◌, ◌||◌}
use autotier.Env.{Env, Stat}
use autotier.Metadata.{Metadata, metadata_at, update}
use autotier.Tier.{Tier}

module _ (E : Env) where
  open E use {
    Double, of_count, of_difference, literal, plus, minus, times, over, least, less, same, relative,
    join, Db,
  }

  pub record File : Type 0 where
    pub size : ℕ
    pub tier_ptr : ℕ
    pub atime_sec : ℕ
    pub atime_usec : ℕ
    pub mtime_sec : ℕ
    pub mtime_usec : ℕ
    pub ctime : ℕ
    pub relative_path : Text
    pub metadata : Metadata E

  -- `File(full_path, db, tptr)`, with what `lstat` returned.
  unfoldable pub make_file : Text → Stat → Db → ℕ → Tier → File
  make_file full_path info db tptr tier = record {
    size = info.st_size;
    tier_ptr = tptr;
    atime_sec = info.st_atim_sec;
    atime_usec = info.st_atim_nsec / 1000;
    mtime_sec = info.st_mtim_sec;
    mtime_usec = info.st_mtim_nsec / 1000;
    ctime = info.st_ctim_sec;
    relative_path = relative full_path tier.path;
    metadata = metadata_at E (relative full_path tier.path) db (some tier.path);
  }

  abbrev start_damping : Double
  start_damping = literal 50000 0

  abbrev damping_full : Double
  damping_full = literal 1000000 0

  -- 7.0 * (24.0 * (60.0 * 60.0)), one week in seconds.
  abbrev week : Double
  week = times (literal 7 0) (times (literal 24 0) (times (literal 60 0) (literal 60 0)))

  abbrev slope : Double
  slope = over (minus damping_full start_damping) (times (literal 1 0) week)

  -- What `calc_popularity` makes of the old popularity, where `age` is `time(NULL) - ctime_`.
  unfoldable pub next_popularity : Double → ℕ → Double → Double → Double
  next_popularity period_seconds access_count age popularity =
      let usage_frequency =
        (if access_count == 0 then literal 0 0 else over (of_count access_count) period_seconds) in
      let average_period_age = plus age (over period_seconds (literal 2 0)) in
      let damping =
        over (least (plus (times average_period_age slope) start_damping) damping_full)
          period_seconds in
      plus (over (times (literal 3600 0) usage_frequency) damping)
        (times (minus (literal 1 0) (over (literal 1 0) damping)) popularity)

  -- `period_seconds <= 0.0` returns at once.
  unfoldable pub calc_popularity : Double → ℕ → File → File
  calc_popularity period_seconds now f =
      if less period_seconds (literal 0 0) || same period_seconds (literal 0 0)
      then f
      else record f {
        metadata = record metadata {
          popularity =
              next_popularity period_seconds metadata.access_count (of_difference now f.ctime)
                metadata.popularity;
          access_count = 0;
        };
      }
    where
      open f use {metadata}

  unfoldable pub full_path : Tier → File → Text
  full_path tier f = join tier.path f.relative_path

  unfoldable pub update_db : File → Db → Db
  update_db f db = update E f.metadata f.relative_path none db

  unfoldable pub change_path : Text → File → Db → File × Db
  change_path new_path f db = (
    record f { relative_path = new_path },
    update E f.metadata new_path (some f.relative_path) db,
  )
