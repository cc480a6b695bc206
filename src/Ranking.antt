-- ===== src/Ranking.antt =====
-- `calc_popularity` and `sort` of src/impl/autotierfs/TierEngine/components/tiering.cpp: the order
-- of the files, which the simulation follows. `std::sort` is a parameter of what uses the order.
pub mod Order
use autotier.Base.{ℕ, Bool, List, map, ltb, ◌==◌, if◌then◌else◌}
use autotier.Env.{Env}
use autotier.File.{File, calc_popularity}

module _ (E : Env) where
  open E use {Double, less, same}

  -- The loop over `files_`, at one period and time.
  unfoldable pub calc_popularities : Double → ℕ → List (File E) → List (File E)
  calc_popularities period_seconds now files = map (calc_popularity E period_seconds now) files

  -- The comparison that is given to `std::sort`: whether `a` comes first.
  unfoldable pub comes_first : File E → File E → Bool
  comes_first a b =
      if same a.metadata.popularity b.metadata.popularity
      then (if a.atime_sec == b.atime_sec
          then ltb b.atime_usec a.atime_usec
          else ltb b.atime_sec a.atime_sec)
      else less b.metadata.popularity a.metadata.popularity
