-- ===== src/Database.antt =====
-- src/incl/rocksDbHelpers.hpp and src/impl/autotierfs/TierEngine/components/database.cpp: how the
-- database groups its keys, and how it is opened. What `rocksdb::DB::Open` does is a parameter.
pub mod Order
use autotier.Base.{
  Text, codes, Bool, true, false, ◌||◌, Option, none, some, [], ◌∷◌, ◌==◌, if◌then◌else◌,
}
use autotier.Env.{Env}

-- `Transform`: the text before the first slash, or all of it. These are the bytes that the slice
-- points to while the temporary string lives, from which it is made.
unfoldable pub transform : Text → Text
transform [] = []
transform (c ∷ cs) = if c == b'/' then [] else c ∷ transform cs

-- `InDomain`: there is a slash.
unfoldable pub in_domain : Text → Bool
in_domain [] = false
in_domain (c ∷ cs) = c == b'/' || in_domain cs

-- `open` is `DB::Open` with the options of `open_db`: the database, or a status that is not ok.
module _ (E : Env) (open_at : Text → E.World → Option E.Db × E.World) where
  open E use {Db, World, join}

  -- `none` is the end of the program.
  unfoldable pub open_db : Text → World → Option Db × World
  open_db run_path w = open_at (join run_path (codes "db")) w

  -- `db_` is opened at its first use.
  unfoldable pub get_db : Option Db → Text → World → Option Db × World
  unfolding open_db
  get_db (some db) run_path w = (some db, w)
  get_db none run_path w = open_db run_path w
