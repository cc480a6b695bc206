-- ===== src/Metadata.antt =====
-- src/incl/metadata.hpp and src/impl/autotierfs/metadata.cpp: a file's record in the database.
pub mod Store
use mathlib.Core.Option
use autotier.Base.{
  ℕ, ◌+◌, ◌%◌, ◌^◌, Text, Bool, true, false, Option, none, some, List, [], ◌∷◌, ◌++◌, ◌==◌,
  if◌then◌else◌,
}
use autotier.Env.{Env, BatchOp, delete, put}

-- `if (path[0] == '/') path = path.substr(1)`.
unfoldable pub strip_slash : Text → Text
strip_slash [] = []
strip_slash (c ∷ cs) = if c == b'/' then cs else c ∷ cs

module _ (E : Env) where
  open E use {Double, literal, times, save, load, Db, db_get, db_write}

  pub record Metadata : Type 0 where
    pub access_count : ℕ
    pub popularity : Double
    pub not_found : Bool
    pub pinned : Bool
    pub tier_path : Text

  abbrev pub multiplier : Double
  multiplier = literal 3600 0

  abbrev pub avg_usage : Double
  avg_usage = literal 238 3

  -- The values that the class gives its fields.
  abbrev pub fresh : Metadata
  fresh = record {
    access_count = 0;
    popularity = times multiplier avg_usage;
    not_found = false;
    pinned = false;
    tier_path = [];
  }

  -- `Metadata(const std::string &serialized)`.
  unfoldable pub deserialize : Text → Metadata
  deserialize str =
      let (path, count, popularity, pinned) = load str in
      record {
        access_count = count;
        popularity = popularity;
        not_found = false;
        pinned = pinned;
        tier_path = path;
      }

  unfoldable pub serialize : Metadata → Text
  serialize f = save f.tier_path f.access_count f.popularity f.pinned

  -- `Metadata(path, db, tptr)`; the third argument is the tier's path.
  unfoldable pub metadata_at : Text → Db → Option Text → Metadata
  metadata_at path db tptr = elim (db_get db (strip_slash path)) [
    | some str ↦ deserialize str
    | none ↦ elim tptr [
      | some tier ↦ record fresh { tier_path = tier }
      | none ↦ record fresh { not_found = true }
    ]
  ]

  -- The batch that `update` builds.
  unfoldable pub update_batch : Metadata → Text → Option Text → List BatchOp
  update_batch f relative_path none = put (strip_slash relative_path) (serialize f) ∷ []
  update_batch f relative_path (some old_key) =
      delete (strip_slash old_key) ∷ put (strip_slash relative_path) (serialize f) ∷ []

  -- The status of the write is not looked at.
  unfoldable pub update : Metadata → Text → Option Text → Db → Db
  update f relative_path old_key db =
      Option.get_or (db_write db (update_batch f relative_path old_key)) db

  unfoldable pub touch : Metadata → Metadata
  touch f = record f { access_count = (f.access_count + 1) % 2 ^ 64 }
