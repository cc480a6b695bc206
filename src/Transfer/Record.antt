-- ===== src/Transfer/Record.antt =====
-- The database says where a moved file is.
use autotier.Base.{ℕ, ◌≡◌, ◌≢◌, refl, Text, true, false, none, some}
use autotier.Env.{Env}
use autotier.Env.Laws.{IsStore}
use autotier.Metadata.{Metadata, strip_slash, metadata_at, update_batch}
use autotier.Metadata.Store.{metadata_at-update, metadata_at-update_gone}
use autotier.Tier.{Tier}
use autotier.File.{File, change_path}
use autotier.Transfer.{Batch, moved_file, transfer_to_tier, conflict_name, after_move}

module _ (E : Env) (L : IsStore E) where
  -- The metadata that the file has from now on.
  abbrev pub new_metadata : File E → Tier → Metadata E
  new_metadata f tier = record m { tier_path = tier.path; not_found = false }
    where
      open f use {metadata as m}

  -- After a move without a conflict, where RocksDB takes the write, a lookup of the file finds its
  -- metadata with the new tier.
  pub metadata_at-after_move :
      (run_path : Text) (i : ℕ) (f : File E) (j : ℕ) (tier : Tier) (new_path orig_tier : Text)
      (s : Batch E) (d : E.Db)
      → E.db_write s.db (update_batch E (moved_file E f j tier).metadata f.relative_path none)
        ≡ some d
      → metadata_at E f.relative_path
          (after_move E run_path i f j tier new_path orig_tier false s).db
          none
        ≡ new_metadata f tier
  unfolding after_move
  metadata_at-after_move run_path i f j tier new_path orig_tier s d h =
      metadata_at-update E L (moved_file E f j tier).metadata f.relative_path f.relative_path none
        none s.db d h refl

  -- After a move with a conflict, where RocksDB takes both writes, a lookup of the name of the copy
  -- finds the metadata with the new tier, and a lookup of the file's old name finds nothing.
  pub metadata_at-after_conflict :
      (run_path : Text) (i : ℕ) (f : File E) (j : ℕ) (tier : Tier) (new_path orig_tier : Text)
      (s : Batch E) (d : E.Db)
      → E.db_write (transfer_to_tier E i f j tier s).db (
          update_batch E
            (moved_file E f j tier).metadata
            (conflict_name E f orig_tier)
            (some f.relative_path))
        ≡ some d
      → strip_slash f.relative_path ≢ strip_slash (conflict_name E f orig_tier)
      → (metadata_at E
            (conflict_name E f orig_tier)
            (after_move E run_path i f j tier new_path orig_tier true s).db
            none
          ≡ new_metadata f tier)
        × ((metadata_at E f.relative_path
              (after_move E run_path i f j tier new_path orig_tier true s).db
              none).not_found
            ≡ true)
  unfolding after_move change_path
  metadata_at-after_conflict run_path i f j tier new_path orig_tier s d h n = (
    metadata_at-update E L (moved_file E f j tier).metadata (conflict_name E f orig_tier) _
        (some f.relative_path) none _ d h refl,
    metadata_at-update_gone E L (moved_file E f j tier).metadata (conflict_name E f orig_tier)
        f.relative_path _ d h n,
  )
