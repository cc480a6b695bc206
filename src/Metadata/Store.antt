-- ===== src/Metadata/Store.antt =====
-- What a lookup finds after an update.
use autotier.Base.{
  ◌≡◌, ◌≢◌, ◌∙◌, refl, Text, text_eq_refl, text_eq_iff, true, false, Option, none, some, arith,
}
use autotier.Env.{Env}
use autotier.Env.Laws.{IsStore, replay}
use autotier.Metadata.{
  Metadata, strip_slash, metadata_at, update_batch, update, serialize, deserialize,
}

module _ (E : Env) (L : IsStore E) where
  open E use {Db, db_get, db_write}

  deserialize-serialize :
      (f : Metadata E) → deserialize E (serialize E f) ≡ record f { not_found = false }
  unfolding deserialize serialize
  deserialize-serialize f = rw L.load-save

  db_get-update :
      (f : Metadata E) (path k : Text) (old_key : Option Text) (d t : Db)
      → db_write d (update_batch E f path old_key) ≡ some t
      → db_get (update E f path old_key d) k ≡ replay k (update_batch E f path old_key) (db_get d k)
  unfolding update
  db_get-update f path k old_key d t h = rw h (L.get-write d t _ k h)

  replay-rename_old :
      (f : Metadata E) (path old_key : Text) (v : Option Text)
      → strip_slash old_key ≢ strip_slash path
      → replay (strip_slash old_key) (update_batch E f path (some old_key)) v ≡ none
  unfolding update_batch
  replay-rename_old f path old_key v n = ground (
    arith,
    text_eq_iff (strip_slash path) (strip_slash old_key),
    text_eq_refl (strip_slash old_key),
  )

  replay-rename_other :
      (f : Metadata E) (path old_key other : Text) (v : Option Text)
      → strip_slash other ≢ strip_slash path
      → strip_slash other ≢ strip_slash old_key
      → replay (strip_slash other) (update_batch E f path (some old_key)) v ≡ v
  unfolding update_batch
  replay-rename_other f path old_key other v n m = ground (
    arith,
    text_eq_iff (strip_slash path) (strip_slash other),
    text_eq_iff (strip_slash old_key) (strip_slash other),
  )

  db_get-update_self :
      (f : Metadata E) (path : Text) (old_key : Option Text) (d t : Db)
      → db_write d (update_batch E f path old_key) ≡ some t
      → db_get (update E f path old_key d) (strip_slash path) ≡ some (serialize E f)
  unfolding update_batch
  db_get-update_self f path none d t h =
      db_get-update f path (strip_slash path) none d t h
      ∙ ground (arith, text_eq_refl (strip_slash path))
  db_get-update_self f path (some o) d t h =
      db_get-update f path (strip_slash path) (some o) d t h
      ∙ ground (arith, text_eq_refl (strip_slash path))

  -- After a write that RocksDB accepts, a lookup of the path, with or without its leading slash,
  -- finds the metadata as it was, whichever old key is given, also the path itself.
  pub metadata_at-update :
      (f : Metadata E) (path path' : Text) (old_key tptr : Option Text) (d t : Db)
      → db_write d (update_batch E f path old_key) ≡ some t
      → strip_slash path' ≡ strip_slash path
      → metadata_at E path' (update E f path old_key d) tptr ≡ record f { not_found = false }
  unfolding metadata_at
  metadata_at-update f path path' old_key tptr d t h e =
      rw (metadata_at, e, db_get-update_self f path old_key d t h) (deserialize-serialize f)

  pub metadata_at-update_gone :
      (f : Metadata E) (path old_key : Text) (d t : Db)
      → db_write d (update_batch E f path (some old_key)) ≡ some t
      → strip_slash old_key ≢ strip_slash path
      → (metadata_at E old_key (update E f path (some old_key) d) none).not_found ≡ true
  unfolding metadata_at
  metadata_at-update_gone f path old_key d t h n = rw (metadata_at, gone) refl
    where
      gone : db_get (update E f path (some old_key) d) (strip_slash old_key) ≡ none
      gone =
          db_get-update f path (strip_slash old_key) (some old_key) d t h
          ∙ replay-rename_old f path old_key _ n

  -- A rename in the database: after `update` with an old key of another name, a lookup of the old
  -- name finds nothing, and a lookup of any third name finds what it found before.
  pub metadata_at-update_old :
      (f : Metadata E) (path old_key other : Text) (tptr : Option Text) (d t : Db)
      → db_write d (update_batch E f path (some old_key)) ≡ some t
      → strip_slash old_key ≢ strip_slash path
      → strip_slash other ≢ strip_slash path
      → strip_slash other ≢ strip_slash old_key
      → ((metadata_at E old_key (update E f path (some old_key) d) none).not_found ≡ true)
        × (metadata_at E other (update E f path (some old_key) d) tptr ≡ metadata_at E other d tptr)
  unfolding metadata_at
  metadata_at-update_old f path old_key other tptr d t h n1 n2 n3 =
      (metadata_at-update_gone f path old_key d t h n1, rw (metadata_at, kept) refl)
    where
      kept :
          db_get (update E f path (some old_key) d) (strip_slash other)
          ≡ db_get d (strip_slash other)
      kept =
          db_get-update f path (strip_slash other) (some old_key) d t h
          ∙ replay-rename_other f path old_key other _ n2 n3

  -- `update` without an old key changes what a lookup finds under that path only.
  pub metadata_at-update_other :
      (f : Metadata E) (path other : Text) (tptr : Option Text) (d t : Db)
      → db_write d (update_batch E f path none) ≡ some t
      → strip_slash other ≢ strip_slash path
      → metadata_at E other (update E f path none d) tptr ≡ metadata_at E other d tptr
  unfolding metadata_at update_batch
  metadata_at-update_other f path other tptr d t h n = rw (metadata_at, kept) refl
    where
      kept : db_get (update E f path none d) (strip_slash other) ≡ db_get d (strip_slash other)
      kept =
          db_get-update f path (strip_slash other) none d t h
          ∙ ground (arith, text_eq_iff (strip_slash path) (strip_slash other))

  pub metadata_at_key :
      (path path' : Text) (d : Db) (tptr : Option Text)
      → strip_slash path' ≡ strip_slash path
      → metadata_at E path' d tptr ≡ metadata_at E path d tptr
  unfolding metadata_at
  metadata_at_key path path' d tptr e = rw (metadata_at, e) refl
