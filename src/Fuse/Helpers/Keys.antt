-- ===== src/Fuse/Helpers/Keys.antt =====
-- What the renaming of a directory does to the keys of the database.
use autotier.Base.{
  ◌≡◌, ◌∙◌, refl, Text, text_eq, text_eq_iff, starts_with, starts_with-append, length, drop, Bool,
  true, false, Option, List, [], ◌∷◌, ◌++◌, Option-cases, inl, inr, if◌then◌else◌, arith,
}
use autotier.Env.{Env, BatchOp, delete, put}
use autotier.Env.Laws.{IsStore, replay}
use autotier.Metadata.{strip_slash}
use autotier.Fuse.Helpers.{add_slash, moved_keys, update_keys_in_directory}

pub not_same :
    (a k p : Text) → starts_with a p ≡ true → starts_with k p ≡ false → text_eq a k ≡ false
not_same a k p h n = ground (arith, text_eq_iff a k)

-- One entry inside of the old directory: its key goes, and the new one is in the new directory.
replay-moved_entry :
    (old new k key value : Text) (ops : List BatchOp) (v : Option Text)
    → text_eq key k ≡ false
    → text_eq (new ++ drop (length old) key) k ≡ false
    → replay k (delete key ∷ put (new ++ drop (length old) key) value ∷ ops) v ≡ replay k ops v
replay-moved_entry old new k key value ops v h n = rw (h, n) refl

replay-moved_keys :
    (old new k : Text) (entries : List (Text × Text)) (v : Option Text)
    → starts_with k old ≡ false
    → starts_with k new ≡ false
    → replay k (moved_keys old new entries) v ≡ v
unfolding moved_keys
replay-moved_keys old new k [] v h n = refl
replay-moved_keys old new k ((key, value) ∷ rest) v h n =
    at (starts_with key old) refl (replay-moved_keys old new k rest v h n)
  where
    moved : List BatchOp
    moved = delete key ∷ put (new ++ drop (length old) key) value ∷ moved_keys old new rest

    at :
        (b : Bool)
        → starts_with key old ≡ b
        → replay k (moved_keys old new rest) v ≡ v
        → replay k (if b then moved else []) v ≡ v
    at true e later =
        replay-moved_entry old new k key value (moved_keys old new rest) v (not_same key k old e h)
          (not_same (new ++ drop (length old) key) k new (starts_with-append new _) n)
        ∙ later
    at false e later = refl

module _ (E : Env) (L : IsStore E) where
  -- Renaming a directory leaves the record of every key alone that is in neither directory: one
  -- named `subdir2/x`, too, when `subdir` is renamed.
  pub db_get-update_keys_in_directory :
      (old_directory new_directory k : Text) (db : E.Db)
      → starts_with k (add_slash (strip_slash old_directory)) ≡ false
      → starts_with k (add_slash (strip_slash new_directory)) ≡ false
      → E.db_get (update_keys_in_directory E old_directory new_directory db) k ≡ E.db_get db k
  unfolding update_keys_in_directory
  db_get-update_keys_in_directory old_directory new_directory k db h n =
      let old = add_slash (strip_slash old_directory) in
      let new = add_slash (strip_slash new_directory) in
      elim (Option-cases (E.db_write db (moved_keys old new (E.db_seek db old)))) [
        | inl e ↦ rw e refl
        | inr (t, e) ↦ rw e (
            L.get-write db t _ k e
            ∙ replay-moved_keys old new k (E.db_seek db old) (E.db_get db k) h n)
      ]
