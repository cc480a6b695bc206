-- ===== src/Fuse/Names/Removal.antt =====
-- What `unlink` and `rename` do to the records of files.
use autotier.Base.{
  ◌≢◌, sym, ap, List, ℕ, ◌≡◌, ◌∙◌, refl, Text, text_eq_refl, true, Option, none, some, [], ◌∷◌,
  Option-cases, inl, inr,
}
use autotier.Env.{Env, delete}
use autotier.Env.Laws.{IsStore}
use autotier.Metadata.{Metadata, metadata_at, strip_slash}
use autotier.Tier.{Tier}
use autotier.Fuse.{Mount, Context}
use autotier.Fuse.Helpers.{tier_lookup}
use autotier.Fuse.Rules.{
  Post, Triple, Triple-bind, Triple-then, Triple-with_priv, Triple-lookup_file, Triple-size_of,
  Triple-check, Triple-sys,
}
use autotier.Fuse.Names.{unlink_file, delete_key, subtract_at}

module _ (E : Env) (L : IsStore E) (ctx : Context) where
  open E use {Db, db_get, db_write}

  -- The file system's paths start with a slash, so that the key is the path without it.
  metadata_at-delete :
      (path : Text) (d t : Db)
      → db_write d (delete path ∷ []) ≡ some t
      → (metadata_at E (b'/' ∷ path) t none).not_found ≡ true
  unfolding metadata_at strip_slash
  metadata_at-delete path d t h = rw (metadata_at, gone) refl
    where
      gone : db_get t path ≡ none
      gone = L.get-write d t (delete path ∷ []) path h ∙ rw (text_eq_refl path) refl

  abbrev pub Gone : Text → ℕ → Mount E → Type 0
  Gone path n t = (metadata_at E (b'/' ∷ path) t.db none).not_found ≡ true

  abbrev pub HasDb : Db → Mount E → Type 0
  HasDb d t = t.db ≡ d

  Triple-delete_key :
      (path : Text) (d : Db)
      → Triple (HasDb d) (delete_key E ctx (b'/' ∷ path)) (Gone path) (HasDb d)
  Triple-delete_key path d = record {
    run = λ s h. elim (Option-cases (db_write s.db (delete path ∷ []))) [
      | inl e ↦ rw e h
      | inr (t, e) ↦ rw e (metadata_at-delete path s.db t e)
    ];
  }

  Post-subtract_at :
      (d : Db) (i : Option ℕ) (size : ℕ) (s : Mount E)
      → i ≢ none
      → s.db ≡ d
      → Post E (λ _. HasDb d) (HasDb d) (subtract_at E ctx i size s)
  Post-subtract_at d none size s n h = absurd (n refl)
  Post-subtract_at d (some i) size s n h = h

  Triple-subtract_at :
      (d : Db) (ts : List Tier) (tier_path : Text) (size : ℕ)
      → tier_lookup E tier_path ts ≢ none
      → Triple
          (λ s. (s.db ≡ d) × (s.tiers ≡ ts))
          (λ s. subtract_at E ctx (tier_lookup E tier_path s.tiers) size s)
          (λ _. HasDb d)
          (HasDb d)
  Triple-subtract_at d ts tier_path size n = record {
    run = λ s h. Post-subtract_at d (tier_lookup E tier_path s.tiers) size s (simp (h.1) n) h.0;
  }

  Triple-unlink_file :
      (path : Text) (d : Db) (ts : List Tier)
      → tier_lookup E (metadata_at E (b'/' ∷ path) d none).tier_path ts ≢ none
      → Triple
          (λ s. (s.db ≡ d) × (s.tiers ≡ ts))
          (unlink_file E ctx (b'/' ∷ path))
          (Gone path)
          (HasDb d)
  unfolding unlink_file
  Triple-unlink_file path d ts n =
      Triple-with_priv _ (λ s h. h.0)
        (Triple-bind
          {P = λ f s. (f ≡ metadata_at E (b'/' ∷ path) d none) × (s.db ≡ d) × (s.tiers ≡ ts)}
          (Triple-lookup_file _
            (λ s h. (ap (λ e. metadata_at E (b'/' ∷ path) e none) h.0, h.0, h.1)) (λ s h. h.0))
          (λ f.
            Triple-bind
              (Triple-bind (Triple-size_of _ (λ s w h. h)) (λ r. Triple-check _ (λ s h. h.1)))
              (λ size.
                Triple-then
                  (Triple-then (subtracted f size) (λ _. Triple-sys _ (λ s w h. h) (λ s h. h)))
                  (λ _. Triple-delete_key path d))))
    where
      subtracted :
          (f : Metadata E) (size : ℕ)
          → Triple
              (λ s. (f ≡ metadata_at E (b'/' ∷ path) d none) × (s.db ≡ d) × (s.tiers ≡ ts))
              (λ s. subtract_at E ctx (tier_lookup E f.tier_path s.tiers) size s)
              (λ _. HasDb d)
              (HasDb d)
      subtracted f size = record {
        run = λ s h.
            (Triple-subtract_at d ts f.tier_path size
                (λ e. n (ap (λ (g : Metadata E). tier_lookup E g.tier_path ts) (sym h.0) ∙ e))).run
              s (h.1, h.2);
      }

  -- Where the tier that is recorded for the path is one of the engine's, an `unlink` does not
  -- crash: if it succeeds there is no record of the path any more, and if it fails every record of
  -- the database is as it was.
  pub unlink_file-record :
      (path : Text) (s : Mount E)
      → tier_lookup E (metadata_at E (b'/' ∷ path) s.db none).tier_path s.tiers ≢ none
      → Post E (Gone path) (HasDb s.db) (unlink_file E ctx (b'/' ∷ path) s)
  unlink_file-record path s n = (Triple-unlink_file path s.db s.tiers n).run s (refl, refl)
