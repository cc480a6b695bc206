-- ===== src/Fuse/Names/Renaming.antt =====
-- What `rename`, of src/impl/autotierfs/fuseOps/rename.cpp, does to the record of a regular file.
use autotier.Base.{
  ℕ, ◌≡◌, ◌≢◌, ◌==◌, ◌∷◌, refl, Text, true, false, none, some, List, Bool-cases, Option-cases, inl,
  inr,
}
use autotier.Tier.{Tier}
use autotier.Env.{Env, BatchOp, ret, symlink_status}
use autotier.Env.Laws.{IsStore}
use autotier.Metadata.{Metadata, metadata_at, strip_slash, update, update_batch}
use autotier.Metadata.Store.{metadata_at-update, metadata_at-update_gone}
use autotier.Fuse.{Mount, Context, ok, ◌>>=◌}
use autotier.Fuse.Helpers.{is_directory, front_tier, try_sys, is_one, with_priv, with_world}
use autotier.Fuse.Rules.{Post, Triple, Triple-bind, Triple-lookup_file, Triple-sys}
use autotier.Fuse.Names.{rename_regular, rename_path}

-- RocksDB accepts the batches that are written.
abbrev pub Accepts : Env → Type 0
Accepts E = (d : E.Db) (ops : List BatchOp) → E.db_write d ops ≢ none

module _ (E : Env) (L : IsStore E) (A : Accepts E) (ctx : Context) where
  -- The record of `to` is `f`, and `from` has none.
  abbrev pub Renamed : Text → Text → Metadata E → ℕ → Mount E → Type 0
  Renamed from to f n t =
      (metadata_at E to t.db none ≡ record f { not_found = false })
      × ((metadata_at E from t.db none).not_found ≡ true)

  renamed_record :
      (from to : Text) (f : Metadata E) (d : E.Db)
      → strip_slash from ≢ strip_slash to
      → (metadata_at E to (update E f to (some from) d) none ≡ record f { not_found = false })
        × ((metadata_at E from (update E f to (some from) d) none).not_found ≡ true)
  renamed_record from to f d n =
      elim (Option-cases (E.db_write d (update_batch E f to (some from)))) [
        | inl e ↦ absurd (A d (update_batch E f to (some from)) e)
        | inr (t, e) ↦ (
          metadata_at-update E L f to to (some from) none d t e refl,
          metadata_at-update_gone E L f to from d t e n,
        )
      ]

  Triple-rename_regular :
      (from to : Text) (d : E.Db)
      → strip_slash from ≢ strip_slash to
      → Triple
          (λ s. s.db ≡ d)
          (rename_regular E ctx from to)
          (Renamed from to (metadata_at E from d none))
          (λ s. s.db ≡ d)
  Triple-rename_regular from to d n =
      Triple-bind {P = λ f s. (f ≡ metadata_at E from d none) × (s.db ≡ d)}
        (Triple-lookup_file _ (λ s h. (rw h refl, h)) (λ s h. h))
        (λ f. Triple-bind (Triple-sys _ (λ s w h. h) (λ s h. h.1)) (λ res. record {
          run = λ s h. rw (h.0, h.1) (renamed_record from to (metadata_at E from d none) d n);
        }))

  rename_regular-record :
      (from to : Text) (s : Mount E)
      → strip_slash from ≢ strip_slash to
      → Post E
          (Renamed from to (metadata_at E from s.db none))
          (λ t. t.db ≡ s.db)
          (rename_regular E ctx from to s)
  rename_regular-record from to s n = (Triple-rename_regular from to s.db n).run s refl

  -- What `is_directory` gives where the first tier's status can be read.
  pub is_directory-ret :
      (path : Text) (s : Mount E) (top : Tier) (rest : List Tier) (n : ℕ) (w : E.World)
      → s.tiers ≡ top ∷ rest
      → E.call (symlink_status (E.join top.path path)) s.world ≡ (ret n, w)
      → is_directory E path s ≡ (ok (n == 1), with_world E s w)
  unfolding is_directory front_tier try_sys is_one ◌>>=◌
  is_directory-ret path s top rest n w e c = rw e (rw (c, is_one) refl)

  -- The `rename` callback, for a path that is no directory in the first tier, where its status can
  -- be read there, and another name: it does not crash. Where it succeeds, the new name has the
  -- record of the old one (tier, popularity, count and pin) and the old name has none; where it
  -- fails, the database is as it was. RocksDB accepts the batch.
  pub rename_path-record :
      (from to : Text) (flags : ℕ) (s : Mount E) (top : Tier) (rest : List Tier) (w : E.World)
      → s.tiers ≡ top ∷ rest
      → E.call (symlink_status (E.join top.path from)) s.world ≡ (ret 0, w)
      → strip_slash from ≢ strip_slash to
      → Post E
          (Renamed from to (metadata_at E from s.db none))
          (λ t. t.db ≡ s.db)
          (rename_path E ctx from to flags s)
  unfolding rename_path with_priv ◌>>=◌
  rename_path-record from to flags s top rest w e c n = elim (Bool-cases ctx.has_priv) [
    | inr h ↦ rw h refl
    | inl h ↦ rw h (elim (Bool-cases (flags == 0)) [
      | inr g ↦ rw g refl
      | inl g ↦ rw g (
          rw (is_directory-ret from s top rest 0 w e c)
            (rename_regular-record from to (with_world E s w) n))
    ])
  ]
