-- ===== src/Adhoc/Copied.antt =====
-- A file that `pin_files` copies, and the next crawl.
use autotier.Base.{
  ℕ, ◌+◌, ◌%◌, ◌^◌, ◌≡◌, ◌≢◌, refl, sym, ap, ◌∙◌, Text, Bool, true, false, Option, none, some, [],
  if_split, Option-cases, inl, inr,
}
use autotier.Env.{Env, Stat, ret, stat}
use autotier.Env.Laws.{IsStore}
use autotier.Metadata.{Metadata, strip_slash, metadata_at, update_batch}
use autotier.Metadata.Store.{metadata_at-update}
use autotier.Tier.{Tier}
use autotier.Copy.{moved, move_file}
use autotier.Fuse.Names.Renaming.{Accepts}
use autotier.Crawl.{Found, emplace_file}
use autotier.File.{make_file}
use autotier.Adhoc.{Service}
use autotier.Adhoc.Pinning.{
  pinned_as, put_metadata, pin_file, move_pinned, after_stat, after_pin_move,
}
use autotier.Adhoc.Pinned.{pinned_to}

differ : true ≢ false
differ h = cc

module _ (E : Env) (L : IsStore E) (A : Accepts E) (tier : Tier) where
  open E use {World}

  metadata_at-put_any :
      (f : Metadata E) (path path' : Text) (tptr : Option Text) (s : Service E)
      → f.not_found ≡ false
      → strip_slash path' ≡ strip_slash path
      → metadata_at E path' (put_metadata E f path s).db tptr ≡ f
  unfolding put_metadata
  metadata_at-put_any f path path' tptr s n e =
      elim (Option-cases (E.db_write s.db (update_batch E f path none))) [
        | inl h ↦ absurd (A s.db (update_batch E f path none) h)
        | inr (t, h) ↦
            metadata_at-update E L f path path' none tptr s.db t h e
            ∙ sym (ap (λ b. record f { not_found = b }) n)
      ]

  abbrev pub record_of : Text → Service E → Metadata E
  record_of arg s = metadata_at E (E.relative arg s.mount_point) s.db none

  abbrev pub old_path_of : Text → Service E → Text
  old_path_of arg s = E.join (record_of arg s).tier_path (E.relative arg s.mount_point)

  abbrev pub new_path_of : Text → Service E → Text
  new_path_of arg s = E.join tier.path (E.relative arg s.mount_point)

  -- The file has a record, is not in the tier, and is copied to it under its own name: no file of
  -- that name was there.
  pub record Copies (fuel : ℕ) (arg : Text) (s : Service E) : Type 0 where
    pub there : (record_of arg s).not_found ≡ false
    pub elsewhere : E.same_path (old_path_of arg s) (new_path_of arg s) ≡ false
    pub info : Stat
    pub stat_world : World
    pub has_stat : E.stat_call (stat (old_path_of arg s)) s.world ≡ (ret info, stat_world)
    pub last_world : World
    pub is_moved :
        move_file E fuel (old_path_of arg s) (new_path_of arg s) s.copy_buff_sz [] stat_world
        ≡ (moved false, last_world)

  -- The rest of `pin_file` for such a file.
  move_pinned_db :
      (fuel : ℕ) (arg : Text) (s : Service E) (c : Copies fuel arg s)
      → (move_pinned E fuel
          (E.relative arg s.mount_point)
          (pinned_as E true (record_of arg s))
          tier
          (old_path_of arg s)
          (new_path_of arg s)
          s).db
        ≡ (put_metadata E
            (pinned_to E tier.path (record_of arg s))
            (E.relative arg s.mount_point)
            s).db
  unfolding move_pinned put_metadata after_stat after_pin_move
  move_pinned_db fuel arg s c = rw (c.has_stat, after_stat, c.is_moved, after_pin_move) refl

  pin_file_db :
      (fuel : ℕ) (arg : Text) (s : Service E) (c : Copies fuel arg s)
      → (pin_file E fuel tier arg s).1.db
        ≡ (put_metadata E
            (pinned_to E tier.path (record_of arg s))
            (E.relative arg s.mount_point)
            s).db
  unfolding pin_file
  pin_file_db fuel arg s c =
      if_split HasDb (record_of arg s).not_found (λ n. absurd (differ (sym n ∙ c.there)))
        (λ n.
          if_split HasDb (E.same_path (old_path_of arg s) (new_path_of arg s))
            (λ n. absurd (differ (sym n ∙ c.elsewhere))) (λ n. move_pinned_db fuel arg s c))
    where
      HasDb : Bool × Service E → Type 0
      HasDb r =
          r.1.db
          ≡ (put_metadata E (pinned_to E tier.path (record_of arg s)) (E.relative arg s.mount_point)
              s).db

  -- A file that `pin_files` copies to the tier, where no file has its name, is pinned there: where
  -- RocksDB takes the write, a
  -- lookup finds its record with the pin and the tier as its place, and a crawl of the tier that
  -- meets the file counts its size and does not list it among the files to move.
  pub emplace_file-pin_file :
      (fuel : ℕ) (arg : Text) (s : Service E) (j : ℕ) (full_path : Text) (leaf : Stat)
      (before : Found E)
      → Copies fuel arg s
      → strip_slash (E.relative full_path tier.path) ≡ strip_slash (E.relative arg s.mount_point)
      → (metadata_at E (E.relative arg s.mount_point) (pin_file E fuel tier arg s).1.db none
          ≡ pinned_to E tier.path (record_of arg s))
        × (emplace_file E (pin_file E fuel tier arg s).1.db j tier full_path leaf before
            ≡ record before { usage = (before.usage + leaf.st_size) % 2 ^ 64 })
  unfolding emplace_file make_file
  emplace_file-pin_file fuel arg s j full_path leaf before c e = (
    at _ none refl,
    if_split
        (λ files.
          record { files = files; usage = (before.usage + leaf.st_size) % 2 ^ 64 }
          ≡ record before { usage = (before.usage + leaf.st_size) % 2 ^ 64 })
        (make_file E full_path leaf (pin_file E fuel tier arg s).1.db j tier).metadata.pinned
        (λ p. refl)
        (λ p.
          absurd (differ (ap (λ (f : Metadata E). f.pinned) (sym (at _ (some tier.path) e)) ∙ p))),
  )
    where
      at :
          (path : Text) (tptr : Option Text)
          → strip_slash path ≡ strip_slash (E.relative arg s.mount_point)
          → metadata_at E path (pin_file E fuel tier arg s).1.db tptr
            ≡ pinned_to E tier.path (record_of arg s)
      at path tptr h = rw (pin_file_db fuel arg s c) (metadata_at-put_any _ _ _ tptr s c.there h)
