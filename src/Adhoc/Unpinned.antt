-- ===== src/Adhoc/Unpinned.antt =====
-- What `unpin_files` does to the database.
use autotier.Base.{
  ◌≡◌, ◌≢◌, refl, sym, ap, ◌∙◌, Text, text_eq, text_eq_iff, eq_of_text_eq, Bool, true, false, none,
  List, [], ◌∷◌, ◌||◌, if◌then◌else◌, if_both, if_split, Bool-cases, Option-cases, inl, inr, arith,
}
use autotier.Env.{Env}
use autotier.Env.Laws.{IsStore}
use autotier.Metadata.{Metadata, strip_slash, metadata_at, update_batch}
use autotier.Metadata.Store.{metadata_at-update, metadata_at-update_other, metadata_at_key}
use autotier.Fuse.Names.Renaming.{Accepts}
use autotier.Adhoc.{Service}
use autotier.Adhoc.Pinning.{pinned_as, put_metadata, unpin_file, unpin_files}

if_same :
    {A : Type 0} (b : Bool) {x x' : A} (y : A)
    → (b ≡ true → x ≡ x')
    → (if b then x else y) ≡ (if b then x' else y)
if_same true y h = h refl
if_same false y h = refl

differ : (a b : Text) → text_eq a b ≡ false → a ≢ b
differ a b h e = ground (arith, text_eq_iff a b)

module _ (E : Env) where
  -- The record of a file that is not pinned any more.
  abbrev pub unpinned_record : Metadata E → Metadata E
  unpinned_record f = if f.not_found then f else pinned_as E false f

  -- Whether one of the arguments, paths under the mount point, names the file.
  abbrev pub names : Text → Text → Text → Bool
  names mount_point path arg = text_eq (strip_slash (E.relative arg mount_point)) (strip_slash path)

  abbrev pub any_names : Text → Text → List Text → Bool
  any_names mount_point path [] = false
  any_names mount_point path (arg ∷ args) =
      names mount_point path arg || any_names mount_point path args

module _ (E : Env) (L : IsStore E) (A : Accepts E) where
  -- What a lookup finds after a record was put.
  pub metadata_at-put :
      (f : Metadata E) (path other : Text) (s : Service E)
      → f.not_found ≡ false
      → metadata_at E other (put_metadata E f path s).db none ≡ (
          if text_eq (strip_slash path) (strip_slash other)
          then f
          else metadata_at E other s.db none)
  unfolding put_metadata
  metadata_at-put f path other s n =
      elim (Option-cases (E.db_write s.db (update_batch E f path none))) [
        | inl e ↦ absurd (A s.db (update_batch E f path none) e)
        | inr (t, h) ↦ elim (Bool-cases (text_eq (strip_slash path) (strip_slash other))) [
          | inl e ↦ rw e (
              metadata_at-update E L f path other none none s.db t h (sym (eq_of_text_eq _ _ e))
              ∙ sym (ap (λ b. record f { not_found = b }) n))
          | inr e ↦
              rw e (
                metadata_at-update_other E L f path other none s.db t h (λ q. differ _ _ e (sym q)))
        ]
      ]

  metadata_at-unpin_file :
      (arg path : Text) (s : Service E)
      → metadata_at E path (unpin_file E arg s).db none ≡ (
          if names E s.mount_point path arg
          then unpinned_record E (metadata_at E path s.db none)
          else metadata_at E path s.db none)
  unfolding unpin_file
  metadata_at-unpin_file arg path s =
      if_split (λ (t : Service E). metadata_at E path t.db none ≡ result) found.not_found
        (λ n.
          if_split (λ f. metadata_at E path s.db none ≡ f) named
            (λ e. same e ∙ sym (unpinned_missing n) ∙ sym (ap (unpinned_record E) (same e)))
            (λ e. refl))
        (λ n.
          metadata_at-put (pinned_as E false found) rel path s n
          ∙ if_same named _ (λ e. sym (unpinned_there n) ∙ sym (ap (unpinned_record E) (same e))))
    where
      rel : Text
      rel = E.relative arg s.mount_point

      found : Metadata E
      found = metadata_at E rel s.db none

      named : Bool
      named = names E s.mount_point path arg

      result : Metadata E
      result =
          if named
          then unpinned_record E (metadata_at E path s.db none)
          else metadata_at E path s.db none

      same : named ≡ true → metadata_at E path s.db none ≡ found
      same e = metadata_at_key E L rel path s.db none (sym (eq_of_text_eq _ _ e))

      unpinned_missing : found.not_found ≡ true → unpinned_record E found ≡ found
      unpinned_missing n = rw n refl

      unpinned_there : found.not_found ≡ false → unpinned_record E found ≡ pinned_as E false found
      unpinned_there n = rw n refl

  unpin_file_mount_point :
      (arg : Text) (s : Service E) → (unpin_file E arg s).mount_point ≡ s.mount_point
  unfolding unpin_file put_metadata
  unpin_file_mount_point arg s =
      if_both (λ (t : Service E). t.mount_point ≡ s.mount_point)
        (metadata_at E (E.relative arg s.mount_point) s.db none).not_found refl refl

  unpinned_twice :
      (a b : Bool) (f : Metadata E)
      → (if b
          then unpinned_record E (if a then unpinned_record E f else f)
          else (if a then unpinned_record E f else f))
        ≡ (if a || b then unpinned_record E f else f)
  unpinned_twice false b f = refl
  unpinned_twice true false f = refl
  unpinned_twice true true f = at f.not_found refl
    where
      at :
          (b : Bool)
          → f.not_found ≡ b
          → unpinned_record E (unpinned_record E f) ≡ unpinned_record E f
      at true e = rw e refl
      at false e = rw e refl

  -- Where RocksDB takes the writes, a lookup after `unpin_files` finds the record that it found
  -- before, with the pin cleared if there was a record and one of the arguments names the file:
  -- tier, popularity and access count stay, and files that no argument names keep their pin.
  pub metadata_at-unpin_files :
      (args : List Text) (path : Text) (s : Service E)
      → metadata_at E path (unpin_files E args s).db none ≡ (
          if any_names E s.mount_point path args
          then unpinned_record E (metadata_at E path s.db none)
          else metadata_at E path s.db none)
  unfolding unpin_files
  metadata_at-unpin_files [] path s = refl
  metadata_at-unpin_files (arg ∷ args) path s =
      metadata_at-unpin_files args path (unpin_file E arg s)
      ∙ rw (unpin_file_mount_point arg s, metadata_at-unpin_file arg path s)
          (unpinned_twice (names E s.mount_point path arg) (any_names E s.mount_point path args)
            (metadata_at E path s.db none))
