-- ===== src/Fuse/Names/Moving.antt =====
-- What the `rename` of a directory does to the records of the files in it.
use autotier.Base.{
  ℕ, ◌≡◌, ◌∙◌, refl, sym, ap, Text, text_eq, starts_with, starts_with-append, drop, true, false,
  Option, none, some, List, [], ◌∷◌, ◌++◌, ◌==◌, Bool-cases, Option-cases, inl, inr, arith,
}
use autotier.Env.{Env, ret, symlink_status}
use autotier.Env.Laws.{IsStore, replay}
use autotier.Metadata.{strip_slash}
use autotier.Database.{in_domain}
use autotier.Database.Order.{key_le, key_le_refl, transform_of_starts_with, latest, IsSeek}
use autotier.Tier.{Tier}
use autotier.Fuse.{Mount, M, Context, ◌>>=◌}
use autotier.Fuse.Helpers.{
  add_slash, moved_keys, update_keys_in_directory, each_of, each_tier, with_priv, with_world,
}
use autotier.Fuse.Helpers.Keys.{db_get-update_keys_in_directory}
use autotier.Fuse.Helpers.Moved.{replay-moved_into, replay-moved_away}
use autotier.Fuse.Names.{rename_directory, rename_path}
use autotier.Fuse.Names.Renaming.{Accepts, is_directory-ret}
use autotier.Fuse.Rules.{Post, Triple, Triple-bind, Triple-sys}

-- The keys of the files in a directory start with this.
abbrev pub key_of_directory : Text → Text
key_of_directory path = add_slash (strip_slash path)

in_domain-add_slash : (p : Text) → in_domain (add_slash p) ≡ true
unfolding add_slash in_domain
in_domain-add_slash [] = refl
in_domain-add_slash (c ∷ []) = ground arith
in_domain-add_slash (c ∷ d ∷ cs) = ground (arith, in_domain-add_slash (d ∷ cs))

key_le-append : (p s : Text) → key_le p (p ++ s) ≡ true
unfolding key_le
key_le-append [] s = refl
key_le-append (c ∷ p) s = ground (arith, key_le-append p s)

-- Two texts of which neither starts with the other start no text together.
starts_apart :
    (p q s : Text)
    → starts_with p q ≡ false
    → starts_with q p ≡ false
    → starts_with (p ++ s) q ≡ false
unfolding starts_with
starts_apart p [] s h k = cc
starts_apart [] (d ∷ q) s h k = cc
starts_apart (c ∷ p) (d ∷ q) s h k = ground (arith, starts_apart p q s)

-- A value, or else another.
abbrev pub or_else : Option Text → Option Text → Option Text
or_else (some a) b = some a
or_else none b = b

latest-or_else :
    (k : Text) (es : List (Text × Text)) (a b : Option Text)
    → latest k es (or_else a b) ≡ or_else (latest k es a) b
latest-or_else k [] a b = refl
latest-or_else k ((j, w) ∷ es) a b = elim (Bool-cases (text_eq j k)) [
  | inl e ↦ rw e (latest-or_else k es (some w) b)
  | inr e ↦ rw e (latest-or_else k es a b)
]

-- From one database to another, every record below `old` is at the same place below `new`, where
-- a record that was there stays if none comes, nothing is left below `old`, and all other records
-- are as they were.
pub record IsMoved (E : Env) (old new : Text) (d t : E.Db) : Type 0 where
  pub gone : (s : Text) → E.db_get t (old ++ s) ≡ none
  pub into :
      (s : Text) → E.db_get t (new ++ s) ≡ or_else (E.db_get d (old ++ s)) (E.db_get d (new ++ s))
  pub kept :
      (k : Text)
      → starts_with k old ≡ false
      → starts_with k new ≡ false
      → E.db_get t k ≡ E.db_get d k

module _ (E : Env) (L : IsStore E) (A : Accepts E) where
  -- The old directory's entries, as the iterator gives them, are what the database has for it.
  latest-group :
      (d : E.Db) (old s : Text) (k : IsSeek E d old)
      → in_domain old ≡ true
      → latest (old ++ s) k.group none ≡ E.db_get d (old ++ s)
  latest-group d old s k i =
      let (domain, same) = transform_of_starts_with old (old ++ s) i (starts_with-append old s) in
      k.get-latest (old ++ s) domain same (key_le-append old s)

  module _ (d t : E.Db) (old new : Text) (k : IsSeek E d old) (inside : in_domain old ≡ true)
      (apart : (s : Text) → starts_with (new ++ s) old ≡ false)
      (e : E.db_write d (moved_keys old new (E.db_seek d old)) ≡ some t) where
    get-write_moved :
        (j : Text) → E.db_get t j ≡ replay j (moved_keys old new (k.group ++ k.past)) (E.db_get d j)
    get-write_moved j =
        L.get-write d t (moved_keys old new (E.db_seek d old)) j e
        ∙ ap (λ es. replay j (moved_keys old new es) (E.db_get d j)) k.seek-eq

    written_gone : (s : Text) → E.db_get t (old ++ s) ≡ none
    written_gone s =
        get-write_moved (old ++ s)
        ∙ ap (replay (old ++ s) (moved_keys old new (k.group ++ k.past)))
            (sym (latest-group d old s k inside))
        ∙ replay-moved_away old inside new apart k.past k.outside s old k.group (key_le_refl old)
            k.sorted

    written_into :
        (s : Text) → E.db_get t (new ++ s) ≡ or_else (E.db_get d (old ++ s)) (E.db_get d (new ++ s))
    written_into s =
        let v = E.db_get d (new ++ s) in
        get-write_moved (new ++ s)
        ∙ replay-moved_into old inside new apart k.past k.outside s old k.group v (key_le_refl old)
            k.sorted
        ∙ latest-or_else (old ++ s) k.group none v
        ∙ ap (λ o. or_else o v) (latest-group d old s k inside)

  update_keys_in_directory-IsMoved :
      (from to : Text) (d : E.Db)
      → IsSeek E d (key_of_directory from)
      → starts_with (key_of_directory from) (key_of_directory to) ≡ false
      → starts_with (key_of_directory to) (key_of_directory from) ≡ false
      → IsMoved E
          (key_of_directory from)
          (key_of_directory to)
          d
          (update_keys_in_directory E from to d)
  unfolding update_keys_in_directory
  update_keys_in_directory-IsMoved from to d k h n =
      elim (Option-cases (E.db_write d (moved_keys old new (E.db_seek d old)))) [
        | inl e ↦ absurd (A d (moved_keys old new (E.db_seek d old)) e)
        | inr (t, e) ↦ record {
          gone = λ s. rw e (written_gone d t old new k inside apart e s);
          into = λ s. rw e (written_into d t old new k inside apart e s);
          kept = λ j p q. db_get-update_keys_in_directory E L from to j d p q;
        }
      ]
    where
      old : Text
      old = key_of_directory from

      new : Text
      new = key_of_directory to

      inside : in_domain (key_of_directory from) ≡ true
      inside = in_domain-add_slash (strip_slash from)

      apart : (s : Text) → starts_with (key_of_directory to ++ s) (key_of_directory from) ≡ false
      apart s = starts_apart (key_of_directory to) (key_of_directory from) s n h

  module _ (ctx : Context) (d : E.Db) where
    Triple-each_of :
        (ts : List Tier) (res : M E ℕ) (f : Tier → M E ℕ)
        → Triple (λ s. s.db ≡ d) res (λ _ s. s.db ≡ d) (λ s. s.db ≡ d)
        → ((t : Tier) → Triple (λ s. s.db ≡ d) (f t) (λ _ s. s.db ≡ d) (λ s. s.db ≡ d))
        → Triple (λ s. s.db ≡ d) (each_of E ts res f) (λ _ s. s.db ≡ d) (λ s. s.db ≡ d)
    unfolding each_of
    Triple-each_of [] res f r h = r
    Triple-each_of (t ∷ ts) res f r h =
        Triple-bind (h t) (λ a. Triple-each_of ts _ f (record { run = λ s e. e }) h)

    Triple-each_tier :
        (res : M E ℕ) (f : Tier → M E ℕ)
        → Triple (λ s. s.db ≡ d) res (λ _ s. s.db ≡ d) (λ s. s.db ≡ d)
        → ((t : Tier) → Triple (λ s. s.db ≡ d) (f t) (λ _ s. s.db ≡ d) (λ s. s.db ≡ d))
        → Triple (λ s. s.db ≡ d) (each_tier E res f) (λ _ s. s.db ≡ d) (λ s. s.db ≡ d)
    unfolding each_tier
    Triple-each_tier res f r h = record { run = λ s e. (Triple-each_of s.tiers res f r h).run s e }

    Triple-rename_directory :
        (from to : Text)
        → IsSeek E d (key_of_directory (drop 1 from))
        → starts_with (key_of_directory (drop 1 from)) (key_of_directory (drop 1 to)) ≡ false
        → starts_with (key_of_directory (drop 1 to)) (key_of_directory (drop 1 from)) ≡ false
        → Triple
            (λ s. s.db ≡ d)
            (rename_directory E ctx from to)
            (λ _ t.
              IsMoved E (key_of_directory (drop 1 from)) (key_of_directory (drop 1 to)) d t.db)
            (λ t. t.db ≡ d)
    Triple-rename_directory from to k h n =
        Triple-bind
          (Triple-each_tier _ _ (record { run = λ s e. e })
            (λ t. Triple-sys _ (λ s w h. h) (λ s h. h)))
          (λ res. record {
            run = λ t e. rw e (update_keys_in_directory-IsMoved (drop 1 from) (drop 1 to) d k h n);
          })

  rename_directory-IsMoved :
      (ctx : Context) (from to : Text) (s : Mount E)
      → IsSeek E s.db (key_of_directory (drop 1 from))
      → starts_with (key_of_directory (drop 1 from)) (key_of_directory (drop 1 to)) ≡ false
      → starts_with (key_of_directory (drop 1 to)) (key_of_directory (drop 1 from)) ≡ false
      → Post E
          (λ _ t.
            IsMoved E (key_of_directory (drop 1 from)) (key_of_directory (drop 1 to)) s.db t.db)
          (λ t. t.db ≡ s.db)
          (rename_directory E ctx from to s)
  rename_directory-IsMoved ctx from to s k h n =
      (Triple-rename_directory ctx s.db from to k h n).run s refl

  -- The `rename` callback, for a path that is a directory in the first tier, where its status can be
  -- read there, to none of its own and to none that it is in: it does not crash. Where it succeeds,
  -- the records of all files below it are below the new name, in place of any that were there, none
  -- is left below the old name, and no other record changes; where it fails, the database is as it
  -- was. RocksDB accepts the batch, and its iterator gives the keys of one group only.
  pub rename_path-IsMoved :
      (ctx : Context) (from to : Text) (flags : ℕ) (s : Mount E) (top : Tier) (rest : List Tier)
      (w : E.World)
      → s.tiers ≡ top ∷ rest
      → E.call (symlink_status (E.join top.path from)) s.world ≡ (ret 1, w)
      → IsSeek E s.db (key_of_directory (drop 1 from))
      → starts_with (key_of_directory (drop 1 from)) (key_of_directory (drop 1 to)) ≡ false
      → starts_with (key_of_directory (drop 1 to)) (key_of_directory (drop 1 from)) ≡ false
      → Post E
          (λ _ t.
            IsMoved E (key_of_directory (drop 1 from)) (key_of_directory (drop 1 to)) s.db t.db)
          (λ t. t.db ≡ s.db)
          (rename_path E ctx from to flags s)
  unfolding rename_path with_priv ◌>>=◌
  rename_path-IsMoved ctx from to flags s top rest w e c k h n = elim (Bool-cases ctx.has_priv) [
    | inr p ↦ rw p refl
    | inl p ↦ rw p (elim (Bool-cases (flags == 0)) [
      | inr g ↦ rw g refl
      | inl g ↦ rw g (
          rw (is_directory-ret E L A ctx from s top rest 1 w e c)
            (rename_directory-IsMoved ctx from to (with_world E s w) k h n))
    ])
  ]
