-- ===== src/Adhoc/Pinned.antt =====
-- What `pin_files` does to the database.
use autotier.Base.{
  ℕ, ◌≡◌, refl, sym, Text, text_eq, eq_of_text_eq, Bool, true, false, none, some, List, [], ◌∷◌,
  if_both, if_split,
}
use autotier.Env.{Env, Outcome, ret, fail, Stat, stat, is_halted}
use autotier.Env.Laws.{IsStore}
use autotier.Metadata.{Metadata, strip_slash, metadata_at}
use autotier.Metadata.Store.{metadata_at_key}
use autotier.Tier.{Tier}
use autotier.Copy.{Moved, moved, copy_failed, thrown, no_fuel}
use autotier.Fuse.Names.Renaming.{Accepts}
use autotier.Adhoc.{Service, tier_by_id}
use autotier.Adhoc.Pinning.{
  pinned_as, put_metadata, pin_file, pin_each, pin_to, pin_files, go_on, move_pinned, after_stat,
  after_pin_move, after_pins,
}
use autotier.Adhoc.Unpinned.{metadata_at-put}

module _ (E : Env) where
  -- The record of a file from before that is pinned, where it is or at a tier.
  abbrev pub pinned_to : Text → Metadata E → Metadata E
  pinned_to tier_path f = record f { pinned = true; tier_path = tier_path }

  -- What pinning files to a tier may do to a record.
  pub data IsPinOf (tier_path : Text) : Metadata E → Metadata E → Type 0 where
    untouched : {f : Metadata E} → IsPinOf tier_path f f
    in_place : {f : Metadata E} → f.not_found ≡ false → IsPinOf tier_path f (pinned_as E true f)
    at_tier : {f : Metadata E} → f.not_found ≡ false → IsPinOf tier_path f (pinned_to tier_path f)

  IsPinOf-trans :
      {tier_path : Text} {f g h : Metadata E}
      → IsPinOf tier_path f g
      → IsPinOf tier_path g h
      → IsPinOf tier_path f h
  IsPinOf-trans untouched k = k
  IsPinOf-trans (in_place n) untouched = in_place n
  IsPinOf-trans (in_place n) (in_place m) = in_place n
  IsPinOf-trans (in_place n) (at_tier m) = at_tier n
  IsPinOf-trans (at_tier n) untouched = at_tier n
  IsPinOf-trans (at_tier n) (in_place m) = at_tier n
  IsPinOf-trans (at_tier n) (at_tier m) = at_tier n

module _ (E : Env) (L : IsStore E) (A : Accepts E) (tier : Tier) where
  open E use {World}

  -- What a lookup of a path finds in one state and in another.
  abbrev PinStep : Text → Service E → Service E → Type 0
  PinStep path s t =
      IsPinOf E tier.path (metadata_at E path s.db none) (metadata_at E path t.db none)

  put-PinStep :
      (f : Metadata E) (rel path : Text) (s : Service E)
      → f.not_found ≡ false
      → IsPinOf E tier.path (metadata_at E rel s.db none) f
      → PinStep path s (put_metadata E f rel s)
  put-PinStep f rel path s n h = rw (metadata_at-put E L A f rel path s n) (
      if_split (IsPinOf E tier.path (metadata_at E path s.db none))
        (text_eq (strip_slash rel) (strip_slash path))
        (λ e. rw (metadata_at_key E L rel path s.db none (sym (eq_of_text_eq _ _ e))) h)
        (λ e. untouched))

  after_pin_move-PinStep :
      (r : Moved × World) (rel path new : Text) (st : Stat) (s : Service E)
      → (metadata_at E rel s.db none).not_found ≡ false
      → PinStep path s
          (after_pin_move E rel (pinned_as E true (metadata_at E rel s.db none)) tier new st r s)
  unfolding after_pin_move put_metadata
  after_pin_move-PinStep (moved c, w) rel path new st s n =
      put-PinStep (pinned_to E tier.path (metadata_at E rel s.db none)) rel path s n (at_tier n)
  after_pin_move-PinStep (copy_failed, w) rel path new st s n = untouched
  after_pin_move-PinStep (thrown, w) rel path new st s n = untouched
  after_pin_move-PinStep (no_fuel, w) rel path new st s n = untouched

  after_stat-PinStep :
      (fuel : ℕ) (r : Outcome Stat × World) (rel path old new : Text) (s : Service E)
      → (metadata_at E rel s.db none).not_found ≡ false
      → PinStep path s
          (after_stat E fuel rel (pinned_as E true (metadata_at E rel s.db none)) tier old new r s)
  unfolding after_stat
  after_stat-PinStep fuel (fail e, w) rel path old new s n = untouched
  after_stat-PinStep fuel (ret st, w) rel path old new s n =
      after_pin_move-PinStep _ rel path new st s n

  pin_file-PinStep :
      (fuel : ℕ) (arg path : Text) (s : Service E) → PinStep path s (pin_file E fuel tier arg s).1
  unfolding pin_file move_pinned
  pin_file-PinStep fuel arg path s =
      if_split (λ (r : Bool × Service E). PinStep path s r.1) found.not_found (λ n. untouched)
        (λ n.
          if_both (λ (r : Bool × Service E). PinStep path s r.1)
            (E.same_path (E.join found.tier_path rel) (E.join tier.path rel))
            (put-PinStep (pinned_as E true found) rel path s n (in_place n))
            (after_stat-PinStep fuel (E.stat_call (stat (E.join found.tier_path rel)) s.world) rel
              path _ _ s n))
    where
      rel : Text
      rel = E.relative arg s.mount_point

      found : Metadata E
      found = metadata_at E rel s.db none

  go_on-PinStep :
      (next : Service E → Bool × Service E) (r : Bool × Service E) (path : Text) (s : Service E)
      → ((t : Service E) → PinStep path t (next t).1)
      → PinStep path s r.1
      → PinStep path s (go_on E next r).1
  unfolding go_on
  go_on-PinStep next (true, t) path s h k = IsPinOf-trans E k (h t)
  go_on-PinStep next (false, t) path s h k = k

  pin_each-PinStep :
      (fuel : ℕ) (args : List Text) (path : Text) (s : Service E)
      → PinStep path s (pin_each E fuel tier args s).1
  unfolding pin_each
  pin_each-PinStep fuel [] path s = untouched
  pin_each-PinStep fuel (arg ∷ args) path s =
      if_both (λ (r : Bool × Service E). PinStep path s r.1) (is_halted s.course) untouched
        (go_on-PinStep (pin_each E fuel tier args) (pin_file E fuel tier arg s) path s
          (λ t. pin_each-PinStep fuel args path t) (pin_file-PinStep fuel arg path s))

  after_pins_db : (r : Bool × Service E) → (after_pins E r).db ≡ r.1.db
  after_pins_db (false, s) = refl
  after_pins_db (true, s) =
      if_both (λ (t : Service E). t.db ≡ s.db) (is_halted s.course) refl
        (if_both (λ (t : Service E). t.db ≡ s.db) s.strict_period refl refl)

  -- Where RocksDB takes the writes, `pin_files` to a tier leaves the record of every path as it
  -- was, or pins it where it is, or pins it with the tier as its place, whatever fails: popularity
  -- and access count stay, no pin is lost, and no record appears or goes.
  pub pin_files-IsPinOf :
      (fuel : ℕ) (tier_id : Text) (files : List Text) (path : Text) (s : Service E)
      → tier_by_id tier_id s.tiers ≡ some tier
      → IsPinOf E tier.path
          (metadata_at E path s.db none)
          (metadata_at E path (pin_files E fuel (tier_id ∷ files) s).db none)
  unfolding pin_files pin_to
  pin_files-IsPinOf fuel tier_id files path s e =
      rw (e, after_pins_db (pin_each E fuel tier files s)) (pin_each-PinStep fuel files path s)
