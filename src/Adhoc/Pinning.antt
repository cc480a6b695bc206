-- ===== src/Adhoc/Pinning.antt =====
-- `pin_files` and `unpin_files` of
-- src/impl/autotierfs/TierEngine/components/adhoc.cpp, which the tiering thread runs. The fuel is
-- that of the copying loop.
use autotier.Base.{
  ℕ, ◌/◌, Text, Bool, true, false, Option, none, some, List, [], ◌∷◌, if◌then◌else◌,
}
use autotier.Env.{Env, Outcome, ret, fail, stat, utimes, Stat, threw, copying, is_halted}
use autotier.Metadata.{Metadata, metadata_at, update}
use autotier.Tier.{Tier}
use autotier.Commands.{oneshot, enqueue_work}
use autotier.Copy.{Moved, moved, copy_failed, thrown, no_fuel, move_file}
use autotier.Adhoc.{Service, tier_by_id}

module _ (E : Env) where
  open E use {World, relative, join, same_path, call, stat_call}

  unfoldable pub put_metadata : Metadata E → Text → Service E → Service E
  put_metadata f relative_path s = record s { db = update E f relative_path none s.db }

  abbrev pub pinned_as : Bool → Metadata E → Metadata E
  pinned_as pinned f = record f { pinned = pinned }

  abbrev times_of : Stat → List ℕ
  times_of st =
      st.st_atim_sec ∷ st.st_atim_nsec / 1000 ∷ st.st_mtim_sec ∷ st.st_mtim_nsec / 1000 ∷ []

  -- What follows `move_file`, which is called without `conflicted` and with an empty `orig_tier`.
  unfoldable pub after_pin_move :
      Text → Metadata E → Tier → Text → Stat → Moved × World → Service E → Service E
  unfolding put_metadata
  after_pin_move relative_path f tier new_path st (moved conflicted, w) s =
      let w' = (call (utimes new_path (times_of st)) w).1 in
      put_metadata (record f { tier_path = tier.path }) relative_path (record s { world = w' })
  after_pin_move relative_path f tier new_path st (copy_failed, w) s = record s { world = w }
  after_pin_move relative_path f tier new_path st (thrown, w) s = record s {
    world = w;
    course = threw;
  }
  after_pin_move relative_path f tier new_path st (no_fuel, w) s = record s {
    world = w;
    course = copying;
  }

  -- What follows `stat`.
  unfoldable pub after_stat :
      ℕ → Text → Metadata E → Tier → Text → Text → Outcome Stat × World → Service E → Service E
  unfolding after_pin_move
  after_stat fuel relative_path f tier old_path new_path (fail e, w) s = record s { world = w }
  after_stat fuel relative_path f tier old_path new_path (ret st, w) s =
      after_pin_move relative_path f tier new_path st
        (move_file E fuel old_path new_path s.copy_buff_sz [] w) s

  unfoldable pub move_pinned : ℕ → Text → Metadata E → Tier → Text → Text → Service E → Service E
  unfolding after_stat
  move_pinned fuel relative_path f tier old_path new_path s =
      after_stat fuel relative_path f tier old_path new_path (stat_call (stat old_path) s.world) s

  -- The body of the loop of `pin_files`. `true` goes on with the next file; `false` is `return`.
  unfoldable pub pin_file : ℕ → Tier → Text → Service E → Bool × Service E
  unfolding move_pinned
  pin_file fuel tier mounted_path s =
      let relative_path = relative mounted_path s.mount_point in
      let found = metadata_at E relative_path s.db none in
      let f = pinned_as true found in
      let old_path = join f.tier_path relative_path in
      let new_path = join tier.path relative_path in
      if found.not_found
      then (true, s)
      else (if same_path old_path new_path
          then (false, put_metadata f relative_path s)
          else (true, move_pinned fuel relative_path f tier old_path new_path s))

  -- The loop: whether it came to its end. After an exception, or in a copy that has not ended, nothing more is done.
  unfoldable pub go_on : (Service E → Bool × Service E) → Bool × Service E → Bool × Service E
  go_on next (true, s) = next s
  go_on next (false, s) = (false, s)

  unfoldable pub pin_each : ℕ → Tier → List Text → Service E → Bool × Service E
  unfolding pin_file go_on
  pin_each fuel tier [] s = (true, s)
  pin_each fuel tier (arg ∷ args) s =
      if is_halted s.course
      then (false, s)
      else go_on (pin_each fuel tier args) (pin_file fuel tier arg s)

  abbrev pub ask_oneshot : Service E → Service E
  ask_oneshot s =
      if is_halted s.course
      then s
      else (if s.strict_period then s else record s { work = enqueue_work oneshot [] s.work })

  abbrev pub after_pins : Bool × Service E → Service E
  after_pins (true, s) = ask_oneshot s
  after_pins (false, s) = s

  unfoldable pub pin_to : ℕ → Option Tier → List Text → Service E → Service E
  unfolding pin_each
  pin_to fuel none files s = s
  pin_to fuel (some tier) files s = after_pins (pin_each fuel tier files s)

  -- `args.front()` of no arguments has no defined result.
  unfoldable pub pin_files : ℕ → List Text → Service E → Service E
  unfolding pin_to
  pin_files fuel [] s = record s { course = threw }
  pin_files fuel (tier_id ∷ files) s = pin_to fuel (tier_by_id tier_id s.tiers) files s

  unfoldable pub unpin_file : Text → Service E → Service E
  unfolding put_metadata
  unpin_file mounted_path s =
      let relative_path = relative mounted_path s.mount_point in
      let found = metadata_at E relative_path s.db none in
      if found.not_found then s else put_metadata (pinned_as false found) relative_path s

  unfoldable pub unpin_files : List Text → Service E → Service E
  unfolding unpin_file
  unpin_files [] s = s
  unpin_files (arg ∷ args) s = unpin_files args (unpin_file arg s)
