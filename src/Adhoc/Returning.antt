-- ===== src/Adhoc/Returning.antt =====
-- Jobs that come back, in `execute_queued_work` of
-- src/impl/autotierfs/TierEngine/components/adhoc.cpp: every copy of theirs ends.
use autotier.Base.{ℕ, ◌≢◌, Text, Bool, true, false, Option, none, some, List, [], ◌∷◌, if_both}
use autotier.Env.{Env, Outcome, ret, fail, Stat, stat, copying, is_halted}
use autotier.Metadata.{Metadata, metadata_at}
use autotier.Tier.{Tier}
use autotier.Copy.{Moved, moved, copy_failed, thrown, no_fuel, CopiesEnd}
use autotier.Commands.{
  Command, oneshot, pin, unpin, status, config, help, lpin, lpop, which_tier, AdHoc,
}
use autotier.Adhoc.{Service, tier_by_id}
use autotier.Adhoc.Pinning.{
  put_metadata, pinned_as, after_pin_move, after_stat, move_pinned, pin_file, go_on, pin_each,
  after_pins, pin_to, pin_files, unpin_file, unpin_files,
}
use autotier.Adhoc.Drain.{execute}

module _ (E : Env) where
  open E use {World}

  -- The thread is not in a copy.
  abbrev pub IsBack : Service E → Type 0
  IsBack s = s.course ≢ copying

  after_pin_move-IsBack :
      (r : Moved × World) (rel new : Text) (f : Metadata E) (tier : Tier) (st : Stat)
      (s : Service E)
      → r.0 ≢ no_fuel
      → IsBack s
      → IsBack (after_pin_move E rel f tier new st r s)
  unfolding after_pin_move put_metadata
  after_pin_move-IsBack (moved c, w) rel new f tier st s n b = b
  after_pin_move-IsBack (copy_failed, w) rel new f tier st s n b = b
  after_pin_move-IsBack (thrown, w) rel new f tier st s n b = λ e. cc
  after_pin_move-IsBack (no_fuel, w) rel new f tier st s n b = absurd (n (λ i. no_fuel))

  abbrev BothBack : Bool × Service E → Type 0
  BothBack r = IsBack r.1

  module _ (fuel : ℕ) (ends : CopiesEnd E fuel) where
    after_stat-IsBack :
        (rel : Text) (f : Metadata E) (tier : Tier) (old new : Text) (r : Outcome Stat × World)
        (s : Service E)
        → IsBack s
        → IsBack (after_stat E fuel rel f tier old new r s)
    unfolding after_stat CopiesEnd
    after_stat-IsBack rel f tier old new (fail e, w) s b = b
    after_stat-IsBack rel f tier old new (ret st, w) s b =
        after_pin_move-IsBack _ rel new f tier st s (ends old new s.copy_buff_sz [] w) b

    pin_file-IsBack :
        (tier : Tier) (arg : Text) (s : Service E)
        → IsBack s
        → IsBack (pin_file E fuel tier arg s).1
    unfolding pin_file move_pinned put_metadata
    pin_file-IsBack tier arg s b =
        let rel = E.relative arg s.mount_point in
        let found = metadata_at E rel s.db none in
        let f = pinned_as E true found in
        let old = E.join f.tier_path rel in
        let new = E.join tier.path rel in
        if_both BothBack found.not_found b (
          if_both BothBack (E.same_path old new) b
            (after_stat-IsBack rel f tier old new (E.stat_call (stat old) s.world) s b))

    go_on-IsBack :
        (next : Service E → Bool × Service E) (r : Bool × Service E)
        → ((s : Service E) → IsBack s → BothBack (next s))
        → BothBack r
        → BothBack (go_on E next r)
    unfolding go_on
    go_on-IsBack next (true, s) h b = h s b
    go_on-IsBack next (false, s) h b = b

    pin_each-IsBack :
        (tier : Tier) (args : List Text) (s : Service E)
        → IsBack s
        → BothBack (pin_each E fuel tier args s)
    unfolding pin_each
    pin_each-IsBack tier [] s b = b
    pin_each-IsBack tier (arg ∷ args) s b = if_both BothBack (is_halted s.course) b (
        go_on-IsBack (pin_each E fuel tier args) (pin_file E fuel tier arg s)
          (pin_each-IsBack tier args) (pin_file-IsBack tier arg s b))

    after_pins-IsBack : (r : Bool × Service E) → BothBack r → IsBack (after_pins E r)
    after_pins-IsBack (false, s) b = b
    after_pins-IsBack (true, s) b =
        if_both (λ (r : Service E). IsBack r) (is_halted s.course) b
          (if_both (λ (r : Service E). IsBack r) s.strict_period b b)

    pin_files-IsBack :
        (args : List Text) (s : Service E) → IsBack s → IsBack (pin_files E fuel args s)
    unfolding pin_files pin_to
    pin_files-IsBack [] s b = λ e. cc
    pin_files-IsBack (tier_id ∷ files) s b = at (tier_by_id tier_id s.tiers)
      where
        at : (o : Option Tier) → IsBack (pin_to E fuel o files s)
        at none = b
        at (some tier) =
            after_pins-IsBack (pin_each E fuel tier files s) (pin_each-IsBack tier files s b)

  unpin_files-IsBack : (args : List Text) (s : Service E) → IsBack s → IsBack (unpin_files E args s)
  unfolding unpin_files unpin_file put_metadata
  unpin_files-IsBack [] s b = b
  unpin_files-IsBack (arg ∷ args) s b = unpin_files-IsBack args (unpin_file E arg s) (
      if_both (λ (r : Service E). IsBack r)
        (metadata_at E (E.relative arg s.mount_point) s.db none).not_found b b)

  -- A job comes back if the rounds of tiering and all copies do.
  pub execute-IsBack :
      (tier : Service E → Service E) (fuel : ℕ)
      → ((s : Service E) → IsBack (tier s))
      → CopiesEnd E fuel
      → (work : AdHoc) (s : Service E) → IsBack s
      → IsBack (execute E tier fuel work s)
  unfolding execute
  execute-IsBack tier fuel rounds ends work s b = at work.cmd
    where
      at :
          (cmd : Option Command)
          → IsBack (execute E tier fuel (record { cmd = cmd; args = work.args }) s)
      at none = b
      at (some oneshot) = rounds s
      at (some pin) = pin_files-IsBack fuel ends work.args s b
      at (some unpin) = unpin_files-IsBack work.args s b
      at (some status) = b
      at (some config) = b
      at (some help) = b
      at (some lpin) = b
      at (some lpop) = b
      at (some which_tier) = b
