-- ===== src/Adhoc.antt =====
-- src/impl/autotierfs/TierEngine/components/adhoc.cpp: what the tier engine keeps for ad hoc
-- commands, and what the socket server does with a request for work. A reply is the list of
-- strings that is sent; whether sending it fails changes nothing. Where the source has no defined
-- result, or an exception that nothing catches, the model has `none`.
pub mod Pinning
pub mod Drain
pub mod Growth
pub mod Returning
pub mod Progress
pub mod Unpinned
pub mod Pinned
pub mod Copied
pub mod Requests
pub mod Listing
pub mod Status
pub mod Server
pub mod Round
pub mod Runnable
pub mod Arriving
use autotier.Base.{
  ℕ, ◌-◌, Text, text_eq, codes, Bool, true, false, Option, none, some, List, [], ◌∷◌, ◌++◌,
  if◌then◌else◌, ◌&&◌, not, starts_with, length, drop,
}
use autotier.Base.Format.{spaced, quoted}
use autotier.Env.{Env, Course}
use autotier.Tier.{Tier}
use autotier.OpenFiles.{OpenFiles, is_open}
use autotier.Queue.{push}
use autotier.Commands.{AdHoc, Work}

-- The members of `TierEngine` that ad hoc commands use. `course` is how far the
-- tiering thread is: its job or round may be in a copy that has not ended.
pub record Service (E : Env) : Type 0 where
  pub tiers : List Tier
  pub db : E.Db
  pub open_files : OpenFiles
  pub work : Work
  pub mount_point : Text
  pub run_path : Text
  pub strict_period : Bool
  pub copy_buff_sz : ℕ
  pub currently_tiering : Bool
  pub world : E.World
  pub course : Course

-- `tier_lookup` of an id.
unfoldable pub tier_by_id : Text → List Tier → Option Tier
tier_by_id id [] = none
tier_by_id id (t ∷ ts) = let later = tier_by_id id ts in if text_eq t.id id then some t else later

abbrev pub Reply : Type 0
Reply = List Text

abbrev pub err : Text → Reply
err msg = codes "ERR" ∷ msg ∷ []

abbrev pub work_queued : Reply
work_queued = codes "OK" ∷ codes "Work queued." ∷ []

-- `adhoc_work_.push(work)`.
unfoldable pub push_work : AdHoc → Work → Work
push_work work w = record w { adhoc_work = push work w.adhoc_work }

abbrev pub is_nil : {A : Type 0} → List A → Bool
is_nil [] = true
is_nil (x ∷ xs) = false

-- The files that the loop of `process_pin_unpin` rejects: outside of the mount point, and open.
unfoldable pub not_in_fs : Text → List Text → List Text
not_in_fs mount_point [] = []
not_in_fs mount_point (arg ∷ args) =
    let later = not_in_fs mount_point args in
    if starts_with arg mount_point then later else arg ∷ later

-- `arg.substr(mount_point_.string().length() - 1)`.
abbrev pub tested_path : Text → Text → Text
tested_path mount_point arg = drop (length mount_point - 1) arg

unfoldable pub open_args : Text → OpenFiles → List Text → List Text
open_args mount_point open_files [] = []
open_args mount_point open_files (arg ∷ args) =
    let later = open_args mount_point open_files args in
    if starts_with arg mount_point
    then (if is_open (tested_path mount_point arg) open_files then arg ∷ later else later)
    else later

abbrev offenders : Text → List Text → Reply
offenders msg [] = []
offenders msg (f ∷ fs) = (msg ++ spaced (f ∷ fs)) ∷ []

module _ (E : Env) where
  unfoldable pub process_oneshot : AdHoc → Service E → Reply × Work
  process_oneshot work s =
      if is_nil work.args
      then (if s.currently_tiering
          then (err (codes "autotier already tiering."), s.work)
          else (work_queued, push_work work s.work))
      else (
        err (codes "autotier oneshot takes no arguments. Offender(s):" ++ spaced work.args),
        s.work,
      )

  -- The loop over `files`, and what follows it. An empty mount point makes `substr` throw.
  unfoldable pub process_files : AdHoc → List Text → Service E → Option (Reply × Work)
  process_files work files s =
      let outside = not_in_fs s.mount_point files in
      let in_use = open_args s.mount_point s.open_files files in
      if is_nil s.mount_point && not (is_nil files)
      then none
      else (if is_nil outside && is_nil in_use
          then some (work_queued, push_work work s.work)
          else some (
            codes "ERR\n"
                ∷ (offenders (codes "Files are not in autotier filesystem:") outside
                    ++ offenders (codes "Files are currently open by another process:") in_use),
            s.work,
          ))

  unfoldable pub process_pin_to :
      Option Tier → AdHoc → Text → List Text → Service E → Option (Reply × Work)
  unfolding process_files
  process_pin_to none work tier_id files s =
      some (err (codes "Tier does not exist: " ++ quoted tier_id), s.work)
  process_pin_to (some tier) work tier_id files s = process_files work files s

  unfoldable pub process_pin : AdHoc → List Text → Service E → Option (Reply × Work)
  unfolding process_pin_to
  process_pin work [] s = none
  process_pin work (tier_id ∷ files) s =
      process_pin_to (tier_by_id tier_id s.tiers) work tier_id files s

  unfoldable pub process_unpin : AdHoc → Service E → Option (Reply × Work)
  unfolding process_files
  process_unpin work s = process_files work work.args s
