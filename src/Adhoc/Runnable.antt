-- ===== src/Adhoc/Runnable.antt =====
-- What is in the queue of jobs: only what the tiering thread can execute.
use autotier.Base.{
  ◌≡◌, refl, Text, Option, none, some, List, [], ◌∷◌, ◌++◌, All, if_both, Option-cases, inl, inr,
  ◌&&◌, not,
}
use autotier.Env.{Env}
use autotier.Queue.{push}
use autotier.Tier.{Tier}
use autotier.Commands.{
  Command, oneshot, pin, unpin, status, config, help, lpin, lpop, which_tier, AdHoc, Work,
  parse_work,
}
use autotier.Adhoc.{
  Service, Reply, tier_by_id, push_work, process_oneshot, process_pin, process_pin_to,
  process_files, process_unpin, is_nil, not_in_fs, open_args,
}
use autotier.Adhoc.Status.{process_status}
use autotier.Adhoc.Server.{dispatch, process_request, with_work}

-- A ONESHOT without arguments, a PIN to a tier that exists, or an UNPIN.
abbrev pub IsRunnableAs : List Tier → Option Command → List Text → Type 0
IsRunnableAs tiers (some oneshot) args = args ≡ []
IsRunnableAs tiers (some pin) [] = ⊥
IsRunnableAs tiers (some pin) (tier_id ∷ files) =
    (tier : Tier) × (tier_by_id tier_id tiers ≡ some tier)
IsRunnableAs tiers (some unpin) args = Unit
IsRunnableAs tiers _ args = ⊥

abbrev pub IsRunnable : List Tier → AdHoc → Type 0
IsRunnable tiers work = IsRunnableAs tiers work.cmd work.args

abbrev pub AreRunnable : List Tier → Work → Type 0
AreRunnable tiers w = All (IsRunnable tiers) w.adhoc_work.queue

All-snoc :
    (tiers : List Tier) (xs : List AdHoc) (x : AdHoc)
    → All (IsRunnable tiers) xs
    → IsRunnable tiers x
    → All (IsRunnable tiers) (xs ++ (x ∷ []))
All-snoc tiers [] x v r = (r, tt)
All-snoc tiers (y ∷ xs) x v r = (v.0, All-snoc tiers xs x v.1 r)

push_work-AreRunnable :
    (tiers : List Tier) (work : AdHoc) (w : Work)
    → AreRunnable tiers w
    → IsRunnable tiers work
    → AreRunnable tiers (push_work work w)
unfolding push_work push
push_work-AreRunnable tiers work w v r = All-snoc tiers w.adhoc_work.queue work v r

module _ (E : Env) (version : Text) (dump : Service E → Text) where
  -- What an answer leaves, if there is one.
  abbrev pub Leaves : List Tier → Option (Reply × Service E) → Type 0
  Leaves tiers none = Unit
  Leaves tiers (some (reply, t)) = (t.tiers ≡ tiers) × AreRunnable tiers t.work

  abbrev LeavesWork : List Tier → Option (Reply × Work) → Type 0
  LeavesWork tiers none = Unit
  LeavesWork tiers (some (reply, w)) = AreRunnable tiers w

  Leaves-with_work :
      (s : Service E) (r : Option (Reply × Work))
      → LeavesWork s.tiers r
      → Leaves s.tiers (with_work E version dump s r)
  Leaves-with_work s none h = tt
  Leaves-with_work s (some (reply, w)) h = (refl, h)

  process_files-LeavesWork :
      (work : AdHoc) (files : List Text) (s : Service E)
      → AreRunnable s.tiers s.work
      → IsRunnable s.tiers work
      → LeavesWork s.tiers (process_files E work files s)
  unfolding process_files
  process_files-LeavesWork work files s v r =
      if_both (LeavesWork s.tiers) (is_nil s.mount_point && not (is_nil files)) tt (
        if_both (LeavesWork s.tiers)
          (is_nil (not_in_fs s.mount_point files)
            && is_nil (open_args s.mount_point s.open_files files))
          (push_work-AreRunnable s.tiers work s.work v r) v)

  process_oneshot-AreRunnable :
      (args : List Text) (s : Service E)
      → AreRunnable s.tiers s.work
      → AreRunnable s.tiers (process_oneshot E (record { cmd = some oneshot; args = args }) s).1
  unfolding process_oneshot
  process_oneshot-AreRunnable [] s v =
      if_both (λ (r : Reply × Work). AreRunnable s.tiers r.1) s.currently_tiering v
        (push_work-AreRunnable s.tiers _ s.work v refl)
  process_oneshot-AreRunnable (arg ∷ args) s v = v

  process_pin-LeavesWork :
      (args : List Text) (s : Service E)
      → AreRunnable s.tiers s.work
      → LeavesWork s.tiers (process_pin E (record { cmd = some pin; args = args }) args s)
  unfolding process_pin process_pin_to
  process_pin-LeavesWork [] s v = tt
  process_pin-LeavesWork (tier_id ∷ files) s v = elim (Option-cases (tier_by_id tier_id s.tiers)) [
    | inl e ↦ rw e v
    | inr (tier, e) ↦ rw e (process_files-LeavesWork _ files s v (tier, e))
  ]

  dispatch-Leaves :
      (cmd : Option Command) (args : List Text) (s : Service E)
      → AreRunnable s.tiers s.work
      → Leaves s.tiers (dispatch E version dump cmd (record { cmd = cmd; args = args }) s)
  unfolding dispatch process_unpin process_status
  dispatch-Leaves (some oneshot) args s v = (refl, process_oneshot-AreRunnable args s v)
  dispatch-Leaves (some pin) args s v = Leaves-with_work s _ (process_pin-LeavesWork args s v)
  dispatch-Leaves (some unpin) args s v =
      Leaves-with_work s _ (process_files-LeavesWork _ args s v tt)
  dispatch-Leaves (some status) [] s v = tt
  dispatch-Leaves (some status) (arg ∷ args) s v = (refl, v)
  dispatch-Leaves (some config) args s v = (refl, v)
  dispatch-Leaves (some help) args s v = (refl, v)
  dispatch-Leaves (some lpin) args s v = (refl, v)
  dispatch-Leaves (some lpop) args s v = (refl, v)
  dispatch-Leaves (some which_tier) args s v = (refl, v)
  dispatch-Leaves none args s v = (refl, v)

  -- Whatever strings are received, the server keeps this of the queue: each job is a ONESHOT
  -- without arguments, a PIN to a tier that exists, or an UNPIN. So the tiering thread never meets
  -- another command, or a PIN without a tier. Requests without a defined result, such as a PIN
  -- without arguments, are left out.
  pub process_request-AreRunnable :
      (payload : List Text) (s : Service E)
      → AreRunnable s.tiers s.work
      → Leaves s.tiers (process_request E version dump payload s)
  unfolding process_request parse_work
  process_request-AreRunnable [] s v = tt
  process_request-AreRunnable (name ∷ args) s v = dispatch-Leaves _ args s v
