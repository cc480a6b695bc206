-- ===== src/Adhoc/Growth.antt =====
-- Jobs only add jobs at the end of the queue: what `pin_files`, `unpin_files` and the other threads
-- do to it, and how many jobs can follow from one.
use mathlib.Core.List.{append-nil, append_assoc}
use autotier.Base.{
  ℕ, suc, ◌+◌, ◌≤◌, ◌≡◌, refl, sym, ap, ◌∙◌, Text, Bool, true, false, Option, none, some, List, [],
  ◌∷◌, ◌++◌, arith, if_both,
}
use autotier.Env.{Env, Outcome, ret, fail, Stat, stat, is_halted}
use autotier.Metadata.{Metadata, metadata_at}
use autotier.Queue.{push}
use autotier.Tier.{Tier}
use autotier.Copy.{Moved, moved, copy_failed, thrown, no_fuel}
use autotier.Commands.{
  Command, AdHoc, Work, oneshot, pin, unpin, status, config, help, lpin, lpop, which_tier,
  enqueue_work, is_oneshot,
}
use autotier.Adhoc.{Service, tier_by_id, push_work}
use autotier.Adhoc.Pinning.{
  put_metadata, pin_each, go_on, pin_file, pin_files, pin_to, move_pinned, after_stat,
  after_pin_move, unpin_file, unpin_files, after_pins, pinned_as,
}
use autotier.Adhoc.Drain.{Arrival, pushed, enqueued, arrive, execute}

-- How many jobs a job can lead to, itself included: a PIN asks for a ONESHOT.
abbrev pub weight : Option Command → ℕ
weight none = 1
weight (some pin) = 2
weight (some _) = 1

unfoldable pub load : List AdHoc → ℕ
load [] = 0
load (work ∷ rest) = weight work.cmd + load rest

pub load-append : (xs ys : List AdHoc) → load (xs ++ ys) ≡ load xs + load ys
unfolding load
load-append [] ys = omega arith
load-append (x ∷ xs) ys = omega (arith, load-append xs ys)

abbrev pub jobs_of : Work → List AdHoc
jobs_of w = w.adhoc_work.queue

-- The second queue is the first with jobs of a weight of at most `n` after it.
pub record Grows (n : ℕ) (xs ys : List AdHoc) : Type 0 where
  pub more : List AdHoc
  pub added : ys ≡ xs ++ more
  pub light : load more ≤ n

pub Grows-same : (n : ℕ) (xs ys : List AdHoc) → ys ≡ xs → Grows n xs ys
unfolding load
Grows-same n xs ys e = record { more = []; added = e ∙ sym (append-nil xs); light = omega arith }

pub Grows-trans :
    (n m : ℕ) (xs ys zs : List AdHoc) → Grows n xs ys → Grows m ys zs → Grows (n + m) xs zs
Grows-trans n m xs ys zs h k = record {
  more = h.more ++ k.more;
  added = k.added ∙ ap (λ q. q ++ k.more) h.added ∙ append_assoc xs h.more k.more;
  light = omega (arith, load-append h.more k.more, h.light, k.light);
}

Grows-one : (work : AdHoc) (xs : List AdHoc) → Grows (weight work.cmd) xs (xs ++ (work ∷ []))
unfolding load
Grows-one work xs = record { more = work ∷ []; added = refl; light = omega arith }

pub enqueue_work-Grows :
    (job : Command) (args : List Text) (w : Work)
    → Grows (weight (some job)) (jobs_of w) (jobs_of (enqueue_work job args w))
unfolding enqueue_work push
enqueue_work-Grows job args w =
    if_both (λ (v : Work). Grows (weight (some job)) (jobs_of w) (jobs_of v)) (is_oneshot job)
      (if_both (λ (v : Work). Grows (weight (some job)) (jobs_of w) (jobs_of v)) w.oneshot_in_queue
        (Grows-same _ _ _ refl) (Grows-one _ _))
      (Grows-one _ _)

pub push_work-Grows :
    (work : AdHoc) (w : Work) → Grows (weight work.cmd) (jobs_of w) (jobs_of (push_work work w))
unfolding push_work push
push_work-Grows work w = Grows-one work (jobs_of w)

abbrev arrival_weight : Arrival → ℕ
arrival_weight (pushed work) = weight work.cmd
arrival_weight (enqueued job args) = weight (some job)

unfoldable pub arrivals_weight : List Arrival → ℕ
arrivals_weight [] = 0
arrivals_weight (a ∷ later) = arrival_weight a + arrivals_weight later

pub arrive-Grows :
    (now : List Arrival) (w : Work)
    → Grows (arrivals_weight now) (jobs_of w) (jobs_of (arrive now w))
unfolding arrive arrivals_weight
arrive-Grows [] w = Grows-same _ _ _ refl
arrive-Grows (pushed work ∷ later) w =
    Grows-trans _ _ _ _ _ (push_work-Grows work w) (arrive-Grows later (push_work work w))
arrive-Grows (enqueued job args ∷ later) w =
    Grows-trans _ _ _ _ _ (enqueue_work-Grows job args w)
      (arrive-Grows later (enqueue_work job args w))

module _ (E : Env) where
  open E use {World}

  after_pin_move_work :
      (r : Moved × World) (rel new : Text) (f : Metadata E) (tier : Tier) (st : Stat)
      (s : Service E)
      → (after_pin_move E rel f tier new st r s).work ≡ s.work
  unfolding after_pin_move put_metadata
  after_pin_move_work (moved c, w) rel new f tier st s = refl
  after_pin_move_work (copy_failed, w) rel new f tier st s = refl
  after_pin_move_work (thrown, w) rel new f tier st s = refl
  after_pin_move_work (no_fuel, w) rel new f tier st s = refl

  after_stat_work :
      (fuel : ℕ) (rel : Text) (f : Metadata E) (tier : Tier) (old new : Text)
      (r : Outcome Stat × World) (s : Service E)
      → (after_stat E fuel rel f tier old new r s).work ≡ s.work
  unfolding after_stat
  after_stat_work fuel rel f tier old new (fail e, w) s = refl
  after_stat_work fuel rel f tier old new (ret st, w) s = after_pin_move_work _ rel new f tier st s

  pin_file_work :
      (fuel : ℕ) (tier : Tier) (arg : Text) (s : Service E)
      → (pin_file E fuel tier arg s).1.work ≡ s.work
  unfolding pin_file move_pinned put_metadata
  pin_file_work fuel tier arg s =
      let rel = E.relative arg s.mount_point in
      let found = metadata_at E rel s.db none in
      let f = pinned_as E true found in
      let old = E.join f.tier_path rel in
      let new = E.join tier.path rel in
      if_both WorkKept found.not_found refl (
        if_both WorkKept (E.same_path old new) refl
          (after_stat_work fuel rel f tier old new (E.stat_call (stat old) s.world) s))
    where
      WorkKept : Bool × Service E → Type 0
      WorkKept r = r.1.work ≡ s.work

  WorkIs : Work → Bool × Service E → Type 0
  WorkIs w r = r.1.work ≡ w

  go_on_work :
      (next : Service E → Bool × Service E) (r : Bool × Service E) (w : Work)
      → ((s : Service E) → s.work ≡ w → WorkIs w (next s))
      → WorkIs w r
      → WorkIs w (go_on E next r)
  unfolding go_on WorkIs
  go_on_work next (true, s) w h e = h s e
  go_on_work next (false, s) w h e = e

  pin_each_work :
      (fuel : ℕ) (tier : Tier) (args : List Text) (s : Service E) (w : Work)
      → s.work ≡ w
      → WorkIs w (pin_each E fuel tier args s)
  unfolding pin_each WorkIs
  pin_each_work fuel tier [] s w e = e
  pin_each_work fuel tier (arg ∷ args) s w e = if_both (WorkIs w) (is_halted s.course) e (
      go_on_work (pin_each E fuel tier args) (pin_file E fuel tier arg s) w
        (λ t. pin_each_work fuel tier args t w) (pin_file_work fuel tier arg s ∙ e))

  unpin_files_work : (args : List Text) (s : Service E) → (unpin_files E args s).work ≡ s.work
  unfolding unpin_files unpin_file put_metadata
  unpin_files_work [] s = refl
  unpin_files_work (arg ∷ args) s =
      unpin_files_work args (unpin_file E arg s)
      ∙ if_both (λ (r : Service E). r.work ≡ s.work)
          (metadata_at E (E.relative arg s.mount_point) s.db none).not_found refl refl

  after_pins-Grows :
      (r : Bool × Service E) → Grows 1 (jobs_of r.1.work) (jobs_of (after_pins E r).work)
  after_pins-Grows (false, s) = Grows-same _ _ _ refl
  after_pins-Grows (true, s) =
      if_both (λ (r : Service E). Grows 1 (jobs_of s.work) (jobs_of r.work)) (is_halted s.course)
        (Grows-same _ _ _ refl)
        (if_both (λ (r : Service E). Grows 1 (jobs_of s.work) (jobs_of r.work)) s.strict_period
          (Grows-same _ _ _ refl) (enqueue_work-Grows oneshot [] s.work))

  pin_files-Grows :
      (fuel : ℕ) (args : List Text) (s : Service E)
      → Grows 1 (jobs_of s.work) (jobs_of (pin_files E fuel args s).work)
  unfolding pin_files pin_to WorkIs
  pin_files-Grows fuel [] s = Grows-same _ _ _ refl
  pin_files-Grows fuel (tier_id ∷ files) s = at (tier_by_id tier_id s.tiers)
    where
      at : (o : Option Tier) → Grows 1 (jobs_of s.work) (jobs_of (pin_to E fuel o files s).work)
      at none = Grows-same _ _ _ refl
      at (some tier) =
          Grows-trans 0 1 _ _ _
            (Grows-same 0 _ _ (ap jobs_of (pin_each_work fuel tier files s s.work refl)))
            (after_pins-Grows (pin_each E fuel tier files s))

  -- A job, and what it may add to the queue while it runs.
  pub execute-Grows :
      (tier : Service E → Service E)
      → ((s : Service E) → (tier s).work ≡ s.work)
      → (fuel : ℕ) (work : AdHoc) (s : Service E) (n : ℕ) → weight work.cmd ≡ suc n
      → Grows n (jobs_of s.work) (jobs_of (execute E tier fuel work s).work)
  unfolding execute
  execute-Grows tier keeps fuel work s n h = at work.cmd h
    where
      at :
          (cmd : Option Command)
          → weight cmd ≡ suc n
          → Grows n
              (jobs_of s.work)
              (jobs_of (execute E tier fuel (record { cmd = cmd; args = work.args }) s).work)
      at none h = Grows-same _ _ _ refl
      at (some oneshot) h = Grows-same _ _ _ (ap jobs_of (keeps s))
      at (some pin) h = let e : n ≡ 1 = omega arith in rw e (pin_files-Grows fuel work.args s)
      at (some unpin) h = Grows-same _ _ _ (ap jobs_of (unpin_files_work work.args s))
      at (some status) h = Grows-same _ _ _ refl
      at (some config) h = Grows-same _ _ _ refl
      at (some help) h = Grows-same _ _ _ refl
      at (some lpin) h = Grows-same _ _ _ refl
      at (some lpop) h = Grows-same _ _ _ refl
      at (some which_tier) h = Grows-same _ _ _ refl
