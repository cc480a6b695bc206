-- ===== src/Adhoc/Progress.antt =====
-- The loop of `execute_queued_work` ends, and runs every job that is queued.
use mathlib.Core.List.{append_assoc}
use autotier.Base.{
  ℕ, zero, suc, ◌+◌, ◌<◌, ◌≡◌, ◌≢◌, refl, sym, ap, ◌∙◌, Bool, Option, none, some, List, [], ◌∷◌,
  ◌++◌, arith, ◌⊎◌, inl, inr,
}
use autotier.Env.{Env, Course, going_on, threw, copying}
use autotier.Queue.{pop}
use autotier.Commands.{
  Command, oneshot, unpin, status, config, help, lpin, lpop, which_tier, AdHoc, Work, take_work,
  pin,
}
use autotier.Adhoc.{Service}
use autotier.Adhoc.Drain.{
  Arrival, execute, execute_queued_work, unless_done, arrived, first_arrivals, later_arrivals,
}
use autotier.Adhoc.Growth.{
  weight, load, load-append, jobs_of, Grows, Grows-trans, arrivals_weight, arrive-Grows,
  execute-Grows,
}
use autotier.Adhoc.Returning.{execute-IsBack}
use autotier.Copy.{CopiesEnd}

-- What all that comes in can lead to.
unfoldable pub total_weight : List (List Arrival) → ℕ
total_weight [] = 0
total_weight (now ∷ later) = arrivals_weight now + total_weight later

taken_none : (w : Work) → take_work w ≡ none → jobs_of w ≡ []
unfolding take_work pop
taken_none w = at w.adhoc_work.queue w.oneshot_in_queue
  where
    at :
        (q : List AdHoc) (flag : Bool)
        → take_work (record { adhoc_work = record { queue = q }; oneshot_in_queue = flag }) ≡ none
        → q ≡ []
    at [] flag h = refl
    at (work ∷ q) flag h = cc

jobs_taken : Option (AdHoc × Work) → List AdHoc
jobs_taken none = []
jobs_taken (some (work, rest)) = work ∷ jobs_of rest

taken_some :
    (w : Work) (work : AdHoc) (rest : Work)
    → take_work w ≡ some (work, rest)
    → jobs_of w ≡ work ∷ jobs_of rest
unfolding take_work pop jobs_taken
taken_some w work rest h = at w.adhoc_work.queue w.oneshot_in_queue ∙ ap jobs_taken h
  where
    at :
        (q : List AdHoc) (flag : Bool)
        → q
          ≡ jobs_taken
              (take_work (record { adhoc_work = record { queue = q }; oneshot_in_queue = flag }))
    at [] flag = refl
    at (work ∷ q) flag = refl

weight_pos : (work : AdHoc) → (n : ℕ) × (weight work.cmd ≡ suc n)
weight_pos work = at work.cmd
  where
    at : (c : Option Command) → (n : ℕ) × (weight c ≡ suc n)
    at none = (0, refl)
    at (some oneshot) = (0, refl)
    at (some pin) = (1, refl)
    at (some unpin) = (0, refl)
    at (some status) = (0, refl)
    at (some config) = (0, refl)
    at (some help) = (0, refl)
    at (some lpin) = (0, refl)
    at (some lpop) = (0, refl)
    at (some which_tier) = (0, refl)

module _ (E : Env) (tier : Service E → Service E) (copy_fuel : ℕ) where
  -- What one round of the loop leaves.
  abbrev after_job : AdHoc → Work → List (List Arrival) → Service E → Service E
  after_job work rest arrivals s =
      arrived E tier copy_fuel (first_arrivals arrivals)
        (execute E tier copy_fuel work (record s { work = rest }))

  -- The jobs that are executed from one state to another, in their order, with what arrives
  -- meanwhile.
  pub data Executes : List AdHoc → List (List Arrival) → Service E → Service E → Type 0 where
    no_job : {arrivals : List (List Arrival)} {s : Service E} → Executes [] arrivals s s
    next_job :
        {jobs : List AdHoc} {arrivals : List (List Arrival)} {s t : Service E} {work : AdHoc}
        {rest : Work}
        → take_work s.work ≡ some (work, rest)
        → Executes jobs (later_arrivals arrivals) (after_job work rest arrivals s) t
        → Executes (work ∷ jobs) arrivals s t

  -- How the loop ends, if `r` is its result: an exception has ended the program, or the thread goes
  -- on, the queue is empty and all jobs of `queued` were executed first, in their order.
  pub record Drained (queued : List AdHoc) (arrivals : List (List Arrival)) (s : Service E)
      (r : Option (Service E)) : Type 0 where
    pub last : Service E
    pub ends : r ≡ some last
    pub jobs : List AdHoc
    pub executed : Executes jobs arrivals s last
    pub all_run :
        (last.course ≡ threw)
        ⊎ ((last.course ≡ going_on)
            × (jobs_of last.work ≡ [])
            × ((more : List AdHoc) × (jobs ≡ queued ++ more)))

  after_job-Grows :
      ((s : Service E) → (tier s).work ≡ s.work)
      → (work : AdHoc) (rest : Work) (arrivals : List (List Arrival)) (s : Service E) (n : ℕ)
      → weight work.cmd ≡ suc n
      → Grows
          (n + arrivals_weight (first_arrivals arrivals))
          (jobs_of rest)
          (jobs_of (after_job work rest arrivals s).work)
  after_job-Grows keeps work rest arrivals s n e =
      Grows-trans _ _ _ _ _
        (execute-Grows E tier keeps copy_fuel work (record s { work = rest }) n e)
        (arrive-Grows (first_arrivals arrivals) _)

  arrivals_split :
      (arrivals : List (List Arrival))
      → total_weight arrivals
        ≡ arrivals_weight (first_arrivals arrivals) + total_weight (later_arrivals arrivals)
  unfolding total_weight arrivals_weight
  arrivals_split [] = refl
  arrivals_split (now ∷ later) = refl

  Drained-next :
      (work : AdHoc) (rest : Work) (arrivals : List (List Arrival)) (s : Service E)
      (more : List AdHoc) (r : Option (Service E))
      → take_work s.work ≡ some (work, rest)
      → jobs_of (after_job work rest arrivals s).work ≡ jobs_of rest ++ more
      → Drained
          (jobs_of (after_job work rest arrivals s).work)
          (later_arrivals arrivals)
          (after_job work rest arrivals s)
          r
      → Drained (work ∷ jobs_of rest) arrivals s r
  Drained-next work rest arrivals s more r e g d = record {
    last = d.last;
    ends = d.ends;
    jobs = work ∷ d.jobs;
    executed = next_job e d.executed;
    all_run = elim d.all_run [
      | inl h ↦ inl h
      | inr (u, h, (later, k)) ↦ inr (
        u,
        h,
        (
          more ++ later,
          ap (◌∷◌ work) (k ∙ ap (λ q. q ++ later) g ∙ append_assoc (jobs_of rest) more later),
        ),
      )
    ];
  }

  Drained-halt :
      (arrivals : List (List Arrival)) (s : Service E) (r : Option (Service E))
      → r ≡ some s
      → (s.course ≡ threw) ⊎ ((s.course ≡ going_on) × (jobs_of s.work ≡ []))
      → Drained (jobs_of s.work) arrivals s r
  Drained-halt arrivals s r e h = record {
    last = s;
    ends = e;
    jobs = [];
    executed = no_job;
    all_run = elim h [ inl x ↦ inl x | inr (u, q) ↦ inr (u, q, ([], sym (ap (λ js. js ++ []) q))) ];
  }

  Drained-as :
      {q q' : List AdHoc} {arrivals : List (List Arrival)} {s : Service E} {r : Option (Service E)}
      → q ≡ q'
      → Drained q' arrivals s r
      → Drained q arrivals s r
  Drained-as a d = rw a d

  -- If every round of tiering and every copy of a PIN ends, so that none retries forever on a full
  -- tier, the rounds leave the queue to the other threads, and these bring finitely many jobs while
  -- it runs, then `execute_queued_work` ends, with fuel for two jobs for each PIN and one for each
  -- other job that is queued or arrives. It has then executed every job that was in the queue, in
  -- the order of the queue, and left the queue empty, unless an exception has ended the program.
  pub execute_queued_work-Drained :
      ((s : Service E) → (tier s).work ≡ s.work)
      → ((s : Service E) → (tier s).course ≢ copying)
      → CopiesEnd E copy_fuel
      → (fuel : ℕ) (arrivals : List (List Arrival)) (s : Service E) → s.course ≢ copying
      → load (jobs_of s.work) + total_weight arrivals < fuel
      → Drained (jobs_of s.work) arrivals s (execute_queued_work E tier copy_fuel fuel arrivals s)
  unfolding execute_queued_work load
  execute_queued_work-Drained keeps rounds ends zero arrivals s b h = absurd (omega arith)
  execute_queued_work-Drained keeps rounds ends (suc fuel) arrivals s b h =
      at s.course (take_work s.work) refl refl λ work rest l.
        execute_queued_work-Drained keeps rounds ends fuel (later_arrivals arrivals)
          (after_job work rest arrivals s)
          (execute-IsBack E tier copy_fuel rounds ends work (record s { work = rest }) b) l
    where
      again : AdHoc → Work → Option (Service E)
      again work rest =
          execute_queued_work E tier copy_fuel fuel (later_arrivals arrivals)
            (after_job work rest arrivals s)

      left : AdHoc → Work → List AdHoc
      left work rest = jobs_of (after_job work rest arrivals s).work

      Later : Type 0
      Later =
          (work : AdHoc) (rest : Work)
          → load (left work rest) + total_weight (later_arrivals arrivals) < fuel
          → Drained (left work rest) (later_arrivals arrivals) (after_job work rest arrivals s)
              (again work rest)

      at :
          (c : Course) (o : Option (AdHoc × Work))
          → s.course ≡ c
          → take_work s.work ≡ o
          → Later
          → Drained (jobs_of s.work) arrivals s (unless_done E tier copy_fuel c o s again)
      at copying o e t later = absurd (b e)
      at threw o e t later = Drained-halt arrivals s _ refl (inl e)
      at going_on none e t later = Drained-halt arrivals s _ refl (inr (e, taken_none s.work t))
      at going_on (some (work, rest)) e t later =
          let q = taken_some s.work work rest t in
          let (n, v) = weight_pos work in
          let g = after_job-Grows keeps work rest arrivals s n v in
          let l = load-append (jobs_of rest) g.more in
          let a = arrivals_split arrivals in
          let m : load (left work rest) + total_weight (later_arrivals arrivals) < fuel =
            omega (arith, ap load q, v, g.light, l, ap load g.added, a) in
          Drained-as q (Drained-next work rest arrivals s g.more _ t g.added (later work rest m))
