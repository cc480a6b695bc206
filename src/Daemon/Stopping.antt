-- ===== src/Daemon/Stopping.antt =====
-- What the tiering thread does once it is asked to stop, and once a job is queued.
use autotier.Base.{
  ℕ, suc, ◌<◌, ◌≤◌, ◌≡◌, ◌≢◌, ◌⊎◌, refl, Bool, true, false, Option, none, some, [], inl, inr, arith,
}
use autotier.Env.{Env, Course, going_on, threw, copying}
use autotier.Adhoc.{Service}
use autotier.Adhoc.Drain.{execute_queued_work}
use autotier.Adhoc.Growth.{jobs_of, load}
use autotier.Adhoc.Progress.{total_weight, Drained, execute_queued_work-Drained}
use autotier.Daemon.{
  Phase, head, jobs, asleep, before_round, in_round, inner, jobs_until, asleep_until, outer, ended,
  crashed, throws, throws_in_round, throws_until, WorkerStep, stops, goes_on, executes, woken,
  starts, finishes, waits, leaves, executes_until, woken_until, blocking, waiting, blocking_until,
  waiting_until, stops_outer, State, begin, Steps,
}
use autotier.Copy.{CopiesEnd}
use autotier.Daemon.Awake.{Fits, IsAwake, Steps-Fits, Steps-IsBack}

course_cases : (c : Course) → c ≢ copying → (c ≡ going_on) ⊎ (c ≡ threw)
course_cases going_on n = inl refl
course_cases threw n = inr refl
course_cases copying n = absurd (n refl)

-- The thread has ended, or an exception has ended the program.
abbrev pub IsOver : Phase → Type 0
IsOver ended = Unit
IsOver crashed = Unit
IsOver _ = ⊥

module _ (E : Env) (tier : Service E → Service E) (copy_fuel : ℕ) (period : Option ℕ) where
  -- A number of the thread's own steps, from one place to another.
  pub data Runs (stop_flag : Bool) (now : ℕ)
      : ℕ → Phase → Service E → Phase → Service E → Type 0 where
    no_step : {f : Phase} {s : Service E} → Runs stop_flag now 0 f s f s
    next_step :
        {n : ℕ} {f g h : Phase} {s t u : Service E}
        → WorkerStep E tier copy_fuel period stop_flag now f s g t
        → Runs stop_flag now n g t h u
        → Runs stop_flag now (suc n) f s h u

  pub begin-Fits : Fits period (begin period)
  unfolding begin
  begin-Fits = at period refl
    where
      at : (o : Option ℕ) → period ≡ o → Fits period (begin o)
      at none e = tt
      at (some p) e = (p, e)

  -- Within some number of its own steps the thread is over.
  abbrev pub EndsIn : ℕ → ℕ → Phase → Service E → Type 0
  EndsIn k now f s =
      (n : ℕ) × (g : Phase) × (t : Service E) × (n ≤ k) × IsOver g × Runs true now n f s g t

  EndsIn-next :
      (k : ℕ) {now : ℕ} {f g : Phase} {s t : Service E}
      → WorkerStep E tier copy_fuel period true now f s g t
      → EndsIn k now g t
      → EndsIn (suc k) now f s
  EndsIn-next k w (n, h, u, l, o, run) = (_, h, u, omega arith, o, next_step w run)

  EndsIn-le :
      (j k : ℕ) {now : ℕ} {f : Phase} {s : Service E} → j ≤ k → EndsIn j now f s → EndsIn k now f s
  EndsIn-le j k l (n, h, u, m, o, run) = (n, h, u, omega arith, o, run)

  over : (now : ℕ) (f : Phase) (s : Service E) → IsOver f → EndsIn 0 now f s
  over now f s o = (_, f, s, omega arith, o, no_step)

  head_ends : (now : ℕ) (s : Service E) → EndsIn 1 now head s
  head_ends now s = EndsIn-next 0 (stops refl) (over now ended s tt)

  asleep_ends : (now : ℕ) (s : Service E) → EndsIn 2 now asleep s
  asleep_ends now s = EndsIn-next 1 (woken (inl refl)) (head_ends now s)

  inner_ends : (now w : ℕ) (s : Service E) → EndsIn 2 now (inner w) s
  inner_ends now w s =
      EndsIn-next 1 (leaves (inr refl)) (EndsIn-next 0 (stops_outer refl) (over now ended s tt))

  asleep_until_ends : (now w : ℕ) (s : Service E) → EndsIn 3 now (asleep_until w) s
  asleep_until_ends now w s = EndsIn-next 2 (woken_until (inl refl)) (inner_ends now w s)

  -- What is relied on: the rounds leave the queue to the other threads, and each round and each
  -- copy ends.
  module _ (keeps : (s : Service E) → (tier s).work ≡ s.work)
      (rounds : (s : Service E) → (tier s).course ≢ copying) (ends : CopiesEnd E copy_fuel) where
    -- Running the queued jobs comes to an end.
    drained :
        (s : Service E)
        → s.course ≢ copying
        → Drained E tier copy_fuel
            (jobs_of s.work)
            []
            s
            (execute_queued_work E tier copy_fuel (suc (load (jobs_of s.work))) [] s)
    unfolding total_weight
    drained s b =
        execute_queued_work-Drained E tier copy_fuel keeps rounds ends _ [] s b (omega arith)

    jobs_ends : (now : ℕ) (s : Service E) → s.course ≢ copying → EndsIn 3 now jobs s
    jobs_ends now s b = elim (drained s b).all_run [
      | inl c ↦
          EndsIn-le 1 3 (omega arith)
            (EndsIn-next 0 (throws _ [] (drained s b).ends c) (over now crashed _ tt))
      | inr (c, _, _) ↦ EndsIn-next 2 (executes _ [] (drained s b).ends c) (asleep_ends now _)
    ]

    jobs_until_ends :
        (now w : ℕ) (s : Service E) → s.course ≢ copying → EndsIn 4 now (jobs_until w) s
    jobs_until_ends now w s b = elim (drained s b).all_run [
      | inl c ↦
          EndsIn-le 1 4 (omega arith)
            (EndsIn-next 0 (throws_until _ [] (drained s b).ends c) (over now crashed _ tt))
      | inr (c, _, _) ↦
          EndsIn-next 3 (executes_until _ [] (drained s b).ends c) (asleep_until_ends now w _)
    ]

    in_round_ends : (now w : ℕ) (s : Service E) → EndsIn 3 now (in_round w) s
    in_round_ends now w s = elim (course_cases (tier s).course (rounds s)) [
      | inl c ↦ EndsIn-next 2 (finishes c) (inner_ends now w _)
      | inr c ↦
          EndsIn-le 1 3 (omega arith) (EndsIn-next 0 (throws_in_round c) (over now crashed _ tt))
    ]

    -- Within four steps the thread has ended.
    abbrev pub Ends : ℕ → Phase → Service E → Type 0
    Ends now f s = EndsIn 4 now f s

    ended-Ends :
        (now : ℕ) (f : Phase) (s : Service E)
        → s.course ≢ copying
        → Fits period f
        → IsAwake E tier copy_fuel period true f
        → Ends now f s
    ended-Ends now head s b h a = EndsIn-le 1 4 (omega arith) (head_ends now s)
    ended-Ends now asleep s b h a = EndsIn-le 2 4 (omega arith) (asleep_ends now s)
    ended-Ends now jobs s b h a = EndsIn-le 3 4 (omega arith) (jobs_ends now s b)
    ended-Ends now before_round s b (p, e) a = EndsIn-next 3 (starts p e) (in_round_ends now _ _)
    ended-Ends now (in_round w) s b h a = EndsIn-le 3 4 (omega arith) (in_round_ends now w s)
    ended-Ends now (inner w) s b h a = EndsIn-le 2 4 (omega arith) (inner_ends now w s)
    ended-Ends now (jobs_until w) s b h a = jobs_until_ends now w s b
    ended-Ends now (asleep_until w) s b h a =
        EndsIn-le 3 4 (omega arith) (asleep_until_ends now w s)
    ended-Ends now outer s b h a =
        EndsIn-le 1 4 (omega arith) (EndsIn-next 0 (stops_outer refl) (over now ended s tt))
    ended-Ends now ended s b h a = EndsIn-le 0 4 (omega arith) (over now ended s tt)
    ended-Ends now crashed s b h a = EndsIn-le 0 4 (omega arith) (over now crashed s tt)
    ended-Ends now blocking s b h a = absurd a
    ended-Ends now waiting s b h a = absurd a
    ended-Ends now (blocking_until w) s b h a = absurd a
    ended-Ends now (waiting_until w) s b h a = absurd a

    -- From the start of `begin`, before a stop is requested, whatever the threads do: once a stop
    -- was requested the tiering thread does not wait, and by at most four steps of its own it has
    -- ended, wherever it is, or an exception has ended the program; the signal of a stop is never
    -- lost. Each round and each copy ends, and the rounds leave the queue alone.
    pub stop_requested-Ends :
        (s t : State E tier copy_fuel period)
        → s.phase ≡ begin period
        → s.stop_flag ≡ false
        → s.service.course ≢ copying
        → Steps E tier copy_fuel period s t
        → t.stop_flag ≡ true
        → Ends t.now t.phase t.service
    stop_requested-Ends s t b f c run e =
        let (fits, awake) = Steps-Fits E tier copy_fuel period run (rw b begin-Fits, rw f tt) in
        ended-Ends t.now t.phase t.service (Steps-IsBack E tier copy_fuel period run c) fits
          (rw e at awake)

    -- What has happened when the jobs have run: an exception has ended the program, or each job of
    -- the queue was executed in its order, the queue is empty, and the thread is where it sleeps.
    pub record Worked (stop_flag : Bool) (now : ℕ) (f g : Phase) (s : Service E) : Type 0 where
      pub last : Service E
      pub count : ℕ
      pub where_to : Phase
      pub runs : Runs stop_flag now count f s where_to last
      pub arrived :
          ((last.course ≡ threw) × (where_to ≡ crashed))
          ⊎ ((last.course ≡ going_on) × (where_to ≡ g))
      pub result : Drained E tier copy_fuel (jobs_of s.work) [] s (some last)

    at_rest :
        (s : Service E) (b : s.course ≢ copying)
        → Drained E tier copy_fuel (jobs_of s.work) [] s (some (drained s b).last)
    at_rest s b = record {
      last = (drained s b).last;
      ends = refl;
      jobs = (drained s b).jobs;
      executed = (drained s b).executed;
      all_run = (drained s b).all_run;
    }

    asleep_works :
        (now : ℕ) (s : Service E)
        → s.course ≢ copying
        → s.work.adhoc_work.queue ≢ []
        → Worked false now asleep asleep s
    asleep_works now s b q = elim (drained s b).all_run [
      | inl c ↦ record {
        last = (drained s b).last;
        count = 3;
        where_to = crashed;
        runs =
            next_step (woken (inr q))
              (next_step (goes_on refl) (next_step (throws _ [] (drained s b).ends c) no_step));
        arrived = inl (c, refl);
        result = at_rest s b;
      }
      | inr (c, _, _) ↦ record {
        last = (drained s b).last;
        count = 3;
        where_to = asleep;
        runs =
            next_step (woken (inr q))
              (next_step (goes_on refl) (next_step (executes _ [] (drained s b).ends c) no_step));
        arrived = inr (c, refl);
        result = at_rest s b;
      }
    ]

    asleep_until_works :
        (now wake_time : ℕ) (s : Service E)
        → s.course ≢ copying
        → s.work.adhoc_work.queue ≢ []
        → now < wake_time
        → Worked false now (asleep_until wake_time) (asleep_until wake_time) s
    asleep_until_works now wake_time s b q l = elim (drained s b).all_run [
      | inl c ↦ record {
        last = (drained s b).last;
        count = 3;
        where_to = crashed;
        runs =
            next_step (woken_until (inr q)) (
              next_step (waits l refl)
                (next_step (throws_until _ [] (drained s b).ends c) no_step));
        arrived = inl (c, refl);
        result = at_rest s b;
      }
      | inr (c, _, _) ↦ record {
        last = (drained s b).last;
        count = 3;
        where_to = asleep_until wake_time;
        runs = next_step (woken_until (inr q)) (
            next_step (waits l refl)
              (next_step (executes_until _ [] (drained s b).ends c) no_step));
        arrived = inr (c, refl);
        result = at_rest s b;
      }
    ]

    -- A thread that is about to test whether it is to wait while a job is queued, and is not asked
    -- to stop, can go on by steps of its own until every queued job was executed, in the order of
    -- the queue, and it is at that test again, or an exception has ended the program: without a
    -- period always, with one if the time of the next round has not come. Each round and each copy
    -- ends, so that no PIN retries forever on a full tier, and the rounds leave the queue alone.
    pub asleep-Worked :
        (now wake_time : ℕ) (s : Service E)
        → s.course ≢ copying
        → s.work.adhoc_work.queue ≢ []
        → now < wake_time
        → Worked false now asleep asleep s
          × Worked false now (asleep_until wake_time) (asleep_until wake_time) s
    asleep-Worked now wake_time s b q l =
        (asleep_works now s b q, asleep_until_works now wake_time s b q l)
