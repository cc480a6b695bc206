-- ===== src/Daemon/Joined.antt =====
-- `destroy` joins both threads.
use autotier.Base.{
  ℕ, ◌≤◌, ◌≡◌, ◌≢◌, refl, Text, Bool, true, Option, none, List, [], Option-cases, inl, inr, arith,
}
use autotier.Env.{Env, copying}
use autotier.Copy.{CopiesEnd}
use autotier.Adhoc.{Service}
use autotier.Adhoc.Server.{process_request}
use autotier.Adhoc.Arriving.{process_request-arrive}
use autotier.Adhoc.Drain.{Arrival, arrive}
use autotier.Daemon.{Steps, here, then_step, others_act, wakes_spuriously}
use autotier.Daemon.Serving
use autotier.Daemon.Serving.{
  ServerPhase, at_test, listening, notifying, returned, serving, ServerStep, returns, listens,
  receives, fails, leaves_shut, answers, Mounted, init_threads, MountStep, serves, notifies,
  shuts_down, others, MountSteps, Serves, done, next, next_signal,
}
use autotier.Daemon.Stopping.{Ends, stop_requested-Ends}

module _ (E : Env) (tier : Service E → Service E) (copy_fuel : ℕ) (period : Option ℕ)
    (version : Text) (dump : Service E → Text) where
  -- A step of the server is one of another thread.
  ServerStep-arrive :
      {stop_flag shut : Bool} {f g : ServerPhase} {s t : Service E}
      → ServerStep E tier copy_fuel period version dump stop_flag shut f s g t
      → (arrivals : List Arrival) × (t.work ≡ arrive arrivals s.work) × (t.course ≡ s.course)
  unfolding arrive
  ServerStep-arrive (returns e) = ([], refl, refl)
  ServerStep-arrive (listens e) = ([], refl, refl)
  ServerStep-arrive (receives payload) = ([], refl, refl)
  ServerStep-arrive fails = ([], refl, refl)
  ServerStep-arrive (leaves_shut e f) = ([], refl, refl)
  ServerStep-arrive {s = s} {t = t} (answers {payload = payload} reply e) =
      process_request-arrive E version dump payload s t reply e

  -- With the server the tiering thread takes no other steps than those of the step relation
  -- without it.
  pub MountSteps-Steps :
      {s t : Mounted E tier copy_fuel period version dump}
      → MountSteps E tier copy_fuel period version dump s t
      → Steps E tier copy_fuel period s.daemon t.daemon
  MountSteps-Steps Serving.no_step = here
  MountSteps-Steps (Serving.then_step a (serves w) more) =
      let (arrivals, e, c) = ServerStep-arrive w in
      then_step a (others_act arrivals _ e c) (MountSteps-Steps more)
  MountSteps-Steps (Serving.then_step a (notifies e) more) =
      then_step a wakes_spuriously (MountSteps-Steps more)
  MountSteps-Steps (Serving.then_step a (shuts_down e) more) = MountSteps-Steps more
  MountSteps-Steps (Serving.then_step a (others o) more) = then_step a o (MountSteps-Steps more)

  -- Within three steps of its own the server has returned.
  abbrev pub Returns : Bool → Bool → ServerPhase → Service E → Type 0
  Returns stop_flag shut f s =
      (n : ℕ) × (t : Service E) × (n ≤ 3)
      × Serves E tier copy_fuel period version dump stop_flag shut n f s returned t

  -- The request that is being served has an answer.
  abbrev pub IsAnswered : ServerPhase → Service E → Type 0
  IsAnswered (serving payload) s = process_request E version dump payload s ≢ none
  IsAnswered _ s = Unit

  stopped-Returns : (f : ServerPhase) (s : Service E) → IsAnswered f s → Returns true true f s
  stopped-Returns at_test s a = (_, _, omega arith, next (returns refl) done)
  stopped-Returns listening s a = (_, _, omega arith, next (leaves_shut refl refl) done)
  stopped-Returns notifying s a = (_, _, omega arith, next_signal (next (returns refl) done))
  stopped-Returns returned s a = (_, _, omega arith, done)
  stopped-Returns (serving payload) s a =
      elim (Option-cases (process_request E version dump payload s)) [
        | inl e ↦ absurd (a e)
        | inr ((reply, t), e) ↦
            (3, t, omega arith, next (answers reply e) (next_signal (next (returns refl) done)))
      ]

  -- From `init` on, whatever the threads do: once `destroy` has set the flag and shut the socket
  -- down, both joins can return, unless an exception has ended the program. There are at most four
  -- steps of its own by which the tiering thread has ended, wherever it is, and at most three by
  -- which the server has, if the request that it may be serving has an answer. A step of the tiering
  -- thread can be the rest of a round or of the queued jobs; each round and each copy ends, which on
  -- a tier that stays full they do not. The rounds leave the queue alone.
  pub init_threads-Joined :
      (keeps : (s : Service E) → (tier s).work ≡ s.work)
      (rounds : (s : Service E) → (tier s).course ≢ copying) (ends : CopiesEnd E copy_fuel)
      (service : Service E) (now : ℕ) (t : Mounted E tier copy_fuel period version dump)
      → service.course ≢ copying
      → MountSteps E tier copy_fuel period version dump
          (init_threads E tier copy_fuel period version dump service now)
          t
      → t.daemon.stop_flag ≡ true
      → t.shut ≡ true
      → IsAnswered t.server t.daemon.service
      → Ends E tier copy_fuel period keeps rounds ends t.daemon.now t.daemon.phase t.daemon.service
        × Returns t.daemon.stop_flag t.shut t.server t.daemon.service
  unfolding init_threads
  init_threads-Joined keeps rounds ends service now t c run e shut a = (
    stop_requested-Ends E tier copy_fuel period keeps rounds ends _ t.daemon refl refl c
        (MountSteps-Steps run) e,
    rw (e, shut) (stopped-Returns t.server t.daemon.service a),
  )
