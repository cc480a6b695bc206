-- ===== src/Commands/Oneshot.antt =====
-- The flag that keeps a second ONESHOT out of the queue.
use autotier.Base.{
  ℕ, ◌+◌, ◌≤◌, ◌≡◌, refl, Text, Bool, false, Option, none, some, List, [], ◌∷◌, ◌++◌, arith,
  if◌then◌else◌,
}
use autotier.Queue.{empty_queue, push, pop}
use autotier.Commands.{Command, AdHoc, Work, is_oneshot_work, enqueue_work, take_work}

pub oneshots : List AdHoc → ℕ
oneshots [] = 0
oneshots (work ∷ rest) = (if is_oneshot_work work.cmd then 1 else 0) + oneshots rest

-- What the callbacks and the tiering thread do to the queue.
pub data Event : Type 0 where
  enqueued : Command → List Text → Event
  taken : Event

abbrev after_take : Work → Option (AdHoc × Work) → Work
after_take w none = w
after_take w (some (work, w')) = w'

abbrev step : Event → Work → Work
step (enqueued job args) w = enqueue_work job args w
step taken w = after_take w (take_work w)

pub run : List Event → Work → Work
run [] w = w
run (e ∷ es) w = run es (step e w)

-- The flag says whether a ONESHOT is in the queue, and there is never a second one.
abbrev pub IsFlagged : Work → Type 0
IsFlagged w = oneshots w.adhoc_work.queue ≡ (if w.oneshot_in_queue then 1 else 0)

oneshots-append :
    (xs : List AdHoc) (work : AdHoc)
    → oneshots (xs ++ (work ∷ [])) ≡ oneshots xs + (if is_oneshot_work work.cmd then 1 else 0)
unfolding oneshots
oneshots-append [] work = omega arith
oneshots-append (x ∷ xs) work = let h = oneshots-append xs work in omega arith

enqueue_work-IsFlagged :
    (job : Command) (args : List Text) (w : Work)
    → IsFlagged w
    → IsFlagged (enqueue_work job args w)
unfolding enqueue_work push
enqueue_work-IsFlagged job args w h =
    let work : AdHoc = record { cmd = some job; args = args } in
    ground (arith, oneshots-append w.adhoc_work.queue work)

take-IsFlagged :
    (xs : List AdHoc) (flag : Bool)
    → oneshots xs ≡ (if flag then 1 else 0)
    → IsFlagged
        (step taken (record { adhoc_work = record { queue = xs }; oneshot_in_queue = flag }))
unfolding take_work pop oneshots
take-IsFlagged [] flag h = h
take-IsFlagged (x ∷ xs) flag h = ground arith

step-IsFlagged : (e : Event) (w : Work) → IsFlagged w → IsFlagged (step e w)
step-IsFlagged (enqueued job args) w h = enqueue_work-IsFlagged job args w h
step-IsFlagged taken w h = take-IsFlagged w.adhoc_work.queue w.oneshot_in_queue h

run-IsFlagged : (es : List Event) (w : Work) → IsFlagged w → IsFlagged (run es w)
unfolding run
run-IsFlagged [] w h = h
run-IsFlagged (e ∷ es) w h = run-IsFlagged es (step e w) (step-IsFlagged e w h)

abbrev pub no_work : Work
no_work = record { adhoc_work = empty_queue; oneshot_in_queue = false }

-- After any sequence of jobs that `enqueue_work` is given and jobs that the tiering thread takes,
-- from an empty queue, at most one ONESHOT is queued, and the flag says whether one is.
pub oneshots-run :
    (es : List Event)
    → (oneshots (run es no_work).adhoc_work.queue ≤ 1)
      × (oneshots (run es no_work).adhoc_work.queue
          ≡ (if (run es no_work).oneshot_in_queue then 1 else 0))
unfolding oneshots empty_queue
oneshots-run es = let h = run-IsFlagged es no_work refl in (ground arith, h)
