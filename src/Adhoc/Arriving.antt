-- ===== src/Adhoc/Arriving.antt =====
-- What an answer of the socket server does to the state of the engine.
use autotier.Base.{
  ◌≡◌, ◌⊎◌, refl, ap, Text, Option, none, some, List, [], ◌∷◌, if_both, Option-cases, inl, inr,
  ◌&&◌, not,
}
use autotier.Env.{Env}
use autotier.Commands.{
  Command, oneshot, pin, unpin, status, config, help, lpin, lpop, which_tier, AdHoc, Work,
  parse_work,
}
use autotier.Adhoc.{
  Service, Reply, tier_by_id, push_work, process_oneshot, process_pin, process_pin_to,
  process_files, process_unpin, is_nil, not_in_fs, open_args,
}
use autotier.Adhoc.Drain.{Arrival, pushed, arrive}
use autotier.Adhoc.Runnable.{IsRunnable}
use autotier.Adhoc.Status.{process_status}
use autotier.Adhoc.Server.{dispatch, process_request, with_work}

module _ (E : Env) (version : Text) (dump : Service E → Text) where
  -- Only the world changed, or one job was pushed that the tiering thread can execute.
  abbrev pub PushesOne : Service E → Service E → Type 0
  PushesOne s t =
      (t ≡ record s { world = t.world })
      ⊎ ((job : AdHoc) × IsRunnable s.tiers job × (t ≡ record s { work = push_work job s.work }))

  -- If there is an answer.
  abbrev pub Answers : Service E → Option (Reply × Service E) → Type 0
  Answers s none = Unit
  Answers s (some (reply, t)) = PushesOne s t

  abbrev AnswersWork : Service E → Option (Reply × Work) → Type 0
  AnswersWork s none = Unit
  AnswersWork s (some (reply, w)) = PushesOne s (record s { work = w })

  Answers-with_work :
      (s : Service E) (r : Option (Reply × Work))
      → AnswersWork s r
      → Answers s (with_work E version dump s r)
  Answers-with_work s none h = tt
  Answers-with_work s (some (reply, w)) h = h

  process_files-AnswersWork :
      (work : AdHoc) (files : List Text) (s : Service E)
      → IsRunnable s.tiers work
      → AnswersWork s (process_files E work files s)
  unfolding process_files
  process_files-AnswersWork work files s r =
      if_both (AnswersWork s) (is_nil s.mount_point && not (is_nil files)) tt (
        if_both (AnswersWork s)
          (is_nil (not_in_fs s.mount_point files)
            && is_nil (open_args s.mount_point s.open_files files))
          (inr (work, r, refl)) (inl refl))

  process_oneshot-PushesOne :
      (args : List Text) (s : Service E)
      → PushesOne s
          (record s { work = (process_oneshot E (record { cmd = some oneshot; args = args }) s).1 })
  unfolding process_oneshot
  process_oneshot-PushesOne [] s =
      if_both (λ (r : Reply × Work). PushesOne s (record s { work = r.1 })) s.currently_tiering
        (inl refl) (inr (_, refl, refl))
  process_oneshot-PushesOne (arg ∷ args) s = inl refl

  process_pin-AnswersWork :
      (args : List Text) (s : Service E)
      → AnswersWork s (process_pin E (record { cmd = some pin; args = args }) args s)
  unfolding process_pin process_pin_to
  process_pin-AnswersWork [] s = tt
  process_pin-AnswersWork (tier_id ∷ files) s = elim (Option-cases (tier_by_id tier_id s.tiers)) [
    | inl e ↦ rw e (inl refl)
    | inr (tier, e) ↦ rw e (process_files-AnswersWork _ files s (tier, e))
  ]

  dispatch-Answers :
      (cmd : Option Command) (args : List Text) (s : Service E)
      → Answers s (dispatch E version dump cmd (record { cmd = cmd; args = args }) s)
  unfolding dispatch process_unpin process_status
  dispatch-Answers (some oneshot) args s = process_oneshot-PushesOne args s
  dispatch-Answers (some pin) args s = Answers-with_work s _ (process_pin-AnswersWork args s)
  dispatch-Answers (some unpin) args s =
      Answers-with_work s _ (process_files-AnswersWork _ args s tt)
  dispatch-Answers (some status) [] s = tt
  dispatch-Answers (some status) (arg ∷ args) s = inl refl
  dispatch-Answers (some config) args s = inl refl
  dispatch-Answers (some help) args s = inl refl
  dispatch-Answers (some lpin) args s = inl refl
  dispatch-Answers (some lpop) args s = inl refl
  dispatch-Answers (some which_tier) args s = inl refl
  dispatch-Answers none args s = inl refl

  -- Whatever strings are received, an answer of the server changes nothing of the engine but the
  -- world, as a STATUS does with the conflict log, or it only pushes one job behind the others: a
  -- ONESHOT without arguments, a PIN to a tier that exists, or an UNPIN. Requests without a defined result, such as a
  -- PIN without arguments, are left out.
  pub process_request-Answers :
      (payload : List Text) (s : Service E) → Answers s (process_request E version dump payload s)
  unfolding process_request parse_work
  process_request-Answers [] s = tt
  process_request-Answers (name ∷ args) s = dispatch-Answers _ args s

  -- What a request does to the queue is an arrival there, and the tiering thread is where it was.
  pub process_request-arrive :
      (payload : List Text) (s t : Service E) (reply : Reply)
      → process_request E version dump payload s ≡ some (reply, t)
      → (arrivals : List Arrival) × (t.work ≡ arrive arrivals s.work) × (t.course ≡ s.course)
  unfolding arrive
  process_request-arrive payload s t reply e =
      let h = process_request-Answers payload s in at (rw e at h)
    where
      at :
          PushesOne s t
          → (arrivals : List Arrival) × (t.work ≡ arrive arrivals s.work) × (t.course ≡ s.course)
      at (inl same) =
          ([], ap (λ (x : Service E). x.work) same, ap (λ (x : Service E). x.course) same)
      at (inr (job, _, more)) = (
        pushed job ∷ [],
        ap (λ (x : Service E). x.work) more,
        ap (λ (x : Service E). x.course) more,
      )
