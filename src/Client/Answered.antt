-- ===== src/Client/Answered.antt =====
-- The server has an answer to every request that the command line program sends.
use autotier.Base.{
  ◌≡◌, ◌≢◌, refl, Text, Bool, true, Option, none, some, List, [], ◌∷◌, ◌++◌, if_both, if_split,
  ◌&&◌, not,
}
use autotier.Env.{Env}
use autotier.Tier.{Tier}
use autotier.Commands.{
  Command, oneshot, pin, unpin, status, config, help, lpin, lpop, which_tier, AdHoc, Work,
  get_command_index, parse_work,
}
use autotier.Adhoc.{
  Service, Reply, process_files, process_pin, process_pin_to, process_unpin, tier_by_id, is_nil,
  not_in_fs, open_args,
}
use autotier.Adhoc.Status.{process_status}
use autotier.Adhoc.Server.{dispatch, process_request, with_work}
use autotier.Client.{
  Flag, Settings, Start, shown, refused, request, Found, read_flags, sanitize_paths, request_paths,
  request_for, send_paths, with_command, with_settings, start,
}

module _ (E : Env) (version : Text) (dump : Service E → Text) (s : Service E)
    (mounted : s.mount_point ≢ []) where
  -- The server answers, and does not crash.
  abbrev IsSome : {A : Type 0} → Option A → Type 0
  IsSome none = ⊥
  IsSome (some x) = Unit

  abbrev pub IsAnswered : List Text → Type 0
  IsAnswered payload = IsSome (process_request E version dump payload s)

  abbrev pub Answers : Start → Type 0
  Answers shown = Unit
  Answers refused = Unit
  Answers (request payload) = IsAnswered payload

  process_files-IsSome : (work : AdHoc) (files : List Text) → IsSome (process_files E work files s)
  unfolding process_files
  process_files-IsSome work files =
      if_split IsSome (is_nil s.mount_point && not (is_nil files))
        (λ h. absurd (mounted (nil_of s.mount_point h)))
        (λ _.
          if_both IsSome
            (is_nil (not_in_fs s.mount_point files)
              && is_nil (open_args s.mount_point s.open_files files))
            tt tt)
    where
      nil_of : (m : Text) → (is_nil m && not (is_nil files)) ≡ true → m ≡ []
      nil_of [] h = refl
      nil_of (x ∷ xs) h = cc

  with_work-IsSome : (r : Option (Reply × Work)) → IsSome r → IsSome (with_work E version dump s r)
  with_work-IsSome none h = h
  with_work-IsSome (some (reply, w)) h = tt

  process_pin-IsSome :
      (work : AdHoc) (tier_id : Text) (files : List Text)
      → IsSome (process_pin E work (tier_id ∷ files) s)
  unfolding process_pin
  process_pin-IsSome work tier_id files = at (tier_by_id tier_id s.tiers)
    where
      at : (o : Option Tier) → IsSome (process_pin_to E o work tier_id files s)
      at none = tt
      at (some tier) = process_files-IsSome work files

  -- A request whose command has what the server reads of its arguments.
  abbrev HasArguments : Option Command → List Text → Type 0
  HasArguments (some pin) [] = ⊥
  HasArguments (some status) [] = ⊥
  HasArguments _ args = Unit

  dispatch-IsSome :
      (cmd : Option Command) (work : AdHoc)
      → HasArguments cmd work.args
      → IsSome (dispatch E version dump cmd work s)
  unfolding dispatch process_unpin process_status
  dispatch-IsSome none work h = tt
  dispatch-IsSome (some oneshot) work h = tt
  dispatch-IsSome (some pin) work h = at work.args h
    where
      at :
          (args : List Text)
          → HasArguments (some pin) args
          → IsSome (with_work E version dump s (process_pin E work args s))
      at [] h = absurd h
      at (tier_id ∷ files) h = with_work-IsSome _ (process_pin-IsSome work tier_id files)
  dispatch-IsSome (some unpin) work h = with_work-IsSome _ (process_files-IsSome work work.args)
  dispatch-IsSome (some status) work h = at work.args h
    where
      at :
          (args : List Text)
          → HasArguments (some status) args
          → IsSome (process_status E version args s)
      at [] h = absurd h
      at (arg ∷ args) h = tt
  dispatch-IsSome (some config) work h = tt
  dispatch-IsSome (some help) work h = tt
  dispatch-IsSome (some lpin) work h = tt
  dispatch-IsSome (some lpop) work h = tt
  dispatch-IsSome (some which_tier) work h = tt

  IsAnswered-of :
      (name : Text) (args : List Text) (c : Command)
      → get_command_index name ≡ some c
      → HasArguments (some c) args
      → IsAnswered (name ∷ args)
  unfolding process_request parse_work
  IsAnswered-of name args c e h =
      dispatch-IsSome (get_command_index name)
        (record { cmd = get_command_index name; args = args }) (rw e h)

  module _ (current_path : Text) (join : Text → Text → Text) (look : Text → Found) where
    request_paths-Answers :
        (front : List Text) (args : List Text)
        → ((files : List Text) → IsAnswered (front ++ files))
        → Answers (request_paths current_path join look front args)
    unfolding request_paths
    request_paths-Answers front [] h = tt
    request_paths-Answers front (arg ∷ args) h =
        at (sanitize_paths current_path join look (arg ∷ args))
      where
        at : (paths : List Text) → Answers (send_paths current_path join look front paths)
        at [] = tt
        at (path ∷ paths) = h (path ∷ paths)

    request_for-Answers :
        (json : Bool) (name : Text) (args : List Text) (cmd : Option Command)
        → get_command_index name ≡ cmd
        → Answers (request_for current_path join look json name cmd args)
    unfolding request_for
    request_for-Answers json name args none e = tt
    request_for-Answers json name args (some oneshot) e = IsAnswered-of name _ oneshot e tt
    request_for-Answers json name [] (some pin) e = tt
    request_for-Answers json name (tier ∷ args) (some pin) e =
        request_paths-Answers (name ∷ tier ∷ []) args
          (λ files. IsAnswered-of name (tier ∷ files) pin e tt)
    request_for-Answers json name args (some unpin) e =
        request_paths-Answers (name ∷ []) args (λ files. IsAnswered-of name files unpin e tt)
    request_for-Answers json name args (some status) e = IsAnswered-of name _ status e tt
    request_for-Answers json name args (some config) e = IsAnswered-of name _ config e tt
    request_for-Answers json name args (some help) e = tt
    request_for-Answers json name args (some lpin) e = IsAnswered-of name _ lpin e tt
    request_for-Answers json name args (some lpop) e = IsAnswered-of name _ lpop e tt
    request_for-Answers json name args (some which_tier) e =
        request_paths-Answers (name ∷ []) args (λ files. IsAnswered-of name files which_tier e tt)

    -- Whatever options and arguments the command line program is given, each request that it sends
    -- has an answer of the server, whose mount point is set: none is without a defined result.
    pub start-Answers :
        (defaults : Settings) (flags : List Flag) (args : List Text)
        → Answers (start current_path join look defaults flags args)
    unfolding start
    start-Answers defaults flags args = at (read_flags flags defaults)
      where
        with_args :
            (json : Bool) (given : List Text)
            → Answers (with_command current_path join look json given)
        with_args json [] = tt
        with_args json (name ∷ rest) =
            request_for-Answers json name rest (get_command_index name) refl

        at : (o : Option Settings) → Answers (with_settings current_path join look o args)
        at none = tt
        at (some o) = if_both Answers o.print_version tt (with_args o.json args)
