-- ===== src/Client/Session.antt =====
-- One run of the command line program, from its options to its end, with the socket server at the
-- other end of the socket: the second half of `main` of src/impl/autotier/autotier.cpp.
use autotier.Base.{
  ◌≡◌, ◌≢◌, refl, Text, text_eq, codes, Bool, true, false, Option, none, some, List, [], ◌∷◌, ◌++◌,
  ◌&&◌, ◌∙◌, starts_with, if◌then◌else◌,
}
use autotier.Env.{Env}
use autotier.Tier.{Tier}
use autotier.Commands.{Command, pin, unpin, AdHoc, get_command_index, parse_work}
use autotier.Adhoc.{
  Service, process_files, process_pin, process_pin_to, process_unpin, push_work, tier_by_id, is_nil,
  not_in_fs, open_args, work_queued,
}
use autotier.Adhoc.Server.{process_request, dispatch, with_work}
use autotier.Client.{
  Flag, Settings, Start, shown, refused, request, Found, read_flags, sanitize_paths, request_paths,
  request_for, start, print_answer, missing, directory, file, keep_file,
}

-- The socket: no connection, or a request whose answer does not come back, or none of these.
pub data Socket : Type 0 where
  no_connection reply_lost connected : Socket

module _ (E : Env) (version : Text) (dump : Service E → Text) where
  -- Whether the program exits with 0, what it prints of the answer, and the state of the server.
  -- `none` is a request without a defined result, or an empty answer.
  abbrev pub Ended : Type 0
  Ended = Option (Bool × List Text × Service E)

  abbrev printed : Option (Bool × List Text) → Service E → Ended
  printed none t = none
  printed (some (ok, messages)) t = some (ok, messages, t)

  abbrev answered : Socket → Option (List Text × Service E) → Service E → Ended
  answered no_connection r s = some (false, [], s)
  answered reply_lost none s = none
  answered reply_lost (some (reply, t)) s = some (false, [], t)
  answered connected none s = none
  answered connected (some (reply, t)) s = printed (print_answer reply) t

  -- From the run path on.
  unfoldable pub run_request : Text → Socket → Start → Service E → Ended
  unfolding print_answer
  run_request run_path socket shown s = some (true, [], s)
  run_request run_path socket refused s = some (false, [], s)
  run_request run_path socket (request payload) s =
      if is_nil run_path
      then some (false, [], s)
      else answered socket (process_request E version dump payload s) s

  module _ (current_path : Text) (join : Text → Text → Text) (look : Text → Found) where
    -- A path from the root, or below the current one.
    abbrev pub absolute_of : Text → Text
    absolute_of arg = if starts_with arg (b'/' ∷ []) then arg else join current_path arg

    -- All of `main`.
    unfoldable pub session : Text → Socket → Settings → List Flag → List Text → Service E → Ended
    unfolding run_request
    session run_path socket defaults flags args s =
        run_request run_path socket (start current_path join look defaults flags args) s

    -- The canonical paths of the arguments that are files, in the order of the arguments.
    pub data Canonical : List Text → List Text → Type 0 where
      no_path : Canonical [] []
      skipped :
          {arg : Text} {args files : List Text}
          → ((path : Text) → look (absolute_of arg) ≢ file path)
          → Canonical args files
          → Canonical (arg ∷ args) files
      kept :
          {arg path : Text} {args files : List Text}
          → look (absolute_of arg) ≡ file path
          → Canonical args files
          → Canonical (arg ∷ args) (path ∷ files)

    keep_file_none :
        (fs : List Text) (l : Found)
        → ((path : Text) → l ≢ file path)
        → keep_file current_path join look l fs ≡ fs
    keep_file_none fs missing m = refl
    keep_file_none fs directory m = refl
    keep_file_none fs (file c) m = absurd (m c refl)

    sanitize_paths-Canonical :
        {args files : List Text}
        → Canonical args files
        → sanitize_paths current_path join look args ≡ files
    unfolding sanitize_paths
    sanitize_paths-Canonical no_path = refl
    sanitize_paths-Canonical (skipped {arg = arg} n more) =
        keep_file_none _ (look (absolute_of arg)) n ∙ sanitize_paths-Canonical more
    sanitize_paths-Canonical (kept e more) = rw (e, sanitize_paths-Canonical more) refl

    -- A job is accepted if all files are below the mount point and none is found open.
    abbrev pub accepts : List Text → Service E → Bool
    accepts files s =
        is_nil (not_in_fs s.mount_point files)
        && is_nil (open_args s.mount_point s.open_files files)

    -- What the run leaves: the job queued and exit with 0, or the state as it was and exit with 1.
    abbrev pub IsQueued : AdHoc → List Text → Service E → Ended → Type 0
    IsQueued job files s r =
        (messages : List Text) × (r
          ≡ some (
            accepts files s,
            messages,
            if accepts files s then record s { work = push_work job s.work } else s,
          ))

    is_nil_not : (m : Text) → m ≢ [] → is_nil m ≡ false
    is_nil_not [] n = absurd (n refl)
    is_nil_not (c ∷ m) n = refl

    process_files-IsQueued :
        (job : AdHoc) (files : List Text) (s : Service E)
        → s.mount_point ≢ []
        → IsQueued job files s
            (answered connected (with_work E version dump s (process_files E job files s)) s)
    unfolding process_files print_answer text_eq
    process_files-IsQueued job files s n = rw (is_nil_not s.mount_point n) (at (accepts files s) _)
      where
        at :
            (b : Bool) (rest : List Text)
            → (messages : List Text) × (answered connected
                  (with_work E version dump s (
                    if b
                    then some (work_queued, push_work job s.work)
                    else some (codes "ERR\n" ∷ rest, s.work)))
                  s
                ≡ some (b, messages, if b then record s { work = push_work job s.work } else s))
        at true rest = (_, refl)
        at false rest = (rest, refl)

    -- A PIN or an UNPIN of paths: the job has them as the program found them, in its order.
    abbrev pub job_of : Command → List Text → AdHoc
    job_of command args = record { cmd = some command; args = args }

    request_unpin :
        (name : Text) (files : List Text) (s : Service E)
        → get_command_index name ≡ some unpin
        → s.mount_point ≢ []
        → IsQueued
            (job_of unpin files)
            files
            s
            (answered connected (process_request E version dump (name ∷ files) s) s)
    unfolding process_request parse_work dispatch process_unpin
    request_unpin name files s e n = rw e (process_files-IsQueued (job_of unpin files) files s n)

    request_pin :
        (name tier_id : Text) (files : List Text) (s : Service E) (tier : Tier)
        → get_command_index name ≡ some pin
        → tier_by_id tier_id s.tiers ≡ some tier
        → s.mount_point ≢ []
        → IsQueued
            (job_of pin (tier_id ∷ files))
            files
            s
            (answered connected (process_request E version dump (name ∷ tier_id ∷ files) s) s)
    unfolding process_request parse_work dispatch process_pin process_pin_to
    request_pin name tier_id files s tier e t n =
        rw (e, t) (process_files-IsQueued (job_of pin (tier_id ∷ files)) files s n)

    module _ (run_path : Text) (defaults o : Settings) (flags : List Flag) (name : Text)
        (s : Service E) (has_path : run_path ≢ []) (mounted : s.mount_point ≢ [])
        (given : read_flags flags defaults ≡ some o) (no_version : o.print_version ≡ false) where
      session-request :
          (args payload : List Text) (P : Ended → Type 0)
          → request_for current_path join look o.json name (get_command_index name) args
            ≡ request payload
          → P (answered connected (process_request E version dump payload s) s)
          → P (session run_path connected defaults flags (name ∷ args) s)
      unfolding session start run_request
      session-request args payload P e p = rw (given, no_version, e, is_nil_not run_path has_path) p

      request_paths-found :
          (front : List Text) (arg : Text) (args : List Text) (first : Text) (files : List Text)
          → sanitize_paths current_path join look (arg ∷ args) ≡ first ∷ files
          → request_paths current_path join look front (arg ∷ args)
            ≡ request (front ++ (first ∷ files))
      unfolding request_paths
      request_paths-found front arg args first files e = rw e

      -- The command is a PIN to a tier that exists, or an UNPIN; the texts are what stands before
      -- the files.
      pub data Pinning : Command → List Text → Type 0 where
        pins :
            (tier_id : Text) (tier : Tier)
            → get_command_index name ≡ some pin
            → tier_by_id tier_id s.tiers ≡ some tier
            → Pinning pin (tier_id ∷ [])
        unpins : get_command_index name ≡ some unpin → Pinning unpin []

      -- `autotier pin TIER FILES`, where the tier exists, and `autotier unpin FILES`, with the
      -- server listening, a mount point and at least one file among the arguments: the run ends,
      -- and it exits with 0 exactly if the server accepts all the files that were found. Then one
      -- job is at the end of the queue, with the canonical paths of the arguments that are files, in
      -- the order of the arguments, after the tier of a PIN; otherwise the state of the server is as
      -- it was.
      pub session-IsQueued :
          {command : Command} {front : List Text} (arg : Text) (args : List Text) (first : Text)
          (files : List Text)
          → Pinning command front
          → Canonical (arg ∷ args) (first ∷ files)
          → IsQueued
              (job_of command (front ++ (first ∷ files)))
              (first ∷ files)
              s
              (session run_path connected defaults flags (name ∷ (front ++ (arg ∷ args))) s)
      unfolding request_for
      session-IsQueued arg args first files (pins tier_id tier c t) e =
          session-request (tier_id ∷ arg ∷ args) (name ∷ tier_id ∷ first ∷ files)
            (IsQueued (job_of pin (tier_id ∷ first ∷ files)) (first ∷ files) s)
            (rw c (
              request_paths-found (name ∷ tier_id ∷ []) arg args first files
                (sanitize_paths-Canonical e)))
            (request_pin name tier_id (first ∷ files) s tier c t mounted)
      session-IsQueued arg args first files (unpins c) e =
          session-request (arg ∷ args) (name ∷ first ∷ files)
            (IsQueued (job_of unpin (first ∷ files)) (first ∷ files) s)
            (rw c
              (request_paths-found (name ∷ []) arg args first files (sanitize_paths-Canonical e)))
            (request_unpin name (first ∷ files) s c mounted)
