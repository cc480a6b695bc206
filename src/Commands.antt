-- ===== src/Commands.antt =====
-- src/incl/tools.hpp and `get_command_index` of src/impl/shared/tools.cpp: the ad hoc commands, and
-- the queue that hands them to the tiering thread (`enqueue_work` of
-- src/incl/TierEngine/components/adhoc.hpp, `execute_queued_work` of
-- src/impl/autotierfs/TierEngine/components/adhoc.cpp).
pub mod Oneshot
use autotier.Base.{Text, codes, Bool, true, false, Option, none, some, List, [], ◌∷◌, if◌then◌else◌}
use autotier.Regex.{Regex, eps, one_of, seq, alt, chars, regex_match}
use autotier.Queue.{ConcurrentQueue, push, pop}

pub data Command : Type 0 where
  oneshot pin unpin status config help lpin lpop which_tier : Command

-- A letter in two cases before a pattern, and an optional letter.
abbrev pub letter : Text → Regex → Regex
letter cs r = seq (one_of cs) r

abbrev pub optional : Text → Regex
optional cs = alt (one_of cs) eps

abbrev pub command_list : List (Regex × Command)
command_list =
    (alt (letter (codes "Oo") (chars (codes "neshot") eps)) (chars (codes "ONESHOT") eps), oneshot)
    ∷ (alt (letter (codes "Pp") (chars (codes "in") eps)) (chars (codes "PIN") eps), pin)
    ∷ (alt (letter (codes "Uu") (chars (codes "npin") eps)) (chars (codes "UNPIN") eps), unpin)
    ∷ (alt (letter (codes "Ss") (chars (codes "tatus") eps)) (chars (codes "STATUS") eps), status)
    ∷ (alt (letter (codes "Cc") (chars (codes "onfig") eps)) (chars (codes "CONFIG") eps), config)
    ∷ (alt (letter (codes "Hh") (chars (codes "elp") eps)) (chars (codes "HELP") eps), help)
    ∷ (
      alt
          (letter (codes "Ll") (
            chars (codes "ist-") (letter (codes "Pp") (chars (codes "in") (optional (codes "s"))))))
          (chars (codes "LIST-PIN") (optional (codes "S"))),
      lpin,
    )
    ∷ (
      alt
          (letter (codes "Ll")
            (chars (codes "ist-") (letter (codes "Pp") (chars (codes "opularity") eps))))
          (chars (codes "LIST-POPULARITY") eps),
      lpop,
    )
    ∷ (
      alt
          (letter (codes "Ww")
            (chars (codes "hich-") (letter (codes "Tt") (chars (codes "ier") eps))))
          (chars (codes "WHICH-TIER") eps),
      which_tier,
    )
    ∷ []

unfoldable pub find_command : Text → List (Regex × Command) → Option Command
find_command cmd [] = none
find_command cmd ((r, c) ∷ rest) =
    let later = find_command cmd rest in if regex_match cmd r then some c else later

-- `none` is -1.
unfoldable pub get_command_index : Text → Option Command
unfolding find_command regex_match
get_command_index cmd = find_command cmd command_list

-- `AdHoc`: the command's index, and its arguments.
pub record AdHoc : Type 0 where
  pub cmd : Option Command
  pub args : List Text

-- `AdHoc(work_req)`; `front()` of an empty request has no defined result.
unfoldable pub parse_work : List Text → Option AdHoc
parse_work [] = none
parse_work (name ∷ args) = some (record { cmd = get_command_index name; args = args })

-- The work queue, and `oneshot_in_queue_`.
pub record Work : Type 0 where
  pub adhoc_work : ConcurrentQueue AdHoc
  pub oneshot_in_queue : Bool

abbrev pub is_oneshot : Command → Bool
is_oneshot oneshot = true
is_oneshot _ = false

unfoldable pub enqueue_work : Command → List Text → Work → Work
enqueue_work job args w =
    let queued = push (record { cmd = some job; args = args }) w.adhoc_work in
    if is_oneshot job
    then (if w.oneshot_in_queue then w else record { adhoc_work = queued; oneshot_in_queue = true })
    else record w { adhoc_work = queued }

abbrev pub is_oneshot_work : Option Command → Bool
is_oneshot_work none = false
is_oneshot_work (some c) = is_oneshot c

-- The head of the loop of `execute_queued_work`: the next job, if there is one. A ONESHOT clears
-- the flag before it runs.
unfoldable pub take_work : Work → Option (AdHoc × Work)
take_work w = elim (pop w.adhoc_work) [
  | none ↦ none
  | some (work, rest) ↦ some (
    work,
    record {
      adhoc_work = rest;
      oneshot_in_queue = if is_oneshot_work work.cmd then false else w.oneshot_in_queue;
    },
  )
]
