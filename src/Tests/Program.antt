-- ===== src/Tests/Program.antt =====
-- The theorems on listings, sizes, the configuration and the command line at concrete inputs.
use autotier.Base.{
  ℕ, refl, sym, ap, ◌≢◌, Text, codes, true, false, Option, none, some, List, [], ◌∷◌, ◌++◌, arith,
  length,
}
use autotier.Env.{Outcome, ret, fail, StatVfs}
use autotier.Fuse.Directory.{Dirent, Streams, read_directory}
use autotier.Fuse.Directory.Listed.{
  Gives, at_end, at_entry, IsFresh, IsRoomy, IsListed, all_visible, dirs_of,
  read_directory-IsListed,
}
use autotier.Fuse.Statfs.{statfs}
use autotier.Fuse.Statfs.Free.{HasBlocks, Reports, quota_blocks, used_blocks, statfs-Reports}
use autotier.Config.{pos, Parsed, load_config}
use autotier.Config.Complete.{IsComplete, load_config-IsComplete}
use autotier.Client.{Settings, file, json_flag, start}
use autotier.Client.Answered.{Answers, start-Answers}
use autotier.Tests.Machine as M
use autotier.Tests.Machine.{machine, Machine}
use autotier.Tests.Mounted.{a_context, a_mount}
use autotier.Tests.Jobs.{a_service}

abbrev next_entry : List Dirent → Option Dirent × List Dirent
next_entry [] = (none, [])
next_entry (e ∷ es) = (some e, es)

-- A stream is what is left of it; a seek does nothing, and the buffer is a list of names.
abbrev lists : Streams machine
lists = record {
  Dir = List Dirent;
  open_dir = λ path w. (fail 2, w);
  next = next_entry;
  seek = λ offset d. d;
  tell = λ d. length d;
  Buffer = List Text;
  filler = λ name ino mode offset b. (false, b ++ (name ∷ []));
}

abbrev entry_of : Text → ℕ → Dirent
entry_of name kind = record { d_name = name; d_ino = 1; d_type = kind }

abbrev fast_entries : List Dirent
fast_entries = entry_of (codes "sub") 4 ∷ entry_of (codes "x") 8 ∷ []

abbrev slow_entries : List Dirent
slow_entries = entry_of (codes "sub") 4 ∷ entry_of (codes ".x.autotier.hide") 8 ∷ []

lists-IsRoomy : IsRoomy machine lists
lists-IsRoomy = record { names = λ b. b; takes = λ name ino mode offset b. (refl, refl) }

lists-Gives : (es : List Dirent) → Gives machine lists es es
lists-Gives [] = at_end refl
lists-Gives (e ∷ es) = at_entry refl (lists-Gives es)

lists-IsFresh : (es : List Dirent) → IsFresh machine lists es es
lists-IsFresh es = record { gives = lists-Gives es; gives_again = lists-Gives es }

abbrev two_streams : List (List Dirent × List Dirent)
two_streams = (fast_entries, fast_entries) ∷ (slow_entries, slow_entries) ∷ []

read_directory-IsListed_example :
    IsListed machine lists lists-IsRoomy
      (all_visible machine lists lists-IsRoomy true two_streams)
      []
      (read_directory machine lists 5 0
        (record { entry = none; offset = 0; dps = dirs_of machine lists lists-IsRoomy two_streams })
        [])
read_directory-IsListed_example =
    read_directory-IsListed machine lists lists-IsRoomy 5 two_streams []
      ((lists-IsFresh fast_entries, omega arith), ((lists-IsFresh slow_entries, omega arith), tt))

abbrev block_size : Outcome StatVfs × Machine → ℕ
block_size (ret stats, w) = stats.f_bsize
block_size (fail e, w) = 0

machine-HasBlocks : HasBlocks machine 2
machine-HasBlocks path w v stats h = sym (ap block_size h)

statfs-Reports_example :
    Reports machine 2 a_mount.tiers (statfs machine a_context (codes "/") a_mount).0
unfolding quota_blocks used_blocks
statfs-Reports_example =
    statfs-Reports machine 2 (omega arith) machine-HasBlocks a_context (codes "/") a_mount
      (omega arith) (omega arith)

abbrev a_path : Text → Option Text
a_path (c ∷ cs) = some (b'/' ∷ c ∷ cs)
a_path [] = none

abbrev a_config : Parsed
a_config = record {
  sections = codes "Global" ∷ codes "fast" ∷ codes "slow" ∷ [];
  has_section = λ name. true;
  get_int = λ scope key default. pos 5;
  get_bytes = λ scope key default. default;
  get_bool = λ scope key default. default;
  get_text = λ scope key default. default;
  find_text = λ name key. a_path name;
  get_quota = λ name size. size;
}

load_config-IsComplete_example :
    IsComplete machine a_config none (load_config machine a_config (codes "1") none M.start)
load_config-IsComplete_example = load_config-IsComplete machine a_config (codes "1") none M.start

abbrev pub defaults : Settings
defaults = record {
  config_path = codes "/etc/autotier.conf";
  json = false;
  print_version = false;
  log_level = 1;
}

abbrev pub pin_line : List Text
pin_line = codes "pin" ∷ codes "/fast" ∷ codes "a" ∷ []

pub mounted : a_service.mount_point ≢ []
mounted h = cc

start-Answers_example :
    Answers machine
      (codes "1.2")
      (λ s. [])
      a_service
      mounted
      (start (codes "/m") machine.join (λ path. file path) defaults (json_flag ∷ []) pin_line)
start-Answers_example =
    start-Answers machine (codes "1.2") (λ s. []) a_service mounted (codes "/m") machine.join
      (λ path. file path) defaults (json_flag ∷ []) pin_line
