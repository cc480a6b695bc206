-- ===== src/Client.antt =====
-- src/impl/autotier/autotier.cpp and `sanitize_paths` of src/impl/shared/tools.cpp: the command
-- line program, which sends one request to the socket server. `getopt_long` gives the options and
-- the arguments that are left.
pub mod Answered
pub mod RunPath
pub mod Session
use autotier.Base.{
  ℕ, Text, text_eq, codes, Bool, true, false, Option, none, some, List, [], ◌∷◌, ◌++◌,
  if◌then◌else◌, starts_with,
}
use autotier.Base.Format.{bool_text, endl}
use autotier.Commands.{
  Command, oneshot, pin, unpin, status, config, help, lpin, lpop, which_tier, get_command_index,
}

pub data Flag : Type 0 where
  config_file : Text → Flag
  help_flag json_flag verbose quiet version unknown : Flag

-- The options that are kept until the command is known; levels are 0, 1 and 2.
pub record Settings : Type 0 where
  pub config_path : Text
  pub json : Bool
  pub print_version : Bool
  pub log_level : ℕ

-- How `main` goes on: it exits with 0 after the usage or the version, exits with 1, or connects to
-- the server with a request.
pub data Start : Type 0 where
  shown refused : Start
  request : List Text → Start

-- What the file system says of a path, a file with its canonical path.
pub data Found : Type 0 where
  missing directory : Found
  file : Text → Found

-- The switch; `-h` exits at once.
unfoldable pub read_flags : List Flag → Settings → Option Settings
read_flags [] o = some o
read_flags (config_file path ∷ rest) o = read_flags rest (record o { config_path = path })
read_flags (help_flag ∷ rest) o = none
read_flags (json_flag ∷ rest) o = read_flags rest (record o { json = true })
read_flags (verbose ∷ rest) o = read_flags rest (record o { log_level = 2 })
read_flags (quiet ∷ rest) o = read_flags rest (record o { log_level = 0 })
read_flags (version ∷ rest) o = read_flags rest (record o { print_version = true })
read_flags (unknown ∷ rest) o = read_flags rest o

-- `current_path` is that of the process, `join` appends to a path, and `look` is `fs::exists`,
-- `fs::is_directory` and `fs::canonical`.
module _ (current_path : Text) (join : Text → Text → Text) (look : Text → Found) where
  abbrev absolute : Text → Text
  absolute path = if starts_with path (b'/' ∷ []) then path else join current_path path

  abbrev pub keep_file : Found → List Text → List Text
  keep_file missing rest = rest
  keep_file directory rest = rest
  keep_file (file canonical) rest = canonical ∷ rest

  -- The paths that stay; the others are listed in a warning.
  unfoldable pub sanitize_paths : List Text → List Text
  sanitize_paths [] = []
  sanitize_paths (path ∷ paths) = keep_file (look (absolute path)) (sanitize_paths paths)

  -- No argument, or no path that is left, is refused. `front` has the command, and the tier of a
  -- PIN.
  abbrev send_paths : List Text → List Text → Start
  send_paths front [] = refused
  send_paths front (path ∷ paths) = request (front ++ (path ∷ paths))

  unfoldable pub request_paths : List Text → List Text → Start
  unfolding sanitize_paths
  request_paths front [] = refused
  request_paths front (arg ∷ args) = send_paths front (sanitize_paths (arg ∷ args))

  -- From the command's index on.
  unfoldable pub request_for : Bool → Text → Option Command → List Text → Start
  unfolding request_paths
  request_for json name none args = refused
  request_for json name (some help) args = shown
  request_for json name (some pin) [] = refused
  request_for json name (some pin) (tier ∷ args) = request_paths (name ∷ tier ∷ []) args
  request_for json name (some unpin) args = request_paths (name ∷ []) args
  request_for json name (some which_tier) args = request_paths (name ∷ []) args
  request_for json name (some status) args = request (name ∷ (bool_text json ++ endl) ∷ [])
  request_for json name (some oneshot) args = request (name ∷ [])
  request_for json name (some config) args = request (name ∷ [])
  request_for json name (some lpin) args = request (name ∷ [])
  request_for json name (some lpop) args = request (name ∷ [])

  abbrev with_command : Bool → List Text → Start
  with_command json [] = refused
  with_command json (name ∷ args) = request_for json name (get_command_index name) args

  abbrev with_settings : Option Settings → List Text → Start
  with_settings none args = shown
  with_settings (some o) args = if o.print_version then shown else with_command o.json args

  -- `main` up to the connection.
  unfoldable pub start : Settings → List Flag → List Text → Start
  unfolding read_flags request_for
  start defaults flags args = with_settings (read_flags flags defaults) args

-- What `main` prints of the answer, and whether it exits with 0; the front of no answer is not
-- defined.
unfoldable pub print_answer : List Text → Option (Bool × List Text)
print_answer [] = none
print_answer (first ∷ messages) = some (text_eq first (codes "OK"), messages)
