-- ===== src/Logger.antt =====
-- `Logger` of src/impl/shared/alert.cpp: what is printed, and sizes for people.
use autotier.Base.{ℕ, Text, codes, List, [], ◌∷◌, ◌++◌, ◌==◌, leb, ltb, if◌then◌else◌, get_elem?}
use autotier.Base.Format.{endl}
use autotier.Env.{Env}
use mathlib.Core.Option

pub data Output : Type 0 where
  std syslog : Output

-- Log levels are numbers: 0 for NONE, 1 for NORMAL, 2 for DEBUG.
pub record Logger : Type 0 where
  pub log_level : ℕ
  pub output : Output

-- Where a line goes; the system log with its priority.
pub data Line : Type 0 where
  to_stdout to_stderr : Text → Line
  to_syslog : ℕ → Text → Line

abbrev log_alert : ℕ
log_alert = 1

abbrev log_warning : ℕ
log_warning = 4

abbrev log_info : ℕ
log_info = 6

abbrev message_line : Output → Text → Line
message_line std msg = to_stdout (msg ++ endl)
message_line syslog msg = to_syslog log_info msg

unfoldable pub message : Text → ℕ → Logger → List Line
message msg lvl l = if leb lvl l.log_level then message_line l.output msg ∷ [] else []

abbrev labelled_line : ℕ → Text → Output → Text → Line
labelled_line priority label std msg = to_stderr (label ++ (msg ++ endl))
labelled_line priority label syslog msg = to_syslog priority msg

unfoldable pub warning : Text → Logger → List Line
warning msg l = labelled_line log_warning (codes "Warning: ") l.output msg ∷ []

unfoldable pub error : Text → Logger → List Line
error msg l = labelled_line log_alert (codes "Error: ") l.output msg ∷ []

unfoldable pub set_level : ℕ → Logger → Logger
set_level log_level l = record l { log_level = log_level }

unfoldable pub set_output : Output → Logger → Logger
set_output output l = record l { output = output }

abbrev pub units : List Text
units =
    codes "B"
    ∷ codes "KiB"
    ∷ codes "MiB"
    ∷ codes "GiB"
    ∷ codes "TiB"
    ∷ codes "PiB"
    ∷ codes "EiB"
    ∷ codes "ZiB"
    ∷ codes "YiB"
    ∷ []

module _ (E : Env) where
  open E use {Double, of_count, literal, over, log, power, truncated, show_fixed}

  abbrev unit_index : ℕ → ℕ
  unit_index bytes =
      let i = truncated (over (log (of_count bytes)) (log (literal 1024 0))) in
      if ltb 8 i then 8 else i

  -- `format_bytes` with a unit: the number and `unit`.
  unfoldable pub format_bytes : ℕ → Double × Text
  format_bytes bytes = if bytes == 0 then (literal 0 0, codes "B") else (
    over (of_count bytes) (power (literal 1024 0) (unit_index bytes)),
    Option.get_or (get_elem? units (unit_index bytes)) [],
  )

  unfoldable pub bytes_with_unit : ℕ → Text
  unfolding format_bytes
  bytes_with_unit bytes =
      if bytes == 0
      then codes "0 B"
      else (let (formatted, unit) = format_bytes bytes in show_fixed 2 formatted ++ (b' ' ∷ unit))
