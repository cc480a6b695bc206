-- ===== src/Tests/Sessions.antt =====
-- The theorems on a run of the command line program with the server at concrete arguments.
use autotier.Base.{refl, codes, text_eq, starts_with, true, some, [], ◌∷◌, ◌≡◌}
use autotier.Commands.{pin, get_command_index, find_command}
use autotier.Adhoc.{tier_by_id}
use autotier.Client.{file, json_flag, read_flags, sanitize_paths}
use autotier.Client.Session.{
  connected, session, IsQueued, kept, no_path, job_of, pins, session-IsQueued,
}
use autotier.Metadata.{strip_slash}
use autotier.Regex.{regex_match, deriv, nullable}
use autotier.Tests.Machine.{machine}
use autotier.Tests.Jobs.{a_service}
use autotier.Tests.Program.{defaults, mounted, pin_line}

pin_word : get_command_index (codes "pin") ≡ some pin
unfolding get_command_index find_command regex_match deriv nullable
pin_word = refl

session-IsQueued_example :
    IsQueued machine
      (codes "1.2")
      (λ s. [])
      (codes "/m")
      machine.join
      (λ path. file path)
      (job_of machine
        (codes "1.2")
        (λ s. [])
        (codes "/m")
        machine.join
        (λ path. file path)
        pin
        (codes "/fast" ∷ codes "/m/a" ∷ []))
      (codes "/m/a" ∷ [])
      a_service
      (session machine
        (codes "1.2")
        (λ s. [])
        (codes "/m")
        machine.join
        (λ path. file path)
        (codes "/run")
        connected
        defaults
        (json_flag ∷ [])
        pin_line
        a_service)
unfolding read_flags sanitize_paths starts_with tier_by_id text_eq strip_slash
session-IsQueued_example =
    session-IsQueued machine (codes "1.2") (λ s. []) (codes "/m") machine.join (λ path. file path)
      (codes "/run") defaults (record defaults { json = true }) (json_flag ∷ []) (codes "pin")
      a_service (λ h. cc) mounted refl refl (codes "a") [] (codes "/m/a") []
      (pins (codes "/fast") _ pin_word refl) (kept refl no_path)
