-- ===== src/Adhoc/Server.antt =====
-- `process_adhoc_requests` of src/impl/autotierfs/TierEngine/components/adhoc.cpp: one request to
-- the socket server, with the strings that were received. `none` is a request without a defined
-- result, or one that ends the program. Errors of the socket leave the state as it is.
use autotier.Base.{Text, codes, Option, none, some, List, [], ◌∷◌}
use autotier.Env.{Env}
use autotier.Commands.{
  Command, oneshot, pin, unpin, status, config, help, lpin, lpop, which_tier, AdHoc, Work,
  parse_work,
}
use autotier.Adhoc.{Service, Reply, err, process_oneshot, process_pin, process_unpin}
use autotier.Adhoc.Listing.{process_list_pins, process_list_popularity, process_which_tier}
use autotier.Adhoc.Status.{process_status}

-- `version` is the macro VERS, and `dump` what `config_.dump` writes.
module _ (E : Env) (version : Text) (dump : Service E → Text) where
  unfoldable pub process_config : Service E → Reply
  process_config s = codes "OK" ∷ dump s ∷ []

  abbrev not_a_command : Reply
  not_a_command = err (codes "Not a command.")

  abbrev pub with_work : Service E → Option (Reply × Work) → Option (Reply × Service E)
  with_work s none = none
  with_work s (some (reply, work)) = some (reply, record s { work = work })

  -- The `switch`.
  unfoldable pub dispatch : Option Command → AdHoc → Service E → Option (Reply × Service E)
  unfolding process_config
  dispatch (some oneshot) work s = with_work s (some (process_oneshot E work s))
  dispatch (some pin) work s = with_work s (process_pin E work work.args s)
  dispatch (some unpin) work s = with_work s (process_unpin E work s)
  dispatch (some status) work s = process_status E version work.args s
  dispatch (some config) work s = some (process_config s, s)
  dispatch (some lpin) work s = some (process_list_pins E s, s)
  dispatch (some lpop) work s = some (process_list_popularity E s, s)
  dispatch (some which_tier) work s = some (process_which_tier E work.args s, s)
  dispatch (some help) work s = some (not_a_command, s)
  dispatch none work s = some (not_a_command, s)

  abbrev pub dispatch_work : Option AdHoc → Service E → Option (Reply × Service E)
  dispatch_work none s = none
  dispatch_work (some work) s = dispatch work.cmd work s

  unfoldable pub process_request : List Text → Service E → Option (Reply × Service E)
  unfolding dispatch
  process_request payload s = dispatch_work (parse_work payload) s
