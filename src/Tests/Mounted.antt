-- ===== src/Tests/Mounted.antt =====
-- The theorems on the FUSE callbacks at a concrete mount.
use autotier.Base.{
  text_eq, ◌≤◌, if◌then◌else◌, List, ℕ, inl, ◌≡◌, refl, codes, true, false, none, some, [], ◌∷◌,
  arith,
}
use autotier.Base.Dict.{lookup}
use autotier.Env.{ret}
use autotier.Metadata.{metadata_at, strip_slash, deserialize}
use autotier.Commands.{oneshot, pin}
use autotier.Commands.Oneshot.{Event, enqueued, taken, oneshots, run, no_work, oneshots-run}
use autotier.Queue.{empty_queue}
use autotier.Fuse.{Mount, live, ok, Context}
use autotier.Fuse.Table.{find_fd, fd_to_path}
use autotier.Fuse.Helpers.{tier_lookup}
use autotier.Fuse.Rules.{Post}
use autotier.Fuse.Names.{unlink_file, rename_path}
use autotier.Fuse.Names.Removal.{Gone, HasDb, unlink_file-record}
use autotier.Fuse.Names.Renaming.{Accepts, Renamed, rename_path-record}
use autotier.Fuse.Open.{create_path, release}
use autotier.Fuse.Open.Count.{CountsMore, CountsAs, create_path-count}
use autotier.Fuse.Open.Release.{Forgotten, Left, release-forgets}
use autotier.Fuse.Data.{write_at, ask_tiering}
use autotier.Fuse.Data.Retry.{at_once, full, write_at-Waits}
use autotier.Tests.Machine.{machine, start, machine-IsStore}
use autotier.Tests.Plan.{tier_at, two_tiers}

abbrev pub a_context : Context
a_context = record { uid = 1000; gid = 1000; has_priv = true; own_uid = 0; own_gid = 0 }

-- The file `a` is in the first tier and open as descriptor 5.
abbrev pub a_mount : Mount machine
a_mount = record {
  tiers = two_tiers;
  db = (codes "a", 3 ∷ 9 ∷ 0 ∷ codes "/fast") ∷ [];
  open_files = (codes "/fast/a", 1) ∷ [];
  work = record { adhoc_work = empty_queue; oneshot_in_queue = false };
  strict_period = false;
  fd_to_path = (5, live (codes "/fast/a")) ∷ [];
  size_at_open = (5, 7) ∷ [];
  world = start;
}

unlink_file-record_example :
    Post machine
      (Gone machine machine-IsStore a_context (codes "a"))
      (HasDb machine machine-IsStore a_context a_mount.db)
      (unlink_file machine a_context (codes "/a") a_mount)
unfolding tier_lookup metadata_at strip_slash deserialize lookup text_eq
unlink_file-record_example =
    unlink_file-record machine machine-IsStore a_context (codes "a") a_mount (λ h. cc)

pub machine-Accepts : Accepts machine
machine-Accepts d ops h = cc

rename_path-record_example :
    Post machine
      (Renamed machine machine-IsStore machine-Accepts a_context
        (codes "/a")
        (codes "/b")
        (metadata_at machine (codes "/a") a_mount.db none))
      (λ t. t.db ≡ a_mount.db)
      (rename_path machine a_context (codes "/a") (codes "/b") 0 a_mount)
unfolding strip_slash text_eq
rename_path-record_example =
    rename_path-record machine machine-IsStore machine-Accepts a_context (codes "/a") (codes "/b") 0
      a_mount (tier_at (codes "/fast") 10 6) (tier_at (codes "/slow") 100 4 ∷ []) start refl refl
      (λ h. ground arith)

create_path-count_example :
    Post machine
      (λ (n : ℕ). CountsMore machine a_context (codes "/fast/b") a_mount.open_files)
      (CountsAs machine a_context a_mount.open_files)
      (create_path machine a_context (codes "/b") 420 a_mount)
unfolding strip_slash
create_path-count_example =
    create_path-count machine a_context (codes "/b") 420 a_mount (tier_at (codes "/fast") 10 6)
      (tier_at (codes "/slow") 100 4 ∷ []) refl

release-forgets_example :
    Post machine
      (λ (n : ℕ). Forgotten machine a_context 5 (codes "/fast/a") a_mount.open_files)
      (Left machine a_context 5 (codes "/fast/a") a_mount.open_files)
      (release machine a_context 5 a_mount)
unfolding fd_to_path find_fd
release-forgets_example = release-forgets machine a_context 5 (codes "/fast/a") a_mount refl

-- Tiering makes room.
abbrev make_room : Mount machine → Mount machine
make_room s = record s { world = record start { free = true } }

abbrev after_tiering : Mount machine
after_tiering = make_room (ask_tiering machine a_context make_room a_mount)

write_at-Waits_example :
    write_at machine a_context make_room 2 5 (1 ∷ 2 ∷ []) 0 a_mount ≡ (some (ok 2), after_tiering)
unfolding ask_tiering
write_at-Waits_example =
    write_at-Waits machine a_context make_room 5 (1 ∷ 2 ∷ []) 0 1 a_mount after_tiering 2 (ret 2) _
      refl (full _ _ _ _ refl refl (at_once _)) (omega arith) refl (inl (λ h. cc))

abbrev jobs : List Event
jobs =
    enqueued oneshot [] ∷ enqueued oneshot [] ∷ enqueued pin [] ∷ taken ∷ enqueued oneshot [] ∷ []

oneshots-run_example :
    (oneshots (run jobs no_work).adhoc_work.queue ≤ 1)
    × (oneshots (run jobs no_work).adhoc_work.queue
        ≡ (if (run jobs no_work).oneshot_in_queue then 1 else 0))
oneshots-run_example = oneshots-run jobs
