-- ===== src/Setup.antt =====
-- What the engine does to its directory before it serves: `create_run_path` of
-- src/impl/autotierfs/TierEngine/components/base.cpp, `set_socket_permissions` of adhoc.cpp and the
-- lock file of mutex.cpp, both in that directory. `group` is the id of the group autotier, if there
-- is one. The changes of the umask around `chmod` are left out.
use autotier.Base.{ℕ, ◌-◌, ◌^◌, Text, codes, Option, none, some, ◌==◌, if◌then◌else◌}
use autotier.Env.{
  Env, Outcome, ret, fail, access, create_directories, chmod, chown, stat, Stat, open_file,
  close_fd, remove,
}

-- The result 0, the result -1, and an exception that nothing catches.
pub data Created : Type 0 where
  created not_created uncaught : Created

-- 0775, and the id -1 that leaves the owner as it is.
abbrev run_mode : ℕ
run_mode = 509

abbrev same_owner : ℕ
same_owner = 2 ^ 32 - 1

module _ (E : Env) where
  open E use {World, join, call, stat_call}

  abbrev answer : Outcome ℕ × World → Created × World
  answer (ret n, w) = (created, w)
  answer (fail e, w) = (not_created, w)

  unfoldable pub set_group : Option ℕ → Text → Stat → World → Created × World
  set_group none path st w = (created, w)
  set_group (some gid) path st w =
      if st.st_gid == gid then (created, w) else answer (call (chown path same_owner gid) w)

  abbrev after_chmod : Option ℕ → Text → Stat → Outcome ℕ × World → Created × World
  after_chmod group path st (fail e, w) = (not_created, w)
  after_chmod group path st (ret n, w) = set_group group path st w

  -- The mode is compared with its file type bits.
  abbrev with_stat : Option ℕ → Text → Outcome Stat × World → Created × World
  with_stat group path (fail e, w) = (not_created, w)
  with_stat group path (ret st, w) =
      if st.st_mode == run_mode
      then set_group group path st w
      else after_chmod group path st (call (chmod path run_mode) w)

  unfoldable pub check_run_path : Option ℕ → Text → World → Created × World
  unfolding set_group
  check_run_path group path w = with_stat group path (stat_call (stat path) w)

  -- `create_directories` throws a `filesystem_error`, and the handler is for an `error_code`.
  abbrev after_create : Option ℕ → Text → Outcome ℕ × World → Created × World
  after_create group path (fail e, w) = (uncaught, w)
  after_create group path (ret n, w) = check_run_path group path w

  abbrev after_access : Option ℕ → Text → Outcome ℕ × World → Created × World
  after_access group path (ret n, w) = check_run_path group path w
  after_access group path (fail e, w) = after_create group path (call (create_directories path) w)

  unfoldable pub create_run_path : Option ℕ → Text → World → Created × World
  unfolding check_run_path
  create_run_path group path w = after_access group path (call (access path 0) w)

  -- Failures are warned about only.
  unfoldable pub set_socket_permissions : Option ℕ → Text → World → World
  set_socket_permissions none run_path w = w
  set_socket_permissions (some gid) run_path w =
      let socket = join run_path (codes "adhoc.socket") in
      (call (chmod socket run_mode) (call (chown socket same_owner gid) w).1).1

  abbrev lock_path : Text → Text
  lock_path run_path = join run_path (codes "autotier.lock")

  -- O_CREAT | O_EXCL; the descriptor, or -1, is closed at once.
  unfoldable pub lock_mutex : Text → World → Outcome ℕ × World
  lock_mutex run_path w =
      let (fd, w1) = call (open_file (lock_path run_path) 192) w in
      (fd, elim fd [ ret n ↦ (call (close_fd n) w1).1 | fail e ↦ w1 ])

  unfoldable pub unlock_mutex : Text → World → Outcome ℕ × World
  unlock_mutex run_path w = call (remove (lock_path run_path)) w
