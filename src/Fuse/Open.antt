-- ===== src/Fuse/Open.antt =====
-- `open`, `create` and `release` of src/impl/autotierfs/fuseOps/. `open` and `create` return the
-- descriptor that they put into `fi->fh`, for the 0 of the source.
pub mod Count
pub mod Release
use autotier.Base.{
  ℕ, Text, Bool, true, false, Option, none, some, List, [], ◌∷◌, ◌==◌, ◌&&◌, ◌/◌, ◌%◌, not, modify,
  get_elem?, if◌then◌else◌,
}
use autotier.Env.{
  Env, Outcome, ret, fail, open_file, creat, close_fd, setfsuid, setfsgid, lstat, fstat,
}
use autotier.Metadata.{Metadata, metadata_at, update, touch}
use autotier.Tier.{Tier, size_delta}
use autotier.OpenFiles.{register_open_file, release_open_file}
use autotier.Commands.{Work, oneshot, enqueue_work}
use autotier.Fuse.{
  Mount, Slot, live, dangling, Result, ok, error, crash, M, ◌>>=◌, ◌>>◌, return, fail_with, Context,
  enoent, echild,
}
use autotier.Fuse.Table.{
  insert_fd_to_path, remove_fd_to_path, fd_to_path, insert_size_at_open, remove_size_at_open,
  size_at_open,
}
use autotier.Fuse.Helpers.{
  sys, sys_minus_one, size_of, check, on_error, front_tier, is_directory, lookup_file,
  fullpath_to_tier, with_priv,
}

-- `flags & O_CREAT`.
abbrev pub has_creat : ℕ → Bool
has_creat flags = flags / 64 % 2 == 1

module _ (E : Env) (ctx : Context) where
  abbrev pub register : Text → M E Unit
  register fullpath s = (ok tt, record s { open_files = register_open_file fullpath s.open_files })

  abbrev pub unregister : Text → M E Unit
  unregister fullpath s = (ok tt, record s { open_files = release_open_file fullpath s.open_files })

  abbrev pub put_path : ℕ → Text → M E Unit
  put_path fd fullpath s =
      (ok tt, record s { fd_to_path = insert_fd_to_path fd fullpath s.fd_to_path })

  abbrev pub put_size : ℕ → ℕ → M E Unit
  put_size fd size s =
      (ok tt, record s { size_at_open = insert_size_at_open fd size s.size_at_open })

  abbrev pub put_record : Metadata E → Text → M E Unit
  put_record f path s = (ok tt, record s { db = update E f path none s.db })

  abbrev pub become_caller : M E ℕ
  become_caller = sys E (setfsuid ctx.uid) >> sys E (setfsgid ctx.gid)

  abbrev pub become_self : M E ℕ
  become_self = sys E (setfsuid ctx.own_uid) >> sys E (setfsgid ctx.own_gid)

  -- `error_out`: neither result is looked at.
  abbrev pub restore : M E Unit
  restore s =
      let (r, w) = E.call (setfsuid ctx.own_uid) s.world in
      let (q, v) = E.call (setfsgid ctx.own_gid) w in (ok tt, record s { world = v })

  -- The size before `open()`; a missing file that is to be created has size 0.
  abbrev pub size_before : ℕ → Outcome ℕ → M E ℕ
  size_before flags (ret size) = return size
  size_before flags (fail e) = if e == enoent && has_creat flags then return 0 else fail_with e

  abbrev pub open_directory : Text → ℕ → M E (ℕ × Text)
  open_directory path flags = front_tier E >>= λ t.
      sys E (open_file (E.join t.path path) flags) >>= λ fd. return (fd, E.join t.path path)

  abbrev pub open_registered : Text → ℕ → M E ℕ
  open_registered fullpath flags =
      on_error E (sys E (open_file fullpath flags) >>= λ fd. become_self >> return fd)
        (unregister fullpath)

  abbrev pub open_regular : Text → ℕ → M E (ℕ × Text)
  open_regular path flags = lookup_file E path >>= λ f.
      let fullpath = E.join f.tier_path path in
      size_of E (lstat fullpath) >>= size_before flags >>= λ size.
      register fullpath >> open_registered fullpath flags >>= λ fd.
      put_size fd size >> put_record (touch E f) path >> return (fd, fullpath)

  abbrev pub finish_open : ℕ × Text → M E ℕ
  finish_open (fd, fullpath) =
      put_path fd fullpath >> on_error E become_self (unregister fullpath) >> return fd

  unfoldable pub open_path : Text → ℕ → M E ℕ
  open_path path flags = with_priv E ctx (
      is_directory E path >>= λ dir.
      on_error E
        (become_caller
          >> (if dir then open_directory path flags else open_regular path flags)
          >>= finish_open)
        restore)

  abbrev pub create_registered : Text → Text → ℕ → Tier → M E ℕ
  create_registered path fullpath mode top = sys E (creat fullpath mode) >>= λ fd.
      (λ s. put_record (metadata_at E path s.db (some top.path)) path s)
      >> put_path fd fullpath
      >> put_size fd 0
      >> become_self
      >> return fd

  unfoldable pub create_path : Text → ℕ → M E ℕ
  create_path path mode = with_priv E ctx (
      front_tier E >>= λ top.
      let fullpath = E.join top.path path in
      on_error E
        (become_caller
          >> register fullpath
          >> on_error E (create_registered path fullpath mode top) (unregister fullpath))
        restore)

  -- A tier over its quota asks for tiering, unless the period is strict.
  unfoldable pub request_tiering : Bool → Option Tier → Work → Work
  request_tiering strict none work = work
  request_tiering strict (some t) work =
      if not strict && E.bytes_gt t.usage t.quota then enqueue_work oneshot [] work else work

  unfoldable pub account : Option ℕ → ℕ → ℕ → Mount E → Mount E
  account none old_size new_size s = s
  account (some i) old_size new_size s =
      let tiers = modify s.tiers i (size_delta E old_size new_size) in
      record s { tiers = tiers; work = request_tiering s.strict_period (get_elem? tiers i) s.work }

  -- The rest of the two `try` blocks: the file is no longer open, whatever became of its size.
  unfoldable pub forget : ℕ → Text → Mount E → Mount E
  forget fd fullpath s = record s {
    open_files = release_open_file fullpath s.open_files;
    fd_to_path = remove_fd_to_path fd s.fd_to_path;
    size_at_open = remove_size_at_open fd s.size_at_open;
  }

  abbrev pub release_sized : ℕ → Text → Option ℕ → M E ℕ
  release_sized fd fullpath none =
      (λ s. (ok tt, forget fd fullpath s)) >> sys_minus_one E (close_fd fd)
  release_sized fd fullpath (some old_size) = size_of E (fstat fd) >>= check E >>= λ new_size.
      (λ s. (
        ok tt,
        account (fullpath_to_tier fullpath s.tiers) old_size new_size (forget fd fullpath s),
      ))
      >> sys_minus_one E (close_fd fd)

  -- A descriptor without a path is only closed; a path that was freed is read.
  abbrev pub release_path : ℕ → Option Slot → M E ℕ
  release_path fd none = sys_minus_one E (close_fd fd)
  release_path fd (some dangling) = λ s. (crash, s)
  release_path fd (some (live fullpath)) =
      λ s. release_sized fd fullpath (size_at_open fd s.size_at_open) s

  unfoldable pub release : ℕ → M E ℕ
  release fd = with_priv E ctx (λ s. release_path fd (fd_to_path fd s.fd_to_path) s)
