-- ===== src/Fuse/Data.antt =====
-- The callbacks on an open file's data: `read`, `write`, `lseek`, `flush` and `fsync` of
-- src/impl/autotierfs/fuseOps/, and `write_buf` and `read_buf`, which hand libfuse's buffers on.
pub mod Retry
use autotier.Base.{
  ℕ, zero, suc, Text, Bool, true, false, Option, none, some, List, [], ◌∷◌, ◌==◌, if◌then◌else◌,
}
use autotier.Env.{Env, Outcome, ret, fail, open_file, lseek, dup, close_fd, fsync, fdatasync}
use autotier.Metadata.{Metadata, metadata_at}
use autotier.Commands.{oneshot, enqueue_work}
use autotier.Fuse.{
  Mount, Result, ok, error, crash, M, ◌>>=◌, ◌>>◌, return, fail_with, Context, enoent, echild,
}
use autotier.Fuse.Helpers.{sys, check, lookup_file, try_sys, with_world}

abbrev pub enospc : ℕ
enospc = 28

abbrev pub enomem : ℕ
enomem = 12

-- A buffer that is a part of an open file.
pub record BufVec : Type 0 where
  pub size : ℕ
  pub fd : ℕ
  pub pos : ℕ

-- What one attempt leads to: a result, or another attempt after tiering.
pub data Attempt : Type 0 where
  done : Result ℕ → Attempt
  again : Attempt

-- `others` is what the rest of the program does while a write waits for tiering to end.
module _ (E : Env) (ctx : Context) (others : Mount E → Mount E) where
  open E use {pread, pwrite}

  unfoldable pub read_at : ℕ → ℕ → ℕ → M E (List ℕ)
  read_at fd size offset s =
      let (r, w) = pread fd size offset s.world in check E r (with_world E s w)

  unfoldable pub ask_tiering : Mount E → Mount E
  ask_tiering s = record s { work = enqueue_work oneshot [] s.work }

  unfoldable pub after_pwrite : Bool → Outcome ℕ → Attempt
  after_pwrite strict (ret n) = done (ok n)
  after_pwrite strict (fail e) =
      if e == enospc
      then (if ctx.has_priv then (if strict then done (error e) else again) else done (error e))
      else done (error e)

  -- `none` is a write that still waits after as many attempts as the fuel.
  unfoldable pub settle :
      (Mount E → Option (Result ℕ) × Mount E) → Attempt → Mount E → Option (Result ℕ) × Mount E
  settle next (done r) s = (some r, s)
  settle next again s = next (others (ask_tiering s))

  unfoldable pub write_at : ℕ → ℕ → List ℕ → ℕ → Mount E → Option (Result ℕ) × Mount E
  write_at zero fd bytes offset s = (none, s)
  write_at (suc fuel) fd bytes offset s =
      let (r, w) = pwrite fd bytes offset s.world in
      settle (write_at fuel fd bytes offset) (after_pwrite s.strict_period r) (with_world E s w)

  -- `write_buf`: the same loop, where `fuse_buf_copy` to a descriptor at an offset takes the place
  -- of `pwrite`, and its negative results are errors.
  unfoldable pub write_buffer :
      (ℕ → ℕ → E.World → Outcome ℕ × E.World) → ℕ → ℕ → ℕ → Mount E → Option (Result ℕ) × Mount E
  write_buffer buf_copy zero fd offset s = (none, s)
  write_buffer buf_copy (suc fuel) fd offset s =
      let (r, w) = buf_copy fd offset s.world in
      settle (write_buffer buf_copy fuel fd offset) (after_pwrite s.strict_period r)
        (with_world E s w)

  -- `read_buf`: libfuse reads itself; `allocated` is whether `malloc` gives the buffer.
  unfoldable pub read_buffer : Bool → ℕ → ℕ → ℕ → M E BufVec
  read_buffer allocated fd size offset =
      if allocated then return (record { size = size; fd = fd; pos = offset }) else fail_with enomem

  -- A descriptor that it opened is closed again, whatever the seek gave.
  abbrev close_after : ℕ → Outcome ℕ → M E ℕ
  close_after fd res = try_sys E (close_fd fd) >>= λ r. check E res

  unfoldable pub seek : Text → ℕ → ℕ → Option ℕ → M E ℕ
  seek path off whence (some fh) = sys E (lseek fh off whence)
  seek path off whence none =
      if ctx.has_priv
      then (lookup_file E path >>= λ f. sys E (open_file (E.join f.tier_path path) 0) >>= λ fd.
          try_sys E (lseek fd off whence) >>= close_after fd)
      else fail_with echild

  unfoldable pub flush : ℕ → M E ℕ
  flush fd = sys E (dup fd) >>= λ copy. sys E (close_fd copy)

  unfoldable pub sync : ℕ → Bool → M E ℕ
  sync fd isdatasync = sys E (if isdatasync then fdatasync fd else fsync fd) >> return 0
