-- ===== src/Copy.antt =====
-- `Tier::move_file` of src/impl/autotierfs/tier.cpp: a file is copied to a hidden name in the new
-- tier, the original is removed, and the copy is renamed. The copying loop repeats for as long as
-- the tier is out of space, so it takes fuel; `none` means that the fuel ran out.
pub mod Content
pub mod Safety
pub mod Total
pub mod Waiting
use autotier.Base.{
  ◌≢◌, ℕ, zero, suc, ◌+◌, ◌-◌, ◌%◌, ◌^◌, Text, codes, Bool, true, false, ◌||◌, Option, none, some,
  List, [], ◌∷◌, ◌++◌, length, ltb, ◌==◌, if◌then◌else◌,
}
use autotier.Env.{
  Env, Syscall, Outcome, ret, fail, stat, open_file, close_fd, lseek, rename, remove, exists,
  is_directory, create_directories, chown, chmod,
}

abbrev pub enospc : ℕ
enospc = 28

abbrev pub seek_set : ℕ
seek_set = 0

abbrev pub o_rdonly : ℕ
o_rdonly = 0

-- `O_WRONLY | O_CREAT | O_EXCL | O_TRUNC`.
abbrev pub o_new_file : ℕ
o_new_file = 0o1 + 0o100 + 0o200 + 0o1000

-- `res = lseek(..)` with an `int res`, compared with -1: the offset is cut to 32 bits.
unfoldable pub seek_failed : Outcome ℕ → Bool
seek_failed (fail e) = true
seek_failed (ret offset) = offset % 2 ^ 32 == 2 ^ 32 - 1

-- `(bytes_written == -1 && errno == ENOSPC) || bytes_written < bytes_read`, where -1 is less than
-- any count.
unfoldable pub ran_out : Outcome ℕ → ℕ → Bool
ran_out (fail e) bytes_read = e == enospc || true
ran_out (ret bytes_written) bytes_read = ltb bytes_written bytes_read

-- `if (bytes_written != -1) offset += bytes_written`.
unfoldable pub advance : Outcome ℕ → ℕ → ℕ
advance (fail e) offset = offset
advance (ret bytes_written) offset = offset + bytes_written

module _ (E : Env) where
  open E use {World, call, read, write, stat_call, join, parent_path, filename}

  module _ (source_fd dest_fd buff_sz : ℕ) where
    -- Both files are set to the offset; `none` is the jump to `copy_error_out`.
    unfoldable pub seek_both : ℕ → World → Option ℕ × World
    seek_both offset w =
        let (res, w1) = call (lseek source_fd offset seek_set) w in
        let (res', w2) = call (lseek dest_fd offset seek_set) w1 in
        if seek_failed res
        then (none, w1)
        else if seek_failed res'
        then (none, w2)
        else (some offset, w2)

    -- What follows a write: the new offset and `out_of_space`, or the jump.
    unfoldable pub after_write : Outcome ℕ → ℕ → ℕ → World → Option (ℕ × Bool) × World
    after_write bytes_written bytes_read offset w =
        if ran_out bytes_written bytes_read
        then (let (res, w1) = seek_both (advance bytes_written offset) w in
            (elim res [ none ↦ none | some o ↦ some (o, true) ], w1))
        else elim bytes_written [
          | fail e ↦ (none, w)
          | ret n ↦ (if n == bytes_read then some (offset + n, false) else none, w)
        ]

    -- The rest of a round, where `again` is the next one. The inner loop ends when nothing is left
    -- to read, the outer one if `out_of_space` is not set then.
    unfoldable pub proceed :
        (ℕ → Bool → World → Option (Bool × World))
        → Option (ℕ × Bool) × World
        → Option (Bool × World)
    proceed again (none, w) = some (false, w)
    proceed again (some (offset, out_of_space), w) = again offset out_of_space w

    unfoldable pub after_read :
        (ℕ → Bool → World → Option (Bool × World))
        → Outcome (List ℕ)
        → ℕ
        → Bool
        → World
        → Option (Bool × World)
    after_read again (fail e) offset out_of_space w = some (false, w)
    after_read again (ret []) offset true w = again offset true w
    after_read again (ret []) offset false w = some (true, w)
    after_read again (ret (b ∷ bs)) offset out_of_space w =
        let (bytes_written, w') = write dest_fd (b ∷ bs) w in
        proceed again (after_write bytes_written (length (b ∷ bs)) offset w')

    -- The two nested loops; the result is whether they end without a jump.
    unfoldable pub copy_loop : ℕ → ℕ → Bool → World → Option (Bool × World)
    copy_loop zero offset out_of_space w = none
    copy_loop (suc fuel) offset out_of_space w =
        let (bytes_read, w') = read source_fd buff_sz w in
        after_read (copy_loop fuel) bytes_read offset out_of_space w'

  -- `Tier::copy_ownership_and_perms`.
  unfoldable pub copy_ownership_and_perms : Text → Text → World → World
  copy_ownership_and_perms old_path new_path w =
      let (info, w1) = stat_call (stat old_path) w in
      elim info [
        | fail e ↦ w1
        | ret st ↦
            (call (chmod new_path st.st_mode) (call (chown new_path st.st_uid st.st_gid) w1).1).1
      ]

-- How `move_file` ends: `true` with `*conflicted`, `false`, an exception of Boost's calls,
-- or fuel that ran out.
pub data Moved : Type 0 where
  moved : Bool → Moved
  copy_failed thrown no_fuel : Moved

module _ (E : Env) where
  open E use {World, call, join, parent_path, filename}

  unfoldable pub tmp_path : Text → Text
  tmp_path new_path =
      join (parent_path new_path) (codes "." ++ (filename new_path ++ codes ".autotier.hide"))

  unfoldable pub conflict_path : Text → Text → Text
  conflict_path new_path orig_tier = new_path ++ (codes ".autotier_conflict." ++ orig_tier)

  -- A `boost::filesystem` call that throws when it fails.
  unfoldable pub or_throw : Outcome ℕ × World → (ℕ → World → Moved × World) → Moved × World
  or_throw (ret n, w) k = k n w
  or_throw (fail e, w) k = (thrown, w)

  -- From `if (copy_success)` on.
  unfoldable pub finish_move : Text → Text → Text → World → Moved × World
  finish_move old_path new_path orig_tier w =
      let w1 = copy_ownership_and_perms E old_path (tmp_path new_path) w in
      or_throw (call (remove old_path) w1) λ _ w2. or_throw (call (exists new_path) w2) λ there w3.
        if there == 0
        then or_throw (call (rename (tmp_path new_path) new_path) w3) (λ _ w4. (moved false, w4))
        else or_throw (call (rename (tmp_path new_path) (conflict_path new_path orig_tier)) w3)
            λ _ w4. (moved true, w4)

  -- A system call whose failure jumps to `copy_error_out`.
  unfoldable pub or_fail : Outcome ℕ × World → (ℕ → World → Moved × World) → Moved × World
  or_fail (ret n, w) k = k n w
  or_fail (fail e, w) k = (copy_failed, w)

  -- What follows the copying loop.
  unfoldable pub after_copy :
      Option (Bool × World) → World → (World → Moved × World) → Moved × World
  after_copy none w k = (no_fuel, w)
  after_copy (some (false, w')) w k = (copy_failed, w')
  after_copy (some (true, w')) w k = k w'

  unfoldable pub move_file : ℕ → Text → Text → ℕ → Text → World → Moved × World
  move_file fuel old_path new_path buff_sz orig_tier w =
      or_throw (call (is_directory (parent_path new_path)) w) λ dir w1.
        or_throw (make_parent dir w1) λ _ w2.
          or_fail (call (open_file old_path o_rdonly) w2) λ source_fd w3.
            or_fail (call (open_file (tmp_path new_path) o_new_file) w3) λ dest_fd w4.
              after_copy (copy_loop E source_fd dest_fd buff_sz fuel 0 false w4) w4 λ w5.
                or_fail (call (close_fd source_fd) w5) λ _ w6.
                  or_fail (call (close_fd dest_fd) w6)
                    λ _ w7. finish_move old_path new_path orig_tier w7
    where
      make_parent : ℕ → World → Outcome ℕ × World
      make_parent dir w1 =
          if dir == 0 then call (create_directories (parent_path new_path)) w1 else (ret 0, w1)

-- With the fuel each copy ends: it is done, it fails, or it throws.
unfoldable pub CopiesEnd : Env → ℕ → Type 0
CopiesEnd E copy_fuel =
    (old_path new_path : Text) (buff_sz : ℕ) (orig_tier : Text) (w : E.World)
    → (move_file E copy_fuel old_path new_path buff_sz orig_tier w).0 ≢ no_fuel
