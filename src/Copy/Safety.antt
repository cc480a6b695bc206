-- ===== src/Copy/Safety.antt =====
-- A failed move leaves the original.
use autotier.Base.{
  ℕ, zero, suc, Text, Bool, true, false, Option, none, some, List, [], ◌∷◌, if_both, ◌==◌,
  if◌then◌else◌,
}
use autotier.Env.{
  Env, Syscall, Outcome, ret, fail, is_directory, create_directories, open_file, close_fd, lseek,
}
use autotier.Copy.{
  Moved, moved, copy_failed, thrown, no_fuel, seek_set, seek_failed, ran_out, proceed, after_read,
  seek_both, after_write, copy_loop, finish_move, or_throw, or_fail, after_copy, move_file,
}

-- The calls that `move_file` makes before the copy is complete: none of them takes a name away.
pub data IsHarmless : Syscall → Type 0 where
  is_directory_call : (path : Text) → IsHarmless (is_directory path)
  create_directories_call : (path : Text) → IsHarmless (create_directories path)
  open_call : (path : Text) (flags : ℕ) → IsHarmless (open_file path flags)
  close_call : (fd : ℕ) → IsHarmless (close_fd fd)
  lseek_call : (fd offset whence : ℕ) → IsHarmless (lseek fd offset whence)

-- A property of the world that those calls, reads and writes keep, such as that a name exists.
pub record Keeps (E : Env) (P : E.World → Type 0) : Type 0 where
  pub kept_by_call : (c : Syscall) (w : E.World) → IsHarmless c → P w → P (E.call c w).1
  pub kept_by_read : (fd n : ℕ) (w : E.World) → P w → P (E.read fd n w).1
  pub kept_by_write : (fd : ℕ) (bytes : List ℕ) (w : E.World) → P w → P (E.write fd bytes w).1

module _ (E : Env) (P : E.World → Type 0) (K : Keeps E P) where
  open E use {World, call, read, write}

  -- The property at the end, where the copy failed or did not end.
  abbrev pub IfFailed : Moved × World → Type 0
  IfFailed (copy_failed, w) = P w
  IfFailed (no_fuel, w) = P w
  IfFailed (moved conflicted, w) = Unit
  IfFailed (thrown, w) = Unit

  or_throw-IfFailed :
      (r : Outcome ℕ × World) (k : ℕ → World → Moved × World)
      → P r.1
      → ((n : ℕ) (w : World) → P w → IfFailed (k n w))
      → IfFailed (or_throw E r k)
  unfolding or_throw
  or_throw-IfFailed (ret n, w) k p h = h n w p
  or_throw-IfFailed (fail e, w) k p h = tt

  or_fail-IfFailed :
      (r : Outcome ℕ × World) (k : ℕ → World → Moved × World)
      → P r.1
      → ((n : ℕ) (w : World) → P w → IfFailed (k n w))
      → IfFailed (or_fail E r k)
  unfolding or_fail
  or_fail-IfFailed (ret n, w) k p h = h n w p
  or_fail-IfFailed (fail e, w) k p h = p

  -- Without a premise, where nothing fails any more.
  or_throw_total :
      (r : Outcome ℕ × World) (k : ℕ → World → Moved × World)
      → ((n : ℕ) (w : World) → IfFailed (k n w))
      → IfFailed (or_throw E r k)
  unfolding or_throw
  or_throw_total (ret n, w) k h = h n w
  or_throw_total (fail e, w) k h = tt

  finish_move-IfFailed :
      (old_path new_path orig_tier : Text) (w : World)
      → IfFailed (finish_move E old_path new_path orig_tier w)
  unfolding finish_move
  finish_move-IfFailed old_path new_path orig_tier w = or_throw_total _ _ λ n w2.
      or_throw_total _ _ λ there w3.
        if_both IfFailed (there == 0) (or_throw_total _ _ (λ m w4. tt))
          (or_throw_total _ _ (λ m w4. tt))

  abbrev OfLoop : Option (Bool × World) → Type 0
  OfLoop none = Unit
  OfLoop (some (done, w)) = P w

  module _ (source_fd dest_fd buff_sz : ℕ) where
    seek_both-Keeps :
        (offset : ℕ) (w : World) → P w → P (seek_both E source_fd dest_fd buff_sz offset w).1
    unfolding seek_both
    seek_both-Keeps offset w p =
        if_both (λ (r : Option ℕ × World). P r.1) (seek_failed _) first
          (if_both (λ (r : Option ℕ × World). P r.1) (seek_failed _) second second)
      where
        first : P (call (lseek source_fd offset seek_set) w).1
        first = K.kept_by_call _ w (lseek_call source_fd offset seek_set) p

        second :
            P (call (lseek dest_fd offset seek_set) (call (lseek source_fd offset seek_set) w).1).1
        second = K.kept_by_call _ _ (lseek_call dest_fd offset seek_set) first

    after_write-Keeps :
        (o : Outcome ℕ) (n offset : ℕ) (w : World)
        → P w
        → P (after_write E source_fd dest_fd buff_sz o n offset w).1
    unfolding after_write
    after_write-Keeps (fail e) n offset w p =
        if_both (λ (r : Option (ℕ × Bool) × World). P r.1) (ran_out (fail e) n)
          (seek_both-Keeps _ w p) p
    after_write-Keeps (ret m) n offset w p =
        if_both (λ (r : Option (ℕ × Bool) × World). P r.1) (ran_out (ret m) n)
          (seek_both-Keeps _ w p) p

    proceed-OfLoop :
        (again : ℕ → Bool → World → Option (Bool × World)) (r : Option (ℕ × Bool) × World)
        → ((offset : ℕ) (full : Bool) (w : World) → P w → OfLoop (again offset full w))
        → P r.1
        → OfLoop (proceed E source_fd dest_fd buff_sz again r)
    unfolding proceed
    proceed-OfLoop again (none, w) h p = p
    proceed-OfLoop again (some (offset, full), w) h p = h offset full w p

    after_read-OfLoop :
        (again : ℕ → Bool → World → Option (Bool × World)) (r : Outcome (List ℕ)) (offset : ℕ)
        (full : Bool) (w : World)
        → ((offset : ℕ) (full : Bool) (w : World) → P w → OfLoop (again offset full w))
        → P w
        → OfLoop (after_read E source_fd dest_fd buff_sz again r offset full w)
    unfolding after_read
    after_read-OfLoop again (fail e) offset full w h p = p
    after_read-OfLoop again (ret []) offset true w h p = h offset true w p
    after_read-OfLoop again (ret []) offset false w h p = p
    after_read-OfLoop again (ret (b ∷ bs)) offset full w h p =
        proceed-OfLoop again _ h
          (after_write-Keeps _ _ offset _ (K.kept_by_write dest_fd (b ∷ bs) w p))

    copy_loop-OfLoop :
        (fuel offset : ℕ) (full : Bool) (w : World)
        → P w
        → OfLoop (copy_loop E source_fd dest_fd buff_sz fuel offset full w)
    unfolding copy_loop
    copy_loop-OfLoop zero offset full w p = tt
    copy_loop-OfLoop (suc fuel) offset full w p =
        after_read-OfLoop _ _ offset full _ (copy_loop-OfLoop fuel)
          (K.kept_by_read source_fd buff_sz w p)

  after_copy-IfFailed :
      (r : Option (Bool × World)) (w : World) (k : World → Moved × World)
      → P w
      → OfLoop r
      → ((w : World) → P w → IfFailed (k w))
      → IfFailed (after_copy E r w k)
  unfolding after_copy
  after_copy-IfFailed none w k p q h = p
  after_copy-IfFailed (some (false, w')) w k p q h = q
  after_copy-IfFailed (some (true, w')) w k p q h = h w' q

  make_parent-Keeps :
      (dir : ℕ) (path : Text) (w : World)
      → P w
      → P (if dir == 0 then call (create_directories path) w else (ret 0, w)).1
  make_parent-Keeps dir path w p =
      if_both (λ (r : Outcome ℕ × World). P r.1) (dir == 0)
        (K.kept_by_call _ w (create_directories_call path) p) p

  -- Whatever keeps a property of the world before the copy is complete: if `move_file` reports
  -- failure, or is still retrying, the property still holds. With the property that the original
  -- exists, a failed move has not removed it.
  pub move_file-IfFailed :
      (fuel : ℕ) (old_path new_path : Text) (buff_sz : ℕ) (orig_tier : Text) (w : World)
      → P w
      → IfFailed (move_file E fuel old_path new_path buff_sz orig_tier w)
  unfolding move_file
  move_file-IfFailed fuel old_path new_path buff_sz orig_tier w p =
      or_throw-IfFailed _ _ (K.kept_by_call _ w (is_directory_call _) p) λ dir w1 p1.
        or_throw-IfFailed _ _ (make_parent-Keeps dir _ w1 p1) λ _ w2 p2.
          or_fail-IfFailed _ _ (K.kept_by_call _ w2 (open_call _ _) p2) λ source_fd w3 p3.
            or_fail-IfFailed _ _ (K.kept_by_call _ w3 (open_call _ _) p3) λ dest_fd w4 p4.
              after_copy-IfFailed _ w4 _ p4
                (copy_loop-OfLoop source_fd dest_fd buff_sz fuel 0 false w4 p4)
                λ w5 p5.
                  or_fail-IfFailed _ _ (K.kept_by_call _ w5 (close_call source_fd) p5) λ _ w6 p6.
                    or_fail-IfFailed _ _ (K.kept_by_call _ w6 (close_call dest_fd) p6)
                      λ _ w7 p7. finish_move-IfFailed old_path new_path orig_tier w7
