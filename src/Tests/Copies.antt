-- ===== src/Tests/Copies.antt =====
-- Every copy on the small machine ends, whatever its state.
use autotier.Base.{ℕ, zero, suc, ◌≡◌, ◌≢◌, refl, Text, Bool, false, List}
use autotier.Copy.{
  Moved, moved, no_fuel, move_file, or_throw, or_fail, after_copy, copy_loop, after_read, proceed,
  after_write, ran_out, finish_move, CopiesEnd,
}
use autotier.Tests.Machine.{machine}

moved_ne : {m : Moved} → m ≡ moved false → m ≢ no_fuel
moved_ne e h = cc

is_moved :
    (old_path new_path : Text) (buff_sz : ℕ) (orig_tier : Text) (p q : ℕ) (d : List ℕ) (log : Text)
    (free present : Bool)
    → (move_file machine 5 old_path new_path buff_sz orig_tier (record {
      src_pos = p;
      dst_pos = q;
      dst_data = d;
      log = log;
      free = free;
      present = present;
    })).0
      ≡ moved false
unfolding move_file or_throw or_fail after_copy copy_loop after_read proceed after_write ran_out
    finish_move
is_moved old_path new_path buff_sz orig_tier zero q d log free present = refl
is_moved old_path new_path buff_sz orig_tier (suc zero) q d log free present = refl
is_moved old_path new_path buff_sz orig_tier (suc (suc p)) q d log free present = refl

pub machine-CopiesEnd : CopiesEnd machine 5
unfolding CopiesEnd
machine-CopiesEnd old_path new_path buff_sz orig_tier w = moved_ne (
    is_moved old_path new_path buff_sz orig_tier w.src_pos w.dst_pos w.dst_data w.log w.free
      w.present)
