-- ===== src/Tests/Room.antt =====
-- The machine with a tier that is out of space at first, and gets room once a write has failed.
use autotier.Base.{
  ℕ, ◌+◌, ◌<◌, ◌≤◌, ◌≡◌, ◌⊎◌, refl, ap, Bool, true, false, some, List, [], ◌++◌, length, take, inl,
  inr, arith,
}
use autotier.Env.{Env, Outcome, ret, fail}
use autotier.Copy.{copy_loop}
use autotier.Copy.Content.{IsCopyDevice, Copied}
use autotier.Copy.Waiting.{GetsRoom, copy_loop-waits}
use autotier.Tests.Machine.{
  Machine, machine, start, source, CountsAll-length, ret_or, bytes_at, bytes_at-drop, bytes_at-nil,
}

abbrev write_if : Bool → List ℕ → Machine → Outcome ℕ × Machine
write_if true bytes w = (
  ret (length bytes),
  record w { dst_data = w.dst_data ++ bytes; dst_pos = w.dst_pos + length bytes },
)
write_if false bytes w = (fail 28, record w { free = true })

abbrev slow : Env
slow = record machine { write = λ fd bytes w. write_if w.free bytes w }

write_if-ret :
    (free : Bool) (bytes : List ℕ) (w : Machine) (n : ℕ)
    → (write_if free bytes w).0 ≡ ret n
    → (n ≤ length bytes)
      × ((write_if free bytes w).1.dst_data ≡ w.dst_data ++ take n bytes)
      × ((write_if free bytes w).1.dst_pos ≡ w.dst_pos + n)
write_if-ret true bytes w n h = rw (← ap (ret_or 0) h) (CountsAll-length bytes w)
write_if-ret false bytes w n h = cc

write_if-fail :
    (free : Bool) (bytes : List ℕ) (w : Machine) (e : ℕ)
    → (write_if free bytes w).0 ≡ fail e
    → ((write_if free bytes w).1.dst_data ≡ w.dst_data)
      × ((write_if free bytes w).1.dst_pos ≡ w.dst_pos)
write_if-fail true bytes w e h = cc
write_if-fail false bytes w e h = (refl, refl)

write_if_keeps :
    (free : Bool) (bytes : List ℕ) (w : Machine) → (write_if free bytes w).1.src_pos ≡ w.src_pos
write_if_keeps true bytes w = refl
write_if_keeps false bytes w = refl

unfoldable slow-IsCopyDevice : IsCopyDevice slow 3 4 2 source
slow-IsCopyDevice = record {
  src_pos = λ w. w.src_pos;
  dst_pos = λ w. w.dst_pos;
  dst_data = λ w. w.dst_data;
  read_lem =
      λ w bytes h. rw (← ap (ret_or []) h) (bytes_at-drop w.src_pos, bytes_at-nil w.src_pos, refl);
  read_keeps = λ w. (refl, refl);
  write_ret = λ w bytes n at_end h. write_if-ret w.free bytes w n h;
  write_fail = λ w bytes e h. write_if-fail w.free bytes w e h;
  write_keeps = λ w bytes. write_if_keeps w.free bytes w;
  seek_source = λ w offset n h. refl;
  seek_source_keeps = λ w offset. (refl, refl);
  seek_dest = λ w offset n h. refl;
  seek_dest_keeps = λ w offset. (refl, refl);
}

abbrev waits_if : Bool → ℕ
waits_if true = 0
waits_if false = 1

write_waits_if :
    (free : Bool) (bytes : List ℕ) (w : Machine)
    → w.free ≡ free
    → (((write_if free bytes w).0 ≡ ret (length bytes))
        × (waits_if (write_if free bytes w).1.free ≤ waits_if free))
      ⊎ (waits_if (write_if free bytes w).1.free < waits_if free)
write_waits_if true bytes w e = inl (refl, rw e (omega arith))
write_waits_if false bytes w e = inr (omega arith)

slow-GetsRoom : GetsRoom slow 3 4 2 source slow-IsCopyDevice
slow-GetsRoom = record {
  waits = λ w. waits_if w.free;
  read_ret = λ w. (bytes_at w.src_pos, refl);
  read_waits = λ w. omega arith;
  write_waits = λ bytes w. write_waits_if w.free bytes w refl;
  seek_source_ret = λ offset w h. (refl, omega arith);
  seek_dest_ret = λ offset w h. (refl, omega arith);
}

at_start : Copied slow 3 4 2 source slow-IsCopyDevice 0 start
unfolding slow-IsCopyDevice
at_start = record { within = omega arith; data_so_far = refl; src_at = refl; dst_at = refl }

copy_loop-waits_example :
    (w : Machine) × (copy_loop slow 3 4 2 5 0 false start ≡ some (true, w)) × (w.dst_data ≡ source)
unfolding slow-IsCopyDevice slow-GetsRoom
copy_loop-waits_example =
    copy_loop-waits slow 3 4 2 source slow-IsCopyDevice slow-GetsRoom (omega arith) 5 0 start
      at_start (omega arith)
