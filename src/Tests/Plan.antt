-- ===== src/Tests/Plan.antt =====
-- The theorems on tiering, copies and logs at concrete inputs.
use autotier.Base.{
  ltb, Bool-cases, inl, inr, ℕ, ◌≤◌, ◌<◌, refl, Text, codes, false, List, [], ◌∷◌, All, arith,
}
use mathlib.Core.List.{Memᴰ}
use autotier.Env.Laws.{half_word}
use autotier.Tier.{Tier, reset_sim, full_test, enqueue_file_ptr, add_file_size_sim}
use autotier.File.{File}
use autotier.Tiering.{simulate_tier, simulate_from, place, accept}
use autotier.Tiering.Priority.{GoesTo, simulate_tier-GoesTo}
use autotier.Copy.{copy_loop, move_file}
use autotier.Copy.Content.{Copied, AtEnd, copy_loop-AtEnd}
use autotier.Copy.Safety.{IfFailed, move_file-IfFailed}
use autotier.Ranking.Order.{IsOrdered}
use autotier.Queue.Order.{Event, produce, consume}
use autotier.Tests.Machine.{
  machine, start, source, machine-IsWordSized, machine-IsCopyDevice, machine-Keeps, IsPresent,
}

abbrev pub tier_at : Text → ℕ → ℕ → Tier
tier_at path quota usage = record {
  quota = quota;
  capacity = 1000;
  usage = usage;
  sim_usage = 0;
  id = path;
  path = path;
  incoming_files = [];
}

abbrev pub file_of : Text → ℕ → ℕ → File machine
file_of path size tier_ptr = record {
  size = size;
  tier_ptr = tier_ptr;
  atime_sec = 1;
  atime_usec = 0;
  mtime_sec = 1;
  mtime_usec = 0;
  ctime = 1;
  relative_path = path;
  metadata = record {
    access_count = 0;
    popularity = 5;
    not_found = false;
    pinned = false;
    tier_path = codes "/fast";
  };
}

abbrev pub two_tiers : List Tier
two_tiers = tier_at (codes "/fast") 10 6 ∷ tier_at (codes "/slow") 100 4 ∷ []

abbrev pub three_files : List (File machine)
three_files = file_of (codes "a") 6 1 ∷ file_of (codes "b") 7 0 ∷ file_of (codes "c") 4 0 ∷ []

small_tiers : All (λ (t : Tier). t.quota < half_word) two_tiers
small_tiers = (omega arith, (omega arith, tt))

small_files : All (λ (f : File machine). f.size < half_word) three_files
small_files = (omega arith, (omega arith, (omega arith, tt)))

simulate_tier-GoesTo_example :
    (k : ℕ) × (k ≤ 1)
    × GoesTo machine 0 (file_of (codes "a") 6 1) k (simulate_tier machine three_files two_tiers).0
unfolding simulate_tier simulate_from place full_test reset_sim accept enqueue_file_ptr
    add_file_size_sim
simulate_tier-GoesTo_example =
    simulate_tier-GoesTo machine machine-IsWordSized three_files two_tiers small_tiers small_files
      (refl, (refl, tt)) 0 1 1 (file_of (codes "a") 6 1) (file_of (codes "b") 7 0) (omega arith)
      refl refl (omega arith) (Memᴰ.head refl)

at_start : Copied machine 3 4 2 source machine-IsCopyDevice 0 start
unfolding machine-IsCopyDevice
at_start = record { within = omega arith; data_so_far = refl; src_at = refl; dst_at = refl }

copy_loop-AtEnd_example :
    AtEnd machine 3 4 2 source machine-IsCopyDevice (copy_loop machine 3 4 2 5 0 false start)
copy_loop-AtEnd_example =
    copy_loop-AtEnd machine 3 4 2 source machine-IsCopyDevice 5 0 false start at_start

move_file-IfFailed_example :
    IfFailed machine IsPresent machine-Keeps
      (move_file machine 5 (codes "/fast/a") (codes "/slow/a") 2 (codes "fast") start)
move_file-IfFailed_example =
    move_file-IfFailed machine IsPresent machine-Keeps 5 (codes "/fast/a") (codes "/slow/a") 2
      (codes "fast") start refl

abbrev events : List (Event ℕ)
events = produce 1 ∷ produce 2 ∷ consume ∷ []

machine-IsOrdered : IsOrdered machine
machine-IsOrdered = record {
  same_iff = λ a b. ground arith;
  less_irrefl = λ a. ground arith;
  less_trans = λ a b c h k. ground arith;
  less_total = λ a b h. elim (Bool-cases (ltb a b)) [ inl e ↦ inl e | inr e ↦ inr (ground arith) ];
}

abbrev popular : ℕ → File machine
popular n =
    let f = file_of (codes "a") 6 1 in
    let m = f.metadata in record f { metadata = record m { popularity = n } }
