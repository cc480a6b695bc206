-- ===== src/Tier.antt =====
-- src/incl/tier.hpp and src/impl/autotierfs/tier.cpp: a tier's record and its accounting. The
-- quota is `quota_.get()`, the capacity `quota_.get_max()`. A file pointer is an index into the
-- engine's `files_`. The parts that touch files are in `Copy` and `Transfer`.
pub mod Usage
use autotier.Base.{ℕ, Text, Bool, List, [], ◌∷◌, ◌++◌}
use autotier.Env.{Env}

pub record Tier : Type 0 where
  pub quota : ℕ
  pub capacity : ℕ
  pub usage : ℕ
  pub sim_usage : ℕ
  pub id : Text
  pub path : Text
  pub incoming_files : List ℕ

module _ (E : Env) where
  open E use {bytes_add, bytes_sub, bytes_gt}

  unfoldable pub add_file_size : ℕ → Tier → Tier
  add_file_size size t = record t { usage = bytes_add t.usage size }

  unfoldable pub subtract_file_size : ℕ → Tier → Tier
  subtract_file_size size t = record t { usage = bytes_sub t.usage size }

  -- `usage_ += new_size - old_size`.
  unfoldable pub size_delta : ℕ → ℕ → Tier → Tier
  size_delta old_size new_size t = record t {
    usage = bytes_add t.usage (bytes_sub new_size old_size);
  }

  unfoldable pub add_file_size_sim : ℕ → Tier → Tier
  add_file_size_sim size t = record t { sim_usage = bytes_add t.sim_usage size }

  unfoldable pub full_test : ℕ → Tier → Bool
  full_test file_size t = bytes_gt (bytes_add t.sim_usage file_size) t.quota

unfoldable pub reset_sim : Tier → Tier
reset_sim t = record t { sim_usage = 0 }

unfoldable pub set_usage : ℕ → Tier → Tier
set_usage usage t = record t { usage = usage }

unfoldable pub enqueue_file_ptr : ℕ → Tier → Tier
enqueue_file_ptr fptr t = record t { incoming_files = t.incoming_files ++ (fptr ∷ []) }
