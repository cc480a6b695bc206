-- ===== src/Tier/Usage.antt =====
-- Usage accounting on 64-bit words.
use autotier.Base.{ℕ, ◌+◌, ◌-◌, ◌≤◌, ◌<◌, ◌≡◌, ap, arith}
use autotier.Env.{Env}
use autotier.Env.Laws.{IsWordSized, word}
use autotier.Tier.{Tier, add_file_size, subtract_file_size, size_delta}

module _ (E : Env) (L : IsWordSized E) where
  -- `size_delta` moves the usage by the difference of the sizes, in either direction, although it
  -- goes through an unsigned difference that wraps when the file shrinks.
  pub size_delta_exact :
      (old_size new_size : ℕ) (t : Tier)
      → t.usage < word
      → old_size ≤ t.usage
      → new_size < word
      → t.usage - old_size + new_size < word
      → (size_delta E old_size new_size t).usage ≡ t.usage - old_size + new_size
  unfolding size_delta
  size_delta_exact old_size new_size t g h k l =
      omega
        (arith, L.add_word t.usage (E.bytes_sub new_size old_size), L.sub_word new_size old_size)

  -- Registering a file and taking it out again gives the tier back, also across a wrap.
  pub subtract-add_file_size :
      (size : ℕ) (t : Tier)
      → t.usage < word
      → size < word
      → subtract_file_size E size (add_file_size E size t) ≡ t
  unfolding subtract_file_size add_file_size
  subtract-add_file_size size t h k =
      let e : E.bytes_sub (E.bytes_add t.usage size) size ≡ t.usage =
        omega (arith, L.add_word t.usage size, L.sub_word (E.bytes_add t.usage size) size) in
      ap (λ u. record t { usage = u }) e
