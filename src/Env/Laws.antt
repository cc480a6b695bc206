-- ===== src/Env/Laws.antt =====
-- What the program relies on: byte counts are 64-bit words, archives read back what they wrote,
-- and a database batch is replayed in order.
use autotier.Base.{
  ℕ, ◌+◌, ◌-◌, ◌%◌, ◌^◌, ◌≡◌, Text, text_eq, Bool, Option, none, some, List, [], ◌∷◌, ltb,
  if◌then◌else◌,
}
use autotier.Env.{Env, BatchOp, delete, put}

abbrev pub word : ℕ
word = 2 ^ 64

-- Sizes and quotas below this have sums that are words.
abbrev pub half_word : ℕ
half_word = 2 ^ 63

-- The value of a key after one entry of a batch, from its value before.
abbrev pub replay_op : Text → BatchOp → Option Text → Option Text
replay_op k (delete j) v = if text_eq j k then none else v
replay_op k (put j w) v = if text_eq j k then some w else v

abbrev pub replay : Text → List BatchOp → Option Text → Option Text
replay k [] v = v
replay k (op ∷ ops) v = replay k ops (replay_op k op v)

pub record IsWordSized (E : Env) : Type 0 where
  pub add_word : (a b : ℕ) → E.bytes_add a b ≡ (a + b) % word
  pub sub_word : (a b : ℕ) → E.bytes_sub a b ≡ (a + word - b) % word
  pub gt_word : (a b : ℕ) → E.bytes_gt a b ≡ ltb b a

pub record IsStore (E : Env) : Type 0 where
  pub load-save :
      (path : Text) (count : ℕ) (popularity : E.Double) (pinned : Bool)
      → E.load (E.save path count popularity pinned) ≡ (path, count, popularity, pinned)
  pub get-write :
      (d t : E.Db) (ops : List BatchOp) (k : Text)
      → E.db_write d ops ≡ some t
      → E.db_get t k ≡ replay k ops (E.db_get d k)
