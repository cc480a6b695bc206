-- ===== src/Database/Order.antt =====
-- The groups of keys in the order of the keys.
use autotier.Base.{
  ◌≡◌, ◌≢◌, ◌∙◌, sym, refl, Text, Bool, true, false, ◌||◌, ◌&&◌, [], ◌∷◌, ◌++◌, ◌==◌, ltb,
  if◌then◌else◌, starts_with, List, Option, none, some, text_eq, Bool-cases, inl, inr, arith,
}
use autotier.Env.{Env}
use autotier.Database.{transform, in_domain}

-- The order of the keys, byte by byte.
unfoldable pub key_le : Text → Text → Bool
key_le [] ys = true
key_le (x ∷ xs) [] = false
key_le (x ∷ xs) (y ∷ ys) = ltb x y || (x == y && key_le xs ys)

pub key_le_refl : (xs : Text) → key_le xs xs ≡ true
unfolding key_le
key_le_refl [] = refl
key_le_refl (x ∷ xs) = ground (arith, key_le_refl xs)

pub key_le_trans :
    (xs ys zs : Text) → key_le xs ys ≡ true → key_le ys zs ≡ true → key_le xs zs ≡ true
unfolding key_le
key_le_trans [] ys zs h k = refl
key_le_trans (x ∷ xs) [] zs h k = cc
key_le_trans (x ∷ xs) (y ∷ ys) [] h k = cc
key_le_trans (x ∷ xs) (y ∷ ys) (z ∷ zs) h k = ground (arith, key_le_trans xs ys zs)

-- What starts with a text lies together.
pub starts_with_between :
    (p xs ys zs : Text)
    → starts_with xs p ≡ true
    → starts_with zs p ≡ true
    → key_le xs ys ≡ true
    → key_le ys zs ≡ true
    → starts_with ys p ≡ true
unfolding starts_with key_le
starts_with_between [] xs ys zs f t h k = refl
starts_with_between (c ∷ p) [] ys zs f t h k = cc
starts_with_between (c ∷ p) (x ∷ xs) [] zs f t h k = cc
starts_with_between (c ∷ p) (x ∷ xs) (y ∷ ys) [] f t h k = cc
starts_with_between (c ∷ p) (x ∷ xs) (y ∷ ys) (z ∷ zs) f t h k =
    ground (arith, starts_with_between p xs ys zs)

-- A key of a group starts with the group's name and a slash.
starts_with-transform :
    (k : Text) → in_domain k ≡ true → starts_with k (transform k ++ (b'/' ∷ [])) ≡ true
unfolding transform in_domain starts_with
starts_with-transform [] h = cc
starts_with-transform (c ∷ cs) h = elim (Bool-cases (c == b'/')) [
  | inl e ↦ rw (e, starts_with) (ground arith)
  | inr e ↦ rw e (ground (arith, starts_with-transform cs))
]

-- And a text that starts like a key of the group does, as far as the slash, is in the group.
pub transform_of_starts_with :
    (p k : Text)
    → in_domain p ≡ true
    → starts_with k p ≡ true
    → (in_domain k ≡ true) × (transform k ≡ transform p)
unfolding transform in_domain starts_with
transform_of_starts_with [] k h s = cc
transform_of_starts_with (c ∷ p) [] h s = cc
transform_of_starts_with (c ∷ p) (x ∷ k) h s = ground (arith, transform_of_starts_with p k)

in_domain-append_slash : (p : Text) → in_domain (p ++ (b'/' ∷ [])) ≡ true
unfolding in_domain
in_domain-append_slash [] = refl
in_domain-append_slash (c ∷ p) = ground (arith, in_domain-append_slash p)

-- What RocksDB asks of a prefix extractor: each group of keys lies together, with no key of
-- another group and no key without a group between two of its keys, and the name of a group
-- starts its keys.
pub transform-contiguous :
    (a j b : Text)
    → in_domain a ≡ true
    → in_domain b ≡ true
    → transform a ≡ transform b
    → key_le a j ≡ true
    → key_le j b ≡ true
    → (in_domain j ≡ true)
      × (transform j ≡ transform a)
      × (starts_with j (transform a ++ (b'/' ∷ [])) ≡ true)
transform-contiguous a j b h k e f g =
    let name = transform a ++ (b'/' ∷ []) in
    let inside = in_domain-append_slash (transform a) in
    let starts_a = starts_with-transform a h in
    let starts_b : starts_with b name ≡ true = rw e (starts_with-transform b k) in
    let starts_j = starts_with_between name a j b starts_a starts_b f g in
    let (domain, same) = transform_of_starts_with name j inside starts_j in
    let own = (transform_of_starts_with name a inside starts_a).1 in
    (domain, same ∙ sym own, starts_j)

-- The last value that a list of entries has for a key.
abbrev pub latest : Text → List (Text × Text) → Option Text → Option Text
latest k [] v = v
latest k ((j, w) ∷ rest) v = latest k rest (if text_eq j k then some w else v)

-- Entries in the order of their keys, from a key on.
abbrev pub IsSortedFrom : Text → List (Text × Text) → Type 0
IsSortedFrom k [] = Unit
IsSortedFrom k ((j, w) ∷ rest) = (key_le k j ≡ true) × IsSortedFrom j rest

-- No entry is of the group of the key.
abbrev pub IsOutside : Text → List (Text × Text) → Type 0
IsOutside k [] = Unit
IsOutside k ((j, w) ∷ rest) = (in_domain j ≡ true → transform j ≢ transform k) × IsOutside k rest

-- What a database with a prefix extractor promises of an iterator that seeks a key with a group:
-- in order, the entries from the key on, for as long as they are of the group. What comes after
-- the group is not defined, but of another group.
pub record IsSeek (E : Env) (d : E.Db) (k : Text) : Type 0 where
  pub group : List (Text × Text)
  pub past : List (Text × Text)
  pub seek-eq : E.db_seek d k ≡ group ++ past
  pub sorted : IsSortedFrom k group
  pub get-latest :
      (j : Text)
      → in_domain j ≡ true
      → transform j ≡ transform k
      → key_le k j ≡ true
      → latest j group none ≡ E.db_get d j
  pub outside : IsOutside k past
