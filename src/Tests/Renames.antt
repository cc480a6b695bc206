-- ===== src/Tests/Renames.antt =====
-- The theorems on the keys of the database at concrete keys.
use autotier.Base.{
  ◌≡◌, refl, codes, Text, text_eq, eq_of_text_eq, Bool-cases, inl, inr, [], ◌∷◌, true, false, ◌++◌,
  starts_with, ap,
}
use autotier.Base.Dict.{lookup}
use autotier.Database.{transform, in_domain}
use autotier.Database.Order.{key_le, IsSeek, transform-contiguous}
use autotier.Fuse.{Mount}
use autotier.Fuse.Helpers.{add_slash}
use autotier.Fuse.Names.{rename_path}
use autotier.Fuse.Names.Moving.{IsMoved, key_of_directory, rename_path-IsMoved}
use autotier.Fuse.Rules.{Post}
use autotier.Metadata.{strip_slash}
use autotier.Tests.Machine.{machine, start, machine-IsStore}
use autotier.Tests.Plan.{tier_at}
use autotier.Tests.Mounted.{a_mount, a_context, machine-Accepts}

transform-contiguous_example :
    (in_domain (codes "sub/y") ≡ true)
    × (transform (codes "sub/y") ≡ transform (codes "sub/x"))
    × (starts_with (codes "sub/y") (transform (codes "sub/x") ++ (b'/' ∷ [])) ≡ true)
unfolding transform in_domain key_le
transform-contiguous_example =
    transform-contiguous (codes "sub/x") (codes "sub/y") (codes "sub/z") refl refl refl refl refl

-- One file in `sub`, and one beside it.
abbrev pub a_tree : Mount machine
a_tree = record a_mount {
  db =
      (codes "sub/x", 3 ∷ 9 ∷ 0 ∷ codes "/fast") ∷ (codes "sub2/x", 1 ∷ 2 ∷ 0 ∷ codes "/slow") ∷ [];
}

other_group : (j : Text) → transform j ≡ codes "sub" → text_eq (codes "sub2/x") j ≡ false
unfolding transform
other_group j e = elim (Bool-cases (text_eq (codes "sub2/x") j)) [
  | inl same ↦
      let f : transform (codes "sub2/x") ≡ transform j =
        ap transform (eq_of_text_eq (codes "sub2/x") j same) in
      cc
  | inr other ↦ other
]

a_tree-IsSeek : IsSeek machine a_tree.db (key_of_directory (codes "sub"))
unfolding add_slash strip_slash transform in_domain key_le lookup
a_tree-IsSeek = record {
  group = (codes "sub/x", 3 ∷ 9 ∷ 0 ∷ codes "/fast") ∷ [];
  past = (codes "sub2/x", 1 ∷ 2 ∷ 0 ∷ codes "/slow") ∷ [];
  seek-eq = refl;
  sorted = (refl, tt);
  get-latest = λ j i e l. rw (other_group j e) refl;
  outside = (λ i. λ e. cc, tt);
}

rename_path-IsMoved_example :
    Post machine
      (λ _ t. IsMoved machine (codes "sub/") (codes "new/") a_tree.db t.db)
      (λ t. t.db ≡ a_tree.db)
      (rename_path machine a_context (codes "/sub") (codes "/new") 0 a_tree)
unfolding add_slash strip_slash starts_with text_eq
rename_path-IsMoved_example =
    rename_path-IsMoved machine machine-IsStore machine-Accepts a_context (codes "/sub")
      (codes "/new") 0 a_tree (tier_at (codes "/fast") 10 6) (tier_at (codes "/slow") 100 4 ∷ [])
      start refl refl a_tree-IsSeek refl refl
