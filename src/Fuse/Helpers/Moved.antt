-- ===== src/Fuse/Helpers/Moved.antt =====
-- The batch that renames a directory, replayed: it takes every key out of the old directory, with
-- its value, into the new one.
use autotier.Base.{
  ◌≡◌, ◌∙◌, refl, sym, ap, Text, text_eq, text_eq_iff, starts_with, starts_with-append,
  append-drop_of_starts_with, length, drop, Bool, true, false, Option, none, some, List, [], ◌∷◌,
  ◌++◌, if◌then◌else◌, Bool-cases, inl, inr, arith,
}
use autotier.Env.{BatchOp, delete, put}
use autotier.Env.Laws.{replay, replay_op}
use autotier.Database.{in_domain}
use autotier.Database.Order.{
  key_le, key_le_trans, starts_with_between, transform_of_starts_with, latest, IsSortedFrom,
  IsOutside,
}
use autotier.Fuse.Helpers.{moved_keys}
use autotier.Fuse.Helpers.Keys.{not_same}

text_eq-append_both : (p a b : Text) → text_eq (p ++ a) (p ++ b) ≡ text_eq a b
unfolding text_eq
text_eq-append_both [] a b = refl
text_eq-append_both (c ∷ p) a b = ground (arith, text_eq-append_both p a b)

not_same_either :
    (a k p : Text) → starts_with a p ≡ true → starts_with k p ≡ false → text_eq k a ≡ false
not_same_either a k p h n = ground (arith, text_eq_iff k a)

starts_with_refl : (p : Text) → starts_with p p ≡ true
unfolding starts_with
starts_with_refl [] = refl
starts_with_refl (c ∷ p) = ground (arith, starts_with_refl p)

-- An entry that puts another key.
replay-moved_other :
    (k key other value : Text) (ops : List BatchOp) (v : Option Text)
    → text_eq other k ≡ false
    → replay k (delete key ∷ put other value ∷ ops) v
      ≡ replay k ops (if text_eq key k then none else v)
replay-moved_other k key other value ops v h = rw h refl

if_none : (b : Bool) → ◌≡◌ {A = Option Text} (if b then none else none) none
if_none true = refl
if_none false = refl

module _ (old : Text) (slash : in_domain old ≡ true) where
  -- A key in the order after one that is past the directory is not in the directory.
  stays_out :
      (lo key : Text)
      → key_le old lo ≡ true
      → starts_with lo old ≡ false
      → key_le lo key ≡ true
      → starts_with key old ≡ false
  stays_out lo key h n l = elim (Bool-cases (starts_with key old)) [
    | inl e ↦ let inside = starts_with_between old old lo key (starts_with_refl old) e h l in cc
    | inr e ↦ e
  ]

  latest_past :
      (s lo : Text) (es : List (Text × Text)) (v : Option Text)
      → key_le old lo ≡ true
      → starts_with lo old ≡ false
      → IsSortedFrom lo es
      → latest (old ++ s) es v ≡ v
  latest_past s lo [] v h n g = refl
  latest_past s lo ((key, value) ∷ es) v h n (l, g) =
      let out = stays_out lo key h n l in
      rw (not_same_either (old ++ s) key old (starts_with-append old s) out)
        (latest_past s key es v (key_le_trans old lo key h l) out g)

  moved_keys_outside :
      (new : Text) (past : List (Text × Text)) → IsOutside old past → moved_keys old new past ≡ []
  unfolding moved_keys
  moved_keys_outside new [] o = refl
  moved_keys_outside new ((key, value) ∷ rest) (o, os) = elim (Bool-cases (starts_with key old)) [
    | inl e ↦ let (d, t) = transform_of_starts_with old key slash e in absurd (o d t)
    | inr e ↦ rw e
  ]

  module _ (new : Text) (apart : (s : Text) → starts_with (new ++ s) old ≡ false)
      (past : List (Text × Text)) (outside : IsOutside old past) where
    -- One entry of the directory, at a key of the new one.
    replay_entry :
        (s key value : Text) (v : Option Text)
        → starts_with key old ≡ true
        → replay_op
            (new ++ s)
            (put (new ++ drop (length old) key) value)
            (replay_op (new ++ s) (delete key) v)
          ≡ (if text_eq key (old ++ s) then some value else v)
    replay_entry s key value v e =
        let same = ap (λ k. text_eq k (old ++ s)) (sym (append-drop_of_starts_with key old e)) in
        rw (
          text_eq-append_both new (drop (length old) key) s,
          sym (text_eq-append_both old (drop (length old) key) s),
          sym same,
          not_same key (new ++ s) old e (apart s),
        )

    -- A key of the new directory gets the value that the key in the old one had.
    pub replay-moved_into :
        (s lo : Text) (group : List (Text × Text)) (v : Option Text)
        → key_le old lo ≡ true
        → IsSortedFrom lo group
        → replay (new ++ s) (moved_keys old new (group ++ past)) v ≡ latest (old ++ s) group v
    unfolding moved_keys
    replay-moved_into s lo [] v h g = rw (moved_keys_outside new past outside)
    replay-moved_into s lo ((key, value) ∷ group) v h (l, g) =
        elim (Bool-cases (starts_with key old)) [
          | inl e ↦ rw e (
              ap (replay (new ++ s) (moved_keys old new (group ++ past)))
                (replay_entry s key value v e)
              ∙ replay-moved_into s key group _ (key_le_trans old lo key h l) g)
          | inr e ↦
              let later = latest_past s key group v (key_le_trans old lo key h l) e g in
              rw (e, not_same_either (old ++ s) key old (starts_with-append old s) e) (sym later)
        ]

    not_new : (s r : Text) → text_eq (new ++ r) (old ++ s) ≡ false
    not_new s r = not_same_either (old ++ s) (new ++ r) old (starts_with-append old s) (apart r)

    -- No entry of the batch gives a key of the old directory a value.
    replay_stays_gone :
        (s : Text) (es : List (Text × Text)) → replay (old ++ s) (moved_keys old new es) none ≡ none
    unfolding moved_keys
    replay_stays_gone s [] = refl
    replay_stays_gone s ((key, value) ∷ es) = elim (Bool-cases (starts_with key old)) [
      | inl e ↦ rw e (
          replay-moved_other (old ++ s) key _ value (moved_keys old new es) none (not_new s _)
          ∙ ap (replay (old ++ s) (moved_keys old new es)) (if_none (text_eq key (old ++ s)))
          ∙ replay_stays_gone s es)
      | inr e ↦ rw e
    ]

    -- A key of the old directory is taken away.
    pub replay-moved_away :
        (s lo : Text) (group : List (Text × Text))
        → key_le old lo ≡ true
        → IsSortedFrom lo group
        → replay (old ++ s) (moved_keys old new (group ++ past)) (latest (old ++ s) group none)
          ≡ none
    unfolding moved_keys
    replay-moved_away s lo [] h g = rw (moved_keys_outside new past outside)
    replay-moved_away s lo ((key, value) ∷ group) h (l, g) =
        elim (Bool-cases (starts_with key old)) [
          | inl e ↦ rw e (
              replay-moved_other (old ++ s) key _ value (moved_keys old new (group ++ past)) _
                (not_new s _)
              ∙ at (text_eq key (old ++ s))
                  (replay-moved_away s key group (key_le_trans old lo key h l) g))
          | inr e ↦
              rw (e, not_same_either (old ++ s) key old (starts_with-append old s) e)
                (latest_past s key group none (key_le_trans old lo key h l) e g)
        ]
      where
        later : List BatchOp
        later = moved_keys old new (group ++ past)

        at :
            (b : Bool)
            → replay (old ++ s) later (latest (old ++ s) group none) ≡ none
            → replay
                (old ++ s)
                later
                (if b then none else latest (old ++ s) group (if b then some value else none))
              ≡ none
        at true gone = replay_stays_gone s (group ++ past)
        at false gone = gone
