-- ===== src/Base/Lists.antt =====
-- Lists measured and indexed by native numbers, under the library's names.
use Prim.Native.Nat.{ℕ, zero, suc, ◌+◌, ◌-◌, ◌≤◌}
use mathlib.Core.Path.{◌≡◌, refl, ap}
use mathlib.Core.List.{List, [], ◌∷◌, ◌++◌}
use mathlib.Core.Option.{Option, none, some}
use native.Mathlib.Omega.{arith}

module _ {ℓ} {A : Type ℓ} where
  abbrev pub length : List A → ℕ
  length [] = 0
  length (x ∷ xs) = suc (length xs)

  abbrev pub get_elem? : List A → ℕ → Option A
  get_elem? [] i = none
  get_elem? (x ∷ xs) zero = some x
  get_elem? (x ∷ xs) (suc i) = get_elem? xs i

  -- A change out of bounds does nothing.
  abbrev pub modify : List A → ℕ → (A → A) → List A
  modify [] i f = []
  modify (x ∷ xs) zero f = f x ∷ xs
  modify (x ∷ xs) (suc i) f = x ∷ modify xs i f

  abbrev pub drop : ℕ → List A → List A
  drop zero xs = xs
  drop (suc n) [] = []
  drop (suc n) (x ∷ xs) = drop n xs

  abbrev pub All {κ} : (A → Type κ) → List A → Type κ
  All P [] = Unit
  All P (x ∷ xs) = P x × All P xs

  pub length-append : (xs ys : List A) → length (xs ++ ys) ≡ length xs + length ys
  length-append [] ys = omega arith
  length-append (x ∷ xs) ys = omega (arith, length-append xs ys)

  pub length-modify : (xs : List A) (i : ℕ) (f : A → A) → length (modify xs i f) ≡ length xs
  length-modify [] i f = refl
  length-modify (x ∷ xs) zero f = refl
  length-modify (x ∷ xs) (suc i) f = ap suc (length-modify xs i f)

  pub drop-length-append : (xs ys : List A) → drop (length xs) (xs ++ ys) ≡ ys
  drop-length-append [] ys = refl
  drop-length-append (x ∷ xs) ys = drop-length-append xs ys

module _ {ℓ} {A : Type ℓ} where
  abbrev pub take : ℕ → List A → List A
  take zero xs = []
  take (suc n) [] = []
  take (suc n) (x ∷ xs) = x ∷ take n xs

  pub take-add : (a m : ℕ) (xs : List A) → take (a + m) xs ≡ take a xs ++ take m (drop a xs)
  take-add zero m xs = let e : 0 + m ≡ m = omega arith in rw e
  take-add (suc a) zero [] = let e : suc a + 0 ≡ suc a = omega arith in rw e
  take-add (suc a) (suc m) [] = let e : suc a + suc m ≡ suc (a + suc m) = omega arith in rw e
  take-add (suc a) m (x ∷ xs) =
      let e : suc a + m ≡ suc (a + m) = omega arith in rw e (ap (◌∷◌ x) (take-add a m xs))

  pub take-append : (m : ℕ) (xs ys : List A) → m ≤ length xs → take m (xs ++ ys) ≡ take m xs
  take-append zero xs ys h = refl
  take-append (suc m) [] ys h = absurd (omega arith)
  take-append (suc m) (x ∷ xs) ys h = ap (◌∷◌ x) (take-append m xs ys (omega arith))

  pub length-drop : (n : ℕ) (xs : List A) → length (drop n xs) ≡ length xs - n
  length-drop zero xs = omega arith
  length-drop (suc n) [] = omega arith
  length-drop (suc n) (x ∷ xs) = omega (arith, length-drop n xs)

  pub length-take-eq : (n : ℕ) (xs : List A) → n ≤ length xs → length (take n xs) ≡ n
  length-take-eq zero xs h = refl
  length-take-eq (suc n) [] h = absurd (omega arith)
  length-take-eq (suc n) (x ∷ xs) h = ap suc (length-take-eq n xs (omega arith))

  pub take_of_drop-nil : (n : ℕ) (xs : List A) → drop n xs ≡ [] → take n xs ≡ xs
  take_of_drop-nil zero xs h = cc
  take_of_drop-nil (suc n) [] h = refl
  take_of_drop-nil (suc n) (x ∷ xs) h = ap (◌∷◌ x) (take_of_drop-nil n xs h)
