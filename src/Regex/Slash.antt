-- ===== src/Regex/Slash.antt =====
-- A pattern without `/` matches no text with one.
use autotier.Base.{
  ℕ, Text, ◌≡◌, ◌⊎◌, refl, inl, inr, Bool, true, false, [], ◌∷◌, ◌==◌, if◌then◌else◌, arith,
  Bool-cases,
}
use autotier.Regex.{
  Regex, void, eps, one_of, not_char, any, seq, alt, star, elem, nullable, deriv, regex_match,
}

-- No part of the pattern accepts the character.
abbrev pub Avoids : ℕ → Regex → Type 0
Avoids x void = Unit
Avoids x eps = Unit
Avoids x (one_of cs) = elem x cs ≡ false
Avoids x (not_char c) = c ≡ x
Avoids x any = ⊥
Avoids x (seq r s) = Avoids x r × Avoids x s
Avoids x (alt r s) = Avoids x r × Avoids x s
Avoids x (star r) = Avoids x r

-- Patterns that match nothing, by their shape.
abbrev IsVoid : Regex → Type 0
IsVoid void = Unit
IsVoid (seq r s) = IsVoid r ⊎ IsVoid s
IsVoid (alt r s) = IsVoid r × IsVoid s
IsVoid _ = ⊥

nullable-IsVoid : (r : Regex) → IsVoid r → nullable r ≡ false
unfolding nullable
nullable-IsVoid void v = refl
nullable-IsVoid (seq r s) (inl v) = rw (nullable-IsVoid r v)
nullable-IsVoid (seq r s) (inr v) = ground (arith, nullable-IsVoid s v)
nullable-IsVoid (alt r s) v = ground (arith, nullable-IsVoid r v.0, nullable-IsVoid s v.1)
nullable-IsVoid eps v = absurd v
nullable-IsVoid (one_of cs) v = absurd v
nullable-IsVoid (not_char c) v = absurd v
nullable-IsVoid any v = absurd v
nullable-IsVoid (star r) v = absurd v

if-IsVoid : (b : Bool) (r : Regex) → IsVoid r → IsVoid (if b then r else void)
if-IsVoid true r v = v
if-IsVoid false r v = tt

deriv-IsVoid : (c : ℕ) (r : Regex) → IsVoid r → IsVoid (deriv c r)
unfolding deriv
deriv-IsVoid c void v = tt
deriv-IsVoid c (seq r s) (inl v) = rw (nullable-IsVoid r v) (inl (deriv-IsVoid c r v), tt)
deriv-IsVoid c (seq r s) (inr v) = (inr v, if-IsVoid (nullable r) _ (deriv-IsVoid c s v))
deriv-IsVoid c (alt r s) v = (deriv-IsVoid c r v.0, deriv-IsVoid c s v.1)
deriv-IsVoid c eps v = absurd v
deriv-IsVoid c (one_of cs) v = absurd v
deriv-IsVoid c (not_char x) v = absurd v
deriv-IsVoid c any v = absurd v
deriv-IsVoid c (star r) v = absurd v

regex_match-IsVoid : (t : Text) (r : Regex) → IsVoid r → regex_match t r ≡ false
unfolding regex_match
regex_match-IsVoid [] r v = nullable-IsVoid r v
regex_match-IsVoid (c ∷ cs) r v = regex_match-IsVoid cs (deriv c r) (deriv-IsVoid c r v)

deriv-Avoids_self : (x : ℕ) (r : Regex) → Avoids x r → IsVoid (deriv x r)
unfolding deriv
deriv-Avoids_self x void v = tt
deriv-Avoids_self x eps v = tt
deriv-Avoids_self x (one_of cs) v = rw v tt
deriv-Avoids_self x (not_char c) v = let e : (x == c) ≡ true = ground arith in rw e tt
deriv-Avoids_self x any v = absurd v
deriv-Avoids_self x (seq r s) v =
    (inl (deriv-Avoids_self x r v.0), if-IsVoid (nullable r) _ (deriv-Avoids_self x s v.1))
deriv-Avoids_self x (alt r s) v = (deriv-Avoids_self x r v.0, deriv-Avoids_self x s v.1)
deriv-Avoids_self x (star r) v = inl (deriv-Avoids_self x r v)

if-Avoids :
    (x : ℕ) (b : Bool) (r s : Regex) → Avoids x r → Avoids x s → Avoids x (if b then r else s)
if-Avoids x true r s v w = v
if-Avoids x false r s v w = w

deriv-Avoids : (x c : ℕ) (r : Regex) → Avoids x r → Avoids x (deriv c r)
unfolding deriv
deriv-Avoids x c void v = tt
deriv-Avoids x c eps v = tt
deriv-Avoids x c (one_of cs) v = if-Avoids x (elem c cs) eps void tt tt
deriv-Avoids x c (not_char y) v = if-Avoids x (c == y) void eps tt tt
deriv-Avoids x c any v = absurd v
deriv-Avoids x c (seq r s) v =
    ((deriv-Avoids x c r v.0, v.1), if-Avoids x (nullable r) _ void (deriv-Avoids x c s v.1) tt)
deriv-Avoids x c (alt r s) v = (deriv-Avoids x c r v.0, deriv-Avoids x c s v.1)
deriv-Avoids x c (star r) v = (deriv-Avoids x c r v, v)

-- A text in which a character stands matches no pattern whose every part rejects it.
pub regex_match-Avoids :
    (x : ℕ) (t : Text) (r : Regex) → Avoids x r → elem x t ≡ true → regex_match t r ≡ false
unfolding regex_match
regex_match-Avoids x [] r v h = cc
regex_match-Avoids x (c ∷ cs) r v h = elim (Bool-cases (x == c)) [
  | inl same ↦
      let e : c ≡ x = ground arith in
      rw e (regex_match-IsVoid cs (deriv x r) (deriv-Avoids_self x r v))
  | inr other ↦ regex_match-Avoids x cs (deriv c r) (deriv-Avoids x c r v) (ground arith)
]
