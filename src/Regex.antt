-- ===== src/Regex.antt =====
-- `std::regex_match` for the patterns that the program writes: by derivatives, over byte lists. A
-- match is of the whole text, so the anchors `^` and `$` say nothing.
pub mod Slash
use autotier.Base.{ℕ, Text, Bool, true, false, ◌&&◌, ◌||◌, not, List, [], ◌∷◌, ◌==◌, if◌then◌else◌}

pub data Regex : Type 0 where
  -- Nothing, and the empty text.
  void eps : Regex
  -- `[abc]`, `[^a]` and `.`, which matches no end of a line.
  one_of : List ℕ → Regex
  not_char : ℕ → Regex
  any : Regex
  seq alt : Regex → Regex → Regex
  star : Regex → Regex

abbrev pub elem : ℕ → List ℕ → Bool
elem c [] = false
elem c (x ∷ xs) = c == x || elem c xs

unfoldable pub nullable : Regex → Bool
nullable void = false
nullable eps = true
nullable (one_of cs) = false
nullable (not_char c) = false
nullable any = false
nullable (seq r s) = nullable r && nullable s
nullable (alt r s) = nullable r || nullable s
nullable (star r) = true

unfoldable pub deriv : ℕ → Regex → Regex
unfolding nullable
deriv c void = void
deriv c eps = void
deriv c (one_of cs) = if elem c cs then eps else void
deriv c (not_char x) = if c == x then void else eps
deriv c any = if c == 10 || c == 13 then void else eps
deriv c (seq r s) =
    let right = deriv c s in alt (seq (deriv c r) s) (if nullable r then right else void)
deriv c (alt r s) = alt (deriv c r) (deriv c s)
deriv c (star r) = seq (deriv c r) (star r)

unfoldable pub regex_match : Text → Regex → Bool
unfolding deriv
regex_match [] r = nullable r
regex_match (c ∷ cs) r = regex_match cs (deriv c r)

-- A text as a pattern, followed by another.
abbrev pub chars : Text → Regex → Regex
chars [] r = r
chars (c ∷ cs) r = seq (one_of (c ∷ [])) (chars cs r)
