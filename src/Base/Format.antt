-- ===== src/Base/Format.antt =====
-- What the program writes to a `std::stringstream`: decimal numbers, padded columns, words with
-- separators.
use mathlib.Core.Bool.{Bool, true, false}
use mathlib.Core.List.{List, [], ◌∷◌, ◌++◌}
use Prim.Native.Nat.{ℕ, zero, suc, ◌+◌, ◌-◌, ◌/◌, ◌%◌}
use autotier.Base.Lists.{length}
use autotier.Base.Strings.{Text, codes}
use autotier.Base.Tests.{ltb}

decimal_from : ℕ → ℕ → Text → Text
decimal_from zero n rest = rest
decimal_from (suc fuel) n rest =
    let digits = (b'0' + n % 10) ∷ rest in
    elim (ltb n 10) [ true ↦ digits | false ↦ decimal_from fuel (n / 10) digits ]

-- `std::to_string` of a 64-bit number, which has at most 20 digits.
unfoldable pub decimal : ℕ → Text
unfolding decimal_from
decimal n = decimal_from 20 n []

unfoldable pub repeat : ℕ → ℕ → Text
repeat zero c = []
repeat (suc n) c = c ∷ repeat n c

-- `std::setw(w)` with `std::left` and with `std::right`.
unfoldable pub left : ℕ → Text → Text
unfolding repeat
left w t = t ++ repeat (w - length t) b' '

unfoldable pub right : ℕ → Text → Text
unfolding repeat
right w t = repeat (w - length t) b' ' ++ t

-- `std::endl`.
abbrev pub endl : Text
endl = 10 ∷ []

unfoldable pub concat : List Text → Text
concat [] = []
concat (t ∷ ts) = t ++ concat ts

-- Items with a comma before each but the first.
unfoldable pub separated : List Text → Text
unfolding concat
separated [] = []
separated (t ∷ []) = t
separated (t ∷ u ∷ ts) = t ++ (b',' ∷ separated (u ∷ ts))

-- Items with a space before each.
unfoldable pub spaced : List Text → Text
spaced [] = []
spaced (t ∷ ts) = b' ' ∷ (t ++ spaced ts)

abbrev pub quoted : Text → Text
quoted t = b'"' ∷ (t ++ (b'"' ∷ []))

abbrev pub bool_text : Bool → Text
bool_text true = codes "true"
bool_text false = codes "false"
