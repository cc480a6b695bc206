-- ===== src/OpenFiles/Count.antt =====
-- The table against its specification, a count for every path.
use autotier.Base.{
  ℕ, ◌+◌, ◌-◌, ◌<◌, ◌≡◌, ◌↔◌, refl, Text, text_eq, text_eq_iff, true, none, some, List, [], ◌∷◌,
  inl, inr, leb, if◌then◌else◌, arith, Option-cases,
}
use autotier.Base.Dict.{lookup, lookup-insert, lookup-erase}
use autotier.OpenFiles.{OpenFiles, register_open_file, release_open_file, is_open}

-- The number of descriptors that the table holds for a path.
pub count_of : Text → OpenFiles → ℕ
count_of path m = elim (lookup path m) [ none ↦ 0 | some count ↦ count ]

-- No entry of the table has count 0.
abbrev pub IsPositive : OpenFiles → Type 0
IsPositive m = (path : Text) (count : ℕ) → lookup path m ≡ some count → 0 < count

pub data Event : Type 0 where
  opened closed : Text → Event

abbrev pub step : Event → OpenFiles → OpenFiles
step (opened path) m = register_open_file path m
step (closed path) m = release_open_file path m

-- The specification: a count per path, which `closed` does not take below 0.
abbrev pub count_step : Text → Event → ℕ → ℕ
count_step q (opened path) n = if text_eq path q then n + 1 else n
count_step q (closed path) n = if text_eq path q then n - 1 else n

pub run : List Event → OpenFiles → OpenFiles
run [] m = m
run (e ∷ es) m = run es (step e m)

pub count_run : Text → List Event → ℕ → ℕ
count_run q [] n = n
count_run q (e ∷ es) n = count_run q es (count_step q e n)

lookup-register :
    (path q : Text) (m : OpenFiles)
    → lookup q (register_open_file path m)
      ≡ (if text_eq path q then some (count_of path m + 1) else lookup q m)
unfolding count_of register_open_file
lookup-register path q m = elim (Option-cases (lookup path m)) [
  | inl e ↦ rw (e, register_open_file, count_of) (lookup-insert path q 1 m)
  | inr (c, e) ↦ rw (e, register_open_file, count_of) (lookup-insert path q (c + 1) m)
]

lookup-release :
    (path q : Text) (m : OpenFiles)
    → lookup q (release_open_file path m) ≡ (
        if text_eq path q
        then (if leb (count_of path m - 1) 0 then none else some (count_of path m - 1))
        else lookup q m)
unfolding count_of release_open_file
lookup-release path q m = elim (Option-cases (lookup path m)) [
  | inl e ↦ rw (e, release_open_file, count_of) (ground (arith, text_eq_iff path q))
  | inr (c, e) ↦
      rw (e, release_open_file, count_of)
        (ground (arith, lookup-erase path q m, lookup-insert path q (c - 1) m))
]

-- The table implements the count: an open adds one to its path's, a close takes one off, and no
-- other path's count moves.
pub count_of-step :
    (e : Event) (q : Text) (m : OpenFiles) → count_of q (step e m) ≡ count_step q e (count_of q m)
unfolding count_of
count_of-step (opened path) q m = ground (arith, text_eq_iff path q, lookup-register path q m)
count_of-step (closed path) q m = ground (arith, text_eq_iff path q, lookup-release path q m)

step-IsPositive : (e : Event) (m : OpenFiles) → IsPositive m → IsPositive (step e m)
step-IsPositive (opened path) m v q count h = ground (arith, v q count, lookup-register path q m)
step-IsPositive (closed path) m v q count h = ground (arith, v q count, lookup-release path q m)

run-IsPositive : (es : List Event) (m : OpenFiles) → IsPositive m → IsPositive (run es m)
unfolding run
run-IsPositive [] m v = v
run-IsPositive (e ∷ es) m v = run-IsPositive es (step e m) (step-IsPositive e m v)

count_of-run :
    (es : List Event) (q : Text) (m : OpenFiles)
    → count_of q (run es m) ≡ count_run q es (count_of q m)
unfolding run count_run
count_of-run [] q m = refl
count_of-run (e ∷ es) q m = rw (← count_of-step e q m) (count_of-run es q (step e m))

is_open-count_of :
    (q : Text) (m : OpenFiles) → IsPositive m → (is_open q m ≡ true) ↔ (0 < count_of q m)
unfolding is_open count_of
is_open-count_of q m v = elim (Option-cases (lookup q m)) [
  | inl e ↦ rw (e, is_open, count_of) (ground arith)
  | inr (c, e) ↦ let p = v q c e in rw (e, is_open, count_of) (ground arith)
]

-- After any sequence of opens and closes of any paths, from an empty table, a path is reported
-- open exactly when its count by the specification is above 0.
pub is_open-run :
    (es : List Event) (q : Text) → (is_open q (run es []) ≡ true) ↔ (0 < count_run q es 0)
unfolding count_of lookup
is_open-run es q =
    rw (← count_of-run es q [])
      (is_open-count_of q (run es []) (run-IsPositive es [] (λ path count h. cc)))
