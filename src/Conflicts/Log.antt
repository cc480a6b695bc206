-- ===== src/Conflicts/Log.antt =====
-- What is logged is read back, until it is resolved.
use mathlib.Core.List.{append-nil, append_assoc, Memᴰ}
use autotier.Base.{
  Text, codes, starts_with, ◌≡◌, ◌≢◌, refl, sym, ap, ◌∙◌, Bool, true, false, ◌||◌, some, List, [],
  ◌∷◌, ◌++◌, All, ◌==◌, Bool-cases, inl, inr,
}
use autotier.Env.{Env}
use autotier.Conflicts.{
  newline, not_empty, lines_from, get_lines, put_lines, still_conflicted, keep_conflicted,
  any_starts_with, read_conflicts, write_conflicts, log_file, check_conflicts, add_conflict,
}

-- A path that can stand on a line.
abbrev pub IsEntry : Text → Type 0
IsEntry [] = ⊥
IsEntry (c ∷ cs) = All (λ c. (c == newline) ≡ false) (c ∷ cs)

abbrev NoBreak : Text → Type 0
NoBreak = All (λ c. (c == newline) ≡ false)

IsEntry-NoBreak : (e : Text) → IsEntry e → NoBreak e
IsEntry-NoBreak [] v = absurd v
IsEntry-NoBreak (c ∷ cs) v = v

lines_from-line :
    (line rest acc : Text)
    → NoBreak line
    → lines_from (line ++ (newline ∷ rest)) acc ≡ (acc ++ line) ∷ lines_from rest []
unfolding lines_from
lines_from-line [] rest acc v = rw (append-nil acc)
lines_from-line (c ∷ line) rest acc v =
    rw (v.0, lines_from)
      (lines_from-line line rest (acc ++ (c ∷ [])) v.1
        ∙ ap (λ l. l ∷ lines_from rest []) (append_assoc acc (c ∷ []) line))

-- Reading back a log that was written from paths without line breaks gives the paths.
pub get_lines-put_lines :
    (entries : List Text) → All IsEntry entries → get_lines (put_lines entries) ≡ entries
unfolding get_lines put_lines
get_lines-put_lines [] v = refl
get_lines-put_lines (e ∷ es) v =
    lines_from-line e (put_lines es) [] (IsEntry-NoBreak e v.0)
    ∙ ap (λ l. e ∷ l) (get_lines-put_lines es v.1)

All-append {ℓ κ} :
    {A : Type ℓ} (P : A → Type κ) (xs ys : List A) → All P xs → All P ys → All P (xs ++ ys)
All-append P [] ys v w = w
All-append P (x ∷ xs) ys v w = (v.0, All-append P xs ys v.1 w)

All-NoBreak : (es : List Text) → All IsEntry es → All NoBreak es
All-NoBreak [] v = tt
All-NoBreak (e ∷ es) v = (IsEntry-NoBreak e v.0, All-NoBreak es v.1)

false_ne : false ≢ true
false_ne h = cc

or_true : (b : Bool) {c : Bool} → c ≡ true → (b || c) ≡ true
or_true true h = refl
or_true false h = h

-- The log as a file: what is written is read back.
pub record IsLogFile (E : Env) : Type 0 where
  pub read-write :
      (path text : Text) (w w' : E.World)
      → E.write_file path text w ≡ some w'
      → E.read_file path w' ≡ some text

module _ (E : Env) where
  conflicted-IsEntry :
      (w : E.World) (e : Text) → NoBreak e → still_conflicted E w e ≡ true → IsEntry e
  unfolding still_conflicted not_empty
  conflicted-IsEntry w [] v h = cc
  conflicted-IsEntry w (c ∷ cs) v h = v

  keep_conflicted-IsEntry :
      (w : E.World) (es : List Text) → All NoBreak es → All IsEntry (keep_conflicted E w es)
  unfolding keep_conflicted
  keep_conflicted-IsEntry w [] v = tt
  keep_conflicted-IsEntry w (e ∷ es) v = elim (Bool-cases (still_conflicted E w e)) [
    | inl h ↦ rw h (conflicted-IsEntry w e v.0 h, keep_conflicted-IsEntry w es v.1)
    | inr h ↦ rw h (keep_conflicted-IsEntry w es v.1)
  ]

  read_conflicts_of :
      (path : Text) (w : E.World) {text : Text}
      → E.read_file path w ≡ some text
      → read_conflicts E [] path w ≡ keep_conflicted E w (get_lines text)
  unfolding read_conflicts
  read_conflicts_of path w e = rw (e, read_conflicts)

  -- The path is there, and next to it a path that begins like a conflicting copy of it.
  pub record IsConflicted (w : E.World) (entry : Text) : Type 0 where
    pub named : entry ≢ []
    pub there : E.path_exists entry w ≡ true
    pub copy : Text
    pub beside : Memᴰ copy (E.dir_paths (E.parent_path entry) w)
    pub alike : starts_with copy (entry ++ codes ".autotier_conflict") ≡ true

  -- The second list has those of the first that are conflicted, in their order, and no others.
  pub data Remain (w : E.World) : List Text → List Text → Type 0 where
    none_left : Remain w [] []
    stays :
        {entry : Text} {entries rest : List Text}
        → IsConflicted w entry
        → Remain w entries rest
        → Remain w (entry ∷ entries) (entry ∷ rest)
    resolved :
        {entry : Text} {entries rest : List Text}
        → ¬ IsConflicted w entry
        → Remain w entries rest
        → Remain w (entry ∷ entries) rest

  copy_beside :
      (test : Text) (paths : List Text)
      → any_starts_with test paths ≡ true
      → (copy : Text) × Memᴰ copy paths × (starts_with copy test ≡ true)
  unfolding any_starts_with
  copy_beside test [] h = absurd (false_ne h)
  copy_beside test (path ∷ paths) h = elim (Bool-cases (starts_with path test)) [
    | inl e ↦ (path, Memᴰ.head refl, e)
    | inr e ↦ let (copy, m, k) = copy_beside test paths (rw e at h) in (copy, Memᴰ.tail m, k)
  ]

  any_starts_with-mem :
      (test copy : Text) (paths : List Text)
      → Memᴰ copy paths
      → starts_with copy test ≡ true
      → any_starts_with test paths ≡ true
  unfolding any_starts_with
  any_starts_with-mem test copy [] m h = elim m [ ]
  any_starts_with-mem test copy (path ∷ paths) (Memᴰ.head e) h =
      let k : starts_with path test ≡ true = ap (λ p. starts_with p test) (sym e) ∙ h in rw k refl
  any_starts_with-mem test copy (path ∷ paths) (Memᴰ.tail m) h =
      or_true (starts_with path test) (any_starts_with-mem test copy paths m h)

  still_conflicted-IsConflicted :
      (w : E.World) (entry : Text) → still_conflicted E w entry ≡ true → IsConflicted w entry
  unfolding still_conflicted not_empty
  still_conflicted-IsConflicted w [] h = absurd (false_ne h)
  still_conflicted-IsConflicted w (c ∷ cs) h = elim (Bool-cases (E.path_exists (c ∷ cs) w)) [
    | inr e ↦ absurd (false_ne (rw e at h))
    | inl e ↦
        let (copy, m, k) = copy_beside _ (E.dir_paths (E.parent_path (c ∷ cs)) w) (rw e at h) in
        record { named = λ n. cc; there = e; copy = copy; beside = m; alike = k }
  ]

  IsConflicted-still_conflicted :
      (w : E.World) (entry : Text) → IsConflicted w entry → still_conflicted E w entry ≡ true
  unfolding still_conflicted not_empty
  IsConflicted-still_conflicted w [] c = absurd (c.named refl)
  IsConflicted-still_conflicted w (x ∷ xs) c =
      rw (c.there) (any_starts_with-mem _ c.copy _ c.beside c.alike)

  keep_conflicted-Remain : (w : E.World) (es : List Text) → Remain w es (keep_conflicted E w es)
  unfolding keep_conflicted
  keep_conflicted-Remain w [] = none_left
  keep_conflicted-Remain w (e ∷ es) = elim (Bool-cases (still_conflicted E w e)) [
    | inl h ↦ rw h (stays (still_conflicted-IsConflicted w e h) (keep_conflicted-Remain w es))
    | inr h ↦ rw h (
        resolved (λ c. false_ne (sym h ∙ IsConflicted-still_conflicted w e c))
          (keep_conflicted-Remain w es))
  ]

  -- After `add_conflict` on a log of some earlier paths, where the log can be written and is then
  -- read back, `check_conflicts` finds, in their order and no others, those paths that are in
  -- conflict when it runs, of the new path behind the earlier ones that were in conflict when it was
  -- added. A path is in conflict if it is there and next to it is one that begins like it with
  -- `.autotier_conflict` behind. Paths have no line breaks.
  pub check_conflicts-add_conflict :
      (L : IsLogFile E) (path run_path : Text) (earlier : List Text) (w w' : E.World)
      → IsEntry path
      → All IsEntry earlier
      → E.read_file (log_file E run_path) w ≡ some (put_lines earlier)
      → E.write_file
          (log_file E run_path)
          (put_lines (keep_conflicted E w earlier ++ (path ∷ [])))
          w
        ≡ some w'
      → (open_ones : List Text) × Remain w earlier open_ones
        × Remain w'
            (open_ones ++ (path ∷ []))
            (check_conflicts E [] run_path (add_conflict E path run_path w)).0
  unfolding check_conflicts add_conflict write_conflicts
  check_conflicts-add_conflict L path run_path earlier w w' v all logged h =
      let read : read_conflicts E [] (log_file E run_path) w ≡ keep_conflicted E w earlier =
        read_conflicts_of (log_file E run_path) w logged
        ∙ ap (keep_conflicted E w) (get_lines-put_lines earlier all) in
      let kept = keep_conflicted E w earlier ++ (path ∷ []) in
      (
        keep_conflicted E w earlier,
        keep_conflicted-Remain w earlier,
        rw read (
            rw (h, write_conflicts)
              (rw (read_conflicts_of (log_file E run_path) w' (L.read-write _ _ w w' h)) (
                rw
                  (get_lines-put_lines kept (
                    All-append IsEntry _ (path ∷ [])
                      (keep_conflicted-IsEntry w earlier (All-NoBreak earlier all)) (v, tt)))
                  (keep_conflicted-Remain w' kept)))),
      )
