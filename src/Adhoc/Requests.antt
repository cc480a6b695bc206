-- ===== src/Adhoc/Requests.antt =====
-- Which requests for pinning are queued.
use autotier.Base.{
  sym, ap, ◌∙◌, eq_of_text_eq, length-append, ℕ, ◌-◌, ◌≡◌, ◌≢◌, refl, ◌⊎◌, inl, inr, Text, codes,
  Bool, true, false, Option, none, some, List, [], ◌∷◌, ◌++◌, All, starts_with, length, drop,
  if_split, text_eq, Bool-cases, Option-cases, ◌&&◌, arith, not,
}
use autotier.Base.Dict.{lookup}
use autotier.Env.{Env}
use autotier.Tier.{Tier}
use autotier.OpenFiles.{OpenFiles, is_open}
use autotier.Commands.{AdHoc, Work}
use autotier.Adhoc.{
  Service, Reply, work_queued, push_work, tier_by_id, not_in_fs, open_args, tested_path,
  process_files, process_pin, process_pin_to, is_nil,
}

-- What the server tests of a file.
abbrev pub IsEligible : Text → OpenFiles → Text → Type 0
IsEligible mount_point open_files arg =
    (starts_with arg mount_point ≡ true)
    × (is_open (tested_path mount_point arg) open_files ≡ false)

cons_nil : {x : Text} {xs : List Text} → x ∷ xs ≢ []
cons_nil h = cc

Eligible_of_nil :
    (mount_point : Text) (open_files : OpenFiles) (args : List Text)
    → not_in_fs mount_point args ≡ []
    → open_args mount_point open_files args ≡ []
    → All (IsEligible mount_point open_files) args
unfolding not_in_fs open_args
Eligible_of_nil mount_point open_files [] h k = tt
Eligible_of_nil mount_point open_files (arg ∷ args) h k =
    elim (Bool-cases (starts_with arg mount_point)) [
      | inl e ↦ elim (Bool-cases (is_open (tested_path mount_point arg) open_files)) [
        | inl o ↦ absurd (cons_nil (rw (e, o) at k))
        | inr o ↦ ((e, o), Eligible_of_nil mount_point open_files args (rw e at h) (rw (e, o) at k))
      ]
      | inr e ↦ absurd (cons_nil (rw e at h))
    ]

nil_of_Eligible :
    (mount_point : Text) (open_files : OpenFiles) (args : List Text)
    → All (IsEligible mount_point open_files) args
    → (not_in_fs mount_point args ≡ []) × (open_args mount_point open_files args ≡ [])
unfolding not_in_fs open_args
nil_of_Eligible mount_point open_files [] v = (refl, refl)
nil_of_Eligible mount_point open_files (arg ∷ args) v =
    rw (v.0.0, v.0.1) (nil_of_Eligible mount_point open_files args v.1)

abbrev pub is_ok : Reply → Bool
is_ok [] = false
is_ok (status ∷ messages) = text_eq status (codes "OK")

module _ (E : Env) where
  abbrev pub AllEligible : List Text → Service E → Type 0
  AllEligible files s = All (IsEligible s.mount_point s.open_files) files

  -- The two answers to a request to pin: it is queued, or the queue stays as it is.
  pub data Answer (work : AdHoc) (tier_id : Text) (files : List Text) (s : Service E)
      (r : Option (Reply × Work)) : Type 0 where
    accepted :
        (tier : Tier)
        → tier_by_id tier_id s.tiers ≡ some tier
        → AllEligible files s
        → r ≡ some (work_queued, push_work work s.work)
        → Answer work tier_id files s r
    rejected :
        (reply : Reply)
        → (tier_by_id tier_id s.tiers ≡ none) ⊎ (¬ AllEligible files s)
        → is_ok reply ≡ false
        → r ≡ some (reply, s.work)
        → Answer work tier_id files s r

  process_files-Answer :
      (work : AdHoc) (tier_id : Text) (tier : Tier) (files : List Text) (s : Service E)
      → s.mount_point ≢ []
      → tier_by_id tier_id s.tiers ≡ some tier
      → Answer work tier_id files s (process_files E work files s)
  unfolding process_files text_eq
  process_files-Answer work tier_id tier files s m e =
      if_split (Answer work tier_id files s) (is_nil s.mount_point && not (is_nil files))
        (λ h. absurd (m (nil_of s.mount_point h)))
        (λ _.
          if_split (Answer work tier_id files s)
            (is_nil (not_in_fs s.mount_point files)
              && is_nil (open_args s.mount_point s.open_files files))
            (λ h.
              let (a, b) =
                both_nil (not_in_fs s.mount_point files)
                  (open_args s.mount_point s.open_files files) h in
              accepted tier e (Eligible_of_nil s.mount_point s.open_files files a b) refl)
            (λ h.
              rejected _ (inr (λ v. not_nil (nil_of_Eligible s.mount_point s.open_files files v) h))
                refl refl))
    where
      nil_of : (m : Text) → (is_nil m && not (is_nil files)) ≡ true → m ≡ []
      nil_of [] h = refl
      nil_of (x ∷ xs) h = cc

      both_nil : (xs ys : List Text) → (is_nil xs && is_nil ys) ≡ true → (xs ≡ []) × (ys ≡ [])
      both_nil [] [] h = (refl, refl)
      both_nil [] (y ∷ ys) h = cc
      both_nil (x ∷ xs) ys h = cc

      not_nil : {xs ys : List Text} → (xs ≡ []) × (ys ≡ []) → (is_nil xs && is_nil ys) ≢ false
      not_nil (a, b) h = cc

  -- A request to pin files to a tier, with a mount point set, is answered in one of two ways: it
  -- is queued behind the other jobs and the answer is OK, if the tier exists, every file is under
  -- the mount point and none is open under the path that the server tests; or the answer is not
  -- OK, the queue stays as it is, and the tier does not exist or a file is not so.
  pub process_pin-Answer :
      (work : AdHoc) (tier_id : Text) (files : List Text) (s : Service E)
      → s.mount_point ≢ []
      → Answer work tier_id files s (process_pin E work (tier_id ∷ files) s)
  unfolding process_pin process_pin_to text_eq
  process_pin-Answer work tier_id files s m = elim (Option-cases (tier_by_id tier_id s.tiers)) [
    | inl e ↦ rw e (rejected _ (inl e) refl refl)
    | inr (tier, e) ↦ rw e (process_files-Answer work tier_id tier files s m e)
  ]

-- The table of open files has full paths.
abbrev pub AreRooted : OpenFiles → Type 0
AreRooted = All (λ (entry : Text × ℕ). starts_with entry.0 (b'/' ∷ []) ≡ true)

no_key :
    (path : Text) (open_files : OpenFiles)
    → AreRooted open_files
    → starts_with path (b'/' ∷ []) ≡ false
    → lookup path open_files ≡ none
unfolding lookup
no_key path [] v h = refl
no_key path ((key, count) ∷ rest) v h =
    if_split (λ r. r ≡ none) (text_eq key path)
      (λ e. absurd (rooted (rw (sym (eq_of_text_eq key path e)) at h) v.0))
      (λ e. no_key path rest v.1 h)
  where
    rooted : starts_with key (b'/' ∷ []) ≡ false → starts_with key (b'/' ∷ []) ≢ true
    rooted a b = cc

drop_root :
    (root : Text) (last : ℕ) (arg : Text)
    → starts_with arg (root ++ (last ∷ [])) ≡ true
    → (rest : Text) × (drop (length root) arg ≡ last ∷ rest)
unfolding starts_with
drop_root [] last [] h = cc
drop_root [] last (x ∷ xs) h = (xs, ap (λ y. y ∷ xs) (ground arith))
drop_root (c ∷ root) last [] h = cc
drop_root (c ∷ root) last (x ∷ xs) h = drop_root root last xs (ground arith)

tested_path_last :
    (root : Text) (last : ℕ) (arg : Text)
    → starts_with arg (root ++ (last ∷ [])) ≡ true
    → (rest : Text) × (tested_path (root ++ (last ∷ [])) arg ≡ last ∷ rest)
tested_path_last root last arg h =
    let (rest, r) = drop_root root last arg h in
    let e : length (root ++ (last ∷ [])) - 1 ≡ length root =
      omega (arith, length-append root (last ∷ [])) in
    (rest, rw e r)

no_slash : (c : ℕ) (rest : Text) → c ≢ b'/' → starts_with (c ∷ rest) (b'/' ∷ []) ≡ false
unfolding starts_with
no_slash c rest n = ground arith

not_open :
    (path : Text) (open_files : OpenFiles)
    → lookup path open_files ≡ none
    → is_open path open_files ≡ false
unfolding is_open
not_open path open_files h = ground arith

differ : false ≢ true
differ h = cc

-- With a mount point that does not end in `/`, the path that the server tests is no full path: it
-- begins with the last byte of the mount point. So as the open files are registered by their full
-- paths, no request to pin or unpin is ever rejected for an open file.
pub open_args_never :
    (root : Text) (last : ℕ) (args : List Text) (open_files : OpenFiles)
    → last ≢ b'/'
    → AreRooted open_files
    → open_args (root ++ (last ∷ [])) open_files args ≡ []
unfolding open_args
open_args_never root last [] open_files n v = refl
open_args_never root last (arg ∷ args) open_files n v =
    if_split (λ r. r ≡ []) (starts_with arg (root ++ (last ∷ [])))
      (λ e.
        let (rest, r) = tested_path_last root last arg e in
        let o =
          not_open (tested_path (root ++ (last ∷ [])) arg) open_files
            (no_key _ open_files v (rw r (no_slash last rest n))) in
        if_split (λ r. r ≡ []) (is_open (tested_path (root ++ (last ∷ [])) arg) open_files)
          (λ e. absurd (differ (sym o ∙ e))) (λ e. open_args_never root last args open_files n v))
      (λ e. open_args_never root last args open_files n v)
