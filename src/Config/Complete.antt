-- ===== src/Config/Complete.antt =====
-- What a configuration that loads has.
use mathlib.Core.List.{append-nil, append_assoc}
use mathlib.Core.Option
use autotier.Base.{
  ℕ, ◌≤◌, ◌≡◌, ◌≢◌, refl, sym, ap, ◌∙◌, Text, codes, Bool, true, false, not, ◌||◌, Option, none,
  some, List, [], ◌∷◌, ◌++◌, map, length, All, if◌then◌else◌, if_both, if_split, if_together, arith,
}
use autotier.Env.{Env, StatVfs, Outcome, ret, fail}
use autotier.Regex.{regex_match}
use autotier.Tier.{Tier}
use autotier.Config.{
  ℤ, pos, negsuc, Parsed, Config, Load, exited, loaded, clamp, common_settings, section_settings,
  global_settings, global_re, make_tier, add_section, read_section, then_sections, load_sections,
  enough_tiers, validate_backend_path, finish_load, load_config, Sections,
}

-- The sections that name tiers.
pub tier_sections : List Text → List Text
tier_sections [] = []
tier_sections (name ∷ names) =
    let later = tier_sections names in if regex_match name global_re then later else name ∷ later

abbrev pub ids : List Tier → List Text
ids = map (λ (t : Tier). t.id)

-- A tier's path is what its section has.
abbrev pub HasPath : Parsed → Tier → Type 0
HasPath p t = p.find_text t.id (codes "Path") ≡ some t.path

module _ (E : Env) (p : Parsed) where
  open E use {World}

  -- Without errors every section gave a tier, and there were none before.
  abbrev Added : List Text → Sections E → Load (Sections E) → Type 0
  Added names before exited = Unit
  Added names (errors, tiers, w) (loaded (errors', tiers', w')) =
      errors' ≡ false
      → (errors ≡ false)
        × ((ids tiers' ≡ ids tiers ++ names) × (All (HasPath p) tiers → All (HasPath p) tiers'))

  Added-error :
      (names later : List Text) (s : Sections E) (tiers : List Tier) (w : World)
      (r : Load (Sections E))
      → Added later (true, tiers, w) r
      → Added names s r
  Added-error names later s tiers w exited h = tt
  Added-error names later s tiers w (loaded t) h = λ e. absurd (differ (h e).0)
    where
      differ : true ≢ false
      differ h = cc

  ids-snoc : (tiers : List Tier) (t : Tier) → ids (tiers ++ (t ∷ [])) ≡ ids tiers ++ (t.id ∷ [])
  ids-snoc [] t = refl
  ids-snoc (u ∷ tiers) t = ap (λ rest. u.id ∷ rest) (ids-snoc tiers t)

  HasPath-snoc :
      (tiers : List Tier) (t : Tier)
      → HasPath p t
      → All (HasPath p) tiers
      → All (HasPath p) (tiers ++ (t ∷ []))
  HasPath-snoc [] t h v = (h, tt)
  HasPath-snoc (u ∷ tiers) t h v = (v.0, HasPath-snoc tiers t h v.1)

  Added-tier :
      (later : List Text) (t : Tier) (tiers : List Tier) (w v : World) (r : Load (Sections E))
      → HasPath p t
      → Added later (false, tiers ++ (t ∷ []), v) r
      → Added (t.id ∷ later) (false, tiers, w) r
  Added-tier later t tiers w v exited has h = tt
  Added-tier later t tiers w v (loaded s) has h = λ e.
      let (_, both) = h e in
      let (names, paths) = both in
      (
        refl,
        (
          names
              ∙ ap (λ ns. ns ++ later) (ids-snoc tiers t)
              ∙ append_assoc (ids tiers) (t.id ∷ []) later,
          λ all. paths (HasPath-snoc tiers t has all),
        ),
      )

  add_section-Added :
      (name path : Text) (later : List Text) (tiers : List Tier) (w : World)
      (r : Outcome StatVfs × World) (next : Sections E → Load (Sections E))
      → p.find_text name (codes "Path") ≡ some path
      → ((s : Sections E) → Added later s (next s))
      → Added
          (name ∷ later)
          (false, tiers, w)
          (then_sections E (add_section E p name path r tiers) next)
  unfolding make_tier
  add_section-Added name path later tiers w (fail e, v) next has h = tt
  add_section-Added name path later tiers w (ret stats, v) next has h =
      Added-tier later (make_tier name path _ _) tiers w v (next _) has (h _)

  section-Added :
      (name : Text) (later : List Text) (o : Option Text) (s : Sections E)
      (next : Sections E → Load (Sections E))
      → p.find_text name (codes "Path") ≡ o
      → ((t : Sections E) → Added later t (next t))
      → Added (name ∷ later) s (then_sections E (read_section E p name o s) next)
  section-Added name later none (errors, tiers, w) next e h =
      Added-error (name ∷ later) later (errors, tiers, w) tiers w _ (h (true, tiers, w))
  section-Added name later (some path) (true, tiers, w) next e h =
      Added-error (name ∷ later) later (true, tiers, w) tiers w _ (h (true, tiers, w))
  section-Added name later (some path) (false, tiers, w) next e h =
      add_section-Added name path later tiers w (E.statvfs path w) next e h

  load_sections-Added :
      (names : List Text) (s : Sections E)
      → Added (tier_sections names) s (load_sections E p names s)
  unfolding load_sections tier_sections
  load_sections-Added [] s = λ e. (e, (sym (append-nil (ids s.1)), λ v. v))
  load_sections-Added (name ∷ names) s =
      if_together (λ ns r. Added ns s r) (regex_match name global_re) (load_sections-Added names s)
        (section-Added name (tier_sections names) (p.find_text name (codes "Path")) s
          (load_sections E p names) refl (λ t. load_sections-Added names t))

  -- What is kept of a configuration that loads.
  abbrev pub IsComplete : Option ℕ → Load (Config × List Tier × World) → Type 0
  IsComplete level exited = Unit
  IsComplete level (loaded (c, tiers, w)) =
      (ids tiers ≡ tier_sections p.sections)
      × (All (HasPath p) tiers × ((2 ≤ length tiers) × (level ≡ none → c.log_level ≤ 2)))

  enough_tiers_two : (tiers : List Tier) → enough_tiers tiers ≡ true → 2 ≤ length tiers
  unfolding enough_tiers
  enough_tiers_two [] h = cc
  enough_tiers_two (t ∷ []) h = cc
  enough_tiers_two (t ∷ u ∷ ts) h = omega arith

  clamp_two : (n : ℤ) → clamp n ≤ 2
  unfolding clamp
  clamp_two (pos n) = ground arith
  clamp_two (negsuc n) = omega arith

  IsLow : Config → Type 0
  IsLow c = c.log_level ≤ 2

  common_settings-IsLow :
      (scope : Option Text) (threads : Option ℤ) → IsLow (common_settings p scope threads)
  unfolding common_settings IsLow
  common_settings-IsLow scope threads = clamp_two (p.get_int scope (codes "Log Level") (pos 1))

  global_settings-IsLow : IsLow (global_settings p)
  unfolding global_settings section_settings
  global_settings-IsLow =
      if_both IsLow (p.has_section (codes "Global")) (common_settings-IsLow _ _) (
        if_both IsLow (p.has_section (codes "global")) (common_settings-IsLow _ _)
          (common_settings-IsLow none none))

  finish_load-IsComplete :
      (level : Option ℕ) (c : Config) (r : Load (Sections E)) (w : World)
      → (level ≡ none → c.log_level ≤ 2)
      → Added (tier_sections p.sections) (false, [], w) r
      → IsComplete level (finish_load E c r)
  finish_load-IsComplete level c exited w l h = tt
  finish_load-IsComplete level c (loaded (errors, tiers, v)) w l h =
      let wrong = (validate_backend_path E c.run_path true v).0 in
      if_split (IsComplete level) (errors || (wrong || not (enough_tiers tiers))) (λ _. tt)
        (λ e.
          let f = no_errors errors wrong (enough_tiers tiers) e in
          let (_, both) = h f.0 in
          let (names, paths) = both in (names, (paths tt, (enough_tiers_two tiers f.1, l))))
    where
      no_errors : (a b c : Bool) → (a || (b || not c)) ≡ false → (a ≡ false) × (c ≡ true)
      no_errors a b c h = ground arith

  -- A configuration that loads, and does not end the program, has a tier for each of its sections
  -- but the global one, in their order, none left out, with the path that the section gives; it
  -- has at least two tiers; and the log level, unless it is overridden, is at most 2.
  pub load_config-IsComplete :
      (hash : Text) (level : Option ℕ) (w : World) → IsComplete level (load_config E p hash level w)
  unfolding load_config IsLow
  load_config-IsComplete hash level w =
      finish_load-IsComplete level _ (load_sections E p p.sections (false, [], w)) w (low level)
        (load_sections-Added p.sections (false, [], w))
    where
      no_level : {n : ℕ} → some n ≢ none
      no_level h = cc

      low : (l : Option ℕ) → l ≡ none → Option.get_or l (global_settings p).log_level ≤ 2
      low none h = global_settings-IsLow
      low (some n) h = absurd (no_level h)
