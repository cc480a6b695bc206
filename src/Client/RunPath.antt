-- ===== src/Client/RunPath.antt =====
-- `get_run_path` of src/impl/autotier/autotier.cpp: where the command line program looks for the
-- socket.
use autotier.Base.{
  ℕ, ◌≡◌, refl, Text, codes, true, false, Option, none, some, List, [], if◌then◌else◌, if_together,
  if_split, ◌||◌, not,
}
use autotier.Env.{Env}
use autotier.Tier.{Tier}
use autotier.Config.{
  Parsed, Config, Load, exited, loaded, common_settings, section_settings, global_settings,
  load_sections, enough_tiers, validate_backend_path, finish_load, load_config, Sections,
}

abbrev run_path_in : Parsed → Option Text → Text
run_path_in p scope = p.get_text scope (codes "Run Path") (codes "/var/lib/autotier")

-- `hash` is that of the configuration's path, in decimal.
unfoldable pub get_run_path : (Text → Text → Text) → Parsed → Text → Text
get_run_path join p hash =
    if p.has_section (codes "Global")
    then join (run_path_in p (some (codes "Global"))) hash
    else (if p.has_section (codes "global")
        then join (run_path_in p (some (codes "global"))) hash
        else join (run_path_in p none) hash)

module _ (E : Env) where
  open E use {World, join}

  -- Where the engine keeps its socket.
  abbrev pub HasRunPath : Text → Load (Config × List Tier × World) → Type 0
  HasRunPath path exited = Unit
  HasRunPath path (loaded (c, tiers, w)) = c.run_path ≡ path

  same_run_path :
      (p : Parsed) (hash : Text) → join (global_settings p).run_path hash ≡ get_run_path join p hash
  unfolding global_settings section_settings common_settings get_run_path
  same_run_path p hash =
      if_together (λ (c : Config) path. join c.run_path hash ≡ path)
        (p.has_section (codes "Global")) refl
        (if_together (λ (c : Config) path. join c.run_path hash ≡ path)
          (p.has_section (codes "global")) refl refl)

  finish_load-HasRunPath :
      (c : Config) (r : Load (Sections E)) → HasRunPath c.run_path (finish_load E c r)
  finish_load-HasRunPath c exited = tt
  finish_load-HasRunPath c (loaded (errors, tiers, v)) =
      if_split (HasRunPath c.run_path)
        (errors || ((validate_backend_path E c.run_path true v).0 || not (enough_tiers tiers)))
        (λ _. tt) (λ _. refl)

  -- From the same configuration, the command line program looks for the socket in the directory
  -- in which the engine keeps it.
  pub load_config-HasRunPath :
      (p : Parsed) (hash : Text) (level : Option ℕ) (w : World)
      → HasRunPath (get_run_path join p hash) (load_config E p hash level w)
  unfolding load_config
  load_config-HasRunPath p hash level w =
      rw (← same_run_path p hash)
        (finish_load-HasRunPath _ (load_sections E p p.sections (false, [], w)))
