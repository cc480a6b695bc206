-- ===== src/Adhoc/Status.antt =====
-- `process_status` of src/impl/autotierfs/TierEngine/components/adhoc.cpp: the totals over the
-- tiers, as JSON or as a table. `version` is the macro VERS.
use autotier.Base.{
  ℕ, Text, codes, Bool, false, Option, none, some, List, [], ◌∷◌, ◌++◌, ◌==◌, ◌||◌, leb, ◌&&◌,
  if◌then◌else◌, starts_with,
}
use autotier.Base.Format.{decimal, left, right, repeat, endl, concat, separated, quoted, bool_text}
use autotier.Env.{Env}
use autotier.Conflicts.{check_conflicts}
use autotier.Logger.{format_bytes}
use autotier.Tier.{Tier}
use autotier.Adhoc.{Service, Reply}
use autotier.Adhoc.Listing.{widest}

-- The sums of what the tiers have.
pub record Totals : Type 0 where
  pub capacity : ℕ
  pub quota : ℕ
  pub usage : ℕ

-- `json_ss >> std::boolalpha >> json`, where a text that is no Boolean gives `false`: the stream
-- throws no exceptions.
unfoldable pub wants_json : Text → Bool
wants_json [] = false
wants_json (c ∷ cs) =
    let later = wants_json cs in
    if c == b' ' || (leb 9 c && leb c 13) then later else starts_with (c ∷ cs) (codes "true")

-- A name and a value of a JSON object, between quotes or not.
abbrev pair : Text → Text → Text
pair name value = quoted name ++ (b':' ∷ value)

-- `*itr + "(.autotier_conflict)"`.
unfoldable pub conflict_lines : List Text → Text
conflict_lines [] = []
conflict_lines (c ∷ cs) = c ++ (codes "(.autotier_conflict)" ++ (endl ++ conflict_lines cs))

unfoldable pub quoted_all : List Text → List Text
quoted_all [] = []
quoted_all (t ∷ ts) = quoted t ∷ quoted_all ts

module _ (E : Env) where
  open E use {Double, bytes_add, bytes_text, bytes_over, quota_fraction, times, literal, show_fixed}

  unfoldable pub add_totals : List Tier → Totals → Totals
  add_totals [] total = total
  add_totals (t ∷ ts) total = add_totals ts (record {
    capacity = bytes_add total.capacity t.capacity;
    quota = bytes_add total.quota t.quota;
    usage = bytes_add total.usage t.usage;
  })

  unfoldable pub totals : List Tier → Totals
  unfolding add_totals
  totals tiers = add_totals tiers (record { capacity = 0; quota = 0; usage = 0 })

  -- Three byte counts, each as a number and for people, and a path.
  abbrev counts_json : Totals → Text → List Text
  counts_json t path =
      pair (codes "capacity") (decimal t.capacity)
      ∷ pair (codes "capacity_pretty") (quoted (bytes_text t.capacity))
      ∷ pair (codes "quota") (decimal t.quota)
      ∷ pair (codes "quota_pretty") (quoted (bytes_text t.quota))
      ∷ pair (codes "usage") (decimal t.usage)
      ∷ pair (codes "usage_pretty") (quoted (bytes_text t.usage))
      ∷ pair (codes "path") (quoted path)
      ∷ []

  abbrev braces : List Text → Text
  braces fields = b'{' ∷ (separated fields ++ (b'}' ∷ []))

  abbrev brackets : List Text → Text
  brackets items = b'[' ∷ (separated items ++ (b']' ∷ []))

  abbrev own_totals : Tier → Totals
  own_totals t = record { capacity = t.capacity; quota = t.quota; usage = t.usage }

  abbrev tier_json : Tier → Text
  tier_json t = braces (pair (codes "name") (quoted t.id) ∷ counts_json (own_totals t) t.path)

  unfoldable pub tiers_json : List Tier → List Text
  tiers_json [] = []
  tiers_json (t ∷ ts) = tier_json t ∷ tiers_json ts

  unfoldable pub status_json : Text → List Text → Bool → Service E → Text
  unfolding totals tiers_json quoted_all
  status_json version conflicts has_conflicts s = braces (
      pair (codes "version") (quoted version)
      ∷ pair (codes "combined") (braces (counts_json (totals s.tiers) s.mount_point))
      ∷ pair (codes "tiers") (brackets (tiers_json s.tiers))
      ∷ pair (codes "conflicts") (
          braces (
            pair (codes "has_conflicts") (bool_text has_conflicts)
            ∷ pair (codes "paths") (brackets (quoted_all conflicts))
            ∷ []))
      ∷ [])

  -- Cells of the table: a size with its unit, and a percentage.
  abbrev size_cell : ℕ → Text
  size_cell bytes =
      let (formatted, unit) = format_bytes E bytes in
      right 7 (show_fixed 2 formatted) ++ (right 4 unit ++ codes " ")

  abbrev percent_cell : Double → Text
  percent_cell percent = right 6 (show_fixed 2 percent) ++ (right 2 (codes "%") ++ codes " ")

  abbrev table_line : ℕ → Text → Totals → Double → Double → Text → Text
  table_line namew name t quota_percent usage_percent path = concat (
      left namew name
      ∷ codes " "
      ∷ size_cell t.capacity
      ∷ size_cell t.quota
      ∷ percent_cell quota_percent
      ∷ size_cell t.usage
      ∷ percent_cell usage_percent
      ∷ path
      ∷ endl
      ∷ [])

  abbrev header_line : ℕ → Text
  header_line namew = concat (
      left namew (codes "Tier")
      ∷ codes " "
      ∷ right 7 (codes "Size")
      ∷ codes "     "
      ∷ right 7 (codes "Quota")
      ∷ codes "     "
      ∷ right 6 (codes "Quota")
      ∷ codes " % "
      ∷ right 7 (codes "Use")
      ∷ codes "     "
      ∷ right 6 (codes "Use")
      ∷ codes " % "
      ∷ codes "Path"
      ∷ endl
      ∷ repeat 80 b'-'
      ∷ endl
      ∷ [])

  abbrev percent_of : ℕ → ℕ → Double
  percent_of part whole = times (bytes_over part whole) (literal 100 0)

  -- `quota_percent()` and `usage_percent()` of a tier.
  unfoldable pub quota_percent : Tier → Double
  quota_percent t = times (quota_fraction t.quota t.capacity) (literal 100 0)

  unfoldable pub usage_percent : Tier → Double
  usage_percent t = percent_of t.usage t.quota

  unfoldable pub tier_lines : ℕ → List Tier → Text
  unfolding quota_percent usage_percent
  tier_lines namew [] = []
  tier_lines namew (t ∷ ts) =
      table_line namew t.id (own_totals t) (quota_percent t) (usage_percent t) t.path
      ++ tier_lines namew ts

  unfoldable pub tier_ids : List Tier → List Text
  tier_ids [] = []
  tier_ids (t ∷ ts) = t.id ∷ tier_ids ts

  unfoldable pub status_table : List Text → Bool → Service E → Text
  unfolding totals tier_ids tier_lines conflict_lines
  status_table conflicts has_conflicts s =
      let t = totals s.tiers in
      let namew = widest 0 (codes "combined" ∷ tier_ids s.tiers) in
      concat (
        header_line namew
        ∷ table_line namew (codes "combined") t (percent_of t.quota t.capacity)
            (percent_of t.usage t.capacity) s.mount_point
        ∷ tier_lines namew s.tiers
        ∷ (if has_conflicts
            then endl
              ++ (endl
                  ++ (codes "autotier encountered conflicting file paths between tiers:"
                      ++ (endl ++ conflict_lines conflicts)))
            else [])
        ∷ [])

  -- The conflicts are read from the log, whose file is written again.
  unfoldable pub process_status : Text → List Text → Service E → Option (Reply × Service E)
  unfolding status_json status_table wants_json
  process_status version [] s = none
  process_status version (arg ∷ args) s =
      let (conflicts, has_conflicts, w) = check_conflicts E [] s.run_path s.world in
      let text =
        (if wants_json arg
          then status_json version conflicts has_conflicts s
          else status_table conflicts has_conflicts s) in
      some (codes "OK" ∷ text ∷ [], record s { world = w })
