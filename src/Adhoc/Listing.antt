-- ===== src/Adhoc/Listing.antt =====
-- The listings of src/impl/autotierfs/TierEngine/components/adhoc.cpp: pins, popularity, and the
-- tier of each file. A width is a C++ `int`; texts are shorter than 2 ^ 31.
use autotier.Base.{
  ℕ, Text, codes, Option, none, some, List, [], ◌∷◌, ◌++◌, ltb, length, if◌then◌else◌, starts_with,
  get_elem?,
}
use autotier.Base.Format.{left, repeat, endl, quoted}
use autotier.Env.{Env}
use autotier.Metadata.{deserialize, metadata_at}
use autotier.Tier.{Tier}
use autotier.Fuse.Helpers.{tier_lookup}
use autotier.Adhoc.{Service, Reply}

abbrev ok_with : Text → Reply
ok_with text = codes "OK" ∷ text ∷ []

abbrev pub widest : ℕ → List Text → ℕ
widest w [] = w
widest w (t ∷ ts) = widest (if ltb w (length t) then length t else w) ts

module _ (E : Env) where
  open E use {db_seek, show, join, relative}

  -- The entries of the database that an iterator gives from the first on.
  unfoldable pub list_pins : List (Text × Text) → Text
  list_pins [] = []
  list_pins ((key, value) ∷ rest) =
      let later = list_pins rest in
      let f = deserialize E value in
      if f.pinned then key ++ (codes " : " ++ (f.tier_path ++ (endl ++ later))) else later

  unfoldable pub process_list_pins : Service E → Reply
  unfolding list_pins
  process_list_pins s = ok_with (codes "File : Tier Path" ++ (endl ++ list_pins (db_seek s.db [])))

  unfoldable pub list_popularity : List (Text × Text) → Text
  list_popularity [] = []
  list_popularity ((key, value) ∷ rest) =
      key
      ++ (codes " : " ++ (show (deserialize E value).popularity ++ (endl ++ list_popularity rest)))

  unfoldable pub process_list_popularity : Service E → Reply
  unfolding list_popularity
  process_list_popularity s =
      ok_with (
        codes "File : Popularity (accesses per hour)"
        ++ (endl ++ list_popularity (db_seek s.db [])))

  -- The arguments under the mount point become relative to it.
  unfoldable pub relative_args : Text → List Text → List Text
  relative_args mount_point [] = []
  relative_args mount_point (arg ∷ args) =
      (if starts_with arg mount_point then relative arg mount_point else arg)
      ∷ relative_args mount_point args

  -- The ids in quotes, of which the widest gives the column its width.
  unfoldable pub quoted_ids : List Tier → List Text
  quoted_ids [] = []
  quoted_ids (t ∷ ts) = quoted t.id ∷ quoted_ids ts

  abbrev tier_cell : Option Tier → Text
  tier_cell none = codes "UNK"
  tier_cell (some t) = quoted t.id

  unfoldable pub tier_of_index : Option ℕ → List Tier → Option Tier
  tier_of_index none tiers = none
  tier_of_index (some i) tiers = get_elem? tiers i

  unfoldable pub which_tier_line : ℕ → ℕ → Text → Service E → Text
  unfolding tier_of_index
  which_tier_line namew tierw arg s =
      let f = metadata_at E arg s.db none in
      let place = tier_cell (tier_of_index (tier_lookup E f.tier_path s.tiers) s.tiers) in
      left namew arg
      ++ (codes "  "
          ++ ((if f.not_found
                then codes "not found"
                else left tierw place ++ (codes "  " ++ join f.tier_path arg))
              ++ endl))

  unfoldable pub which_tier_lines : ℕ → ℕ → List Text → Service E → Text
  unfolding which_tier_line
  which_tier_lines namew tierw [] s = []
  which_tier_lines namew tierw (arg ∷ args) s =
      which_tier_line namew tierw arg s ++ which_tier_lines namew tierw args s

  -- `namew` is at least the length of `File`; `tierw` starts from 0.
  unfoldable pub process_which_tier : List Text → Service E → Reply
  unfolding relative_args quoted_ids which_tier_lines
  process_which_tier given s =
      let args = relative_args s.mount_point given in
      let namew = widest 0 (codes "File" ∷ args) in
      let tierw = widest 0 (quoted_ids s.tiers) in
      ok_with (
        left namew (codes "File")
        ++ (codes "  "
            ++ (left tierw (codes "Tier")
                ++ (codes "  Backend Path"
                    ++ (endl
                        ++ (repeat 80 b'-' ++ (endl ++ which_tier_lines namew tierw args s)))))))
