-- ===== src/Config/Dump.antt =====
-- `Config::dump` of src/impl/autotierfs/config.cpp.
use autotier.Base.{
  suc, Text, codes, Option, none, some, List, [], ◌∷◌, ◌++◌, ◌==◌, ◌||◌, if◌then◌else◌,
}
use autotier.Base.Format.{decimal, concat, bool_text}
use autotier.Env.{Env}
use autotier.Logger.{bytes_with_unit}
use autotier.Tier.{Tier}
use autotier.Config.{ℤ, pos, negsuc, Config}

abbrev pub signed : ℤ → Text
signed (pos n) = decimal n
signed (negsuc n) = b'-' ∷ decimal (suc n)

-- Boost writes a path between quotes, with a `&` before a quote or a `&` in it.
unfoldable pub escaped : Text → Text
escaped [] = []
escaped (c ∷ cs) =
    let later = escaped cs in if c == b'"' || c == b'&' then b'&' ∷ c ∷ later else c ∷ later

abbrev pub path_text : Text → Text
path_text path = b'"' ∷ (escaped path ++ (b'"' ∷ []))

module _ (E : Env) where
  open E use {show, times, literal, quota_fraction, bytes_text}

  unfoldable pub dump_tiers : List Tier → Text
  unfolding escaped
  dump_tiers [] = []
  dump_tiers (t ∷ ts) = concat (
      codes "["
      ∷ t.id
      ∷ codes "]\nPath = "
      ∷ path_text t.path
      ∷ codes "\nQuota = "
      ∷ show (times (quota_fraction t.quota t.capacity) (literal 100 0))
      ∷ codes " % ("
      ∷ bytes_text t.quota
      ∷ codes ")\n \n"
      ∷ dump_tiers ts
      ∷ [])

  -- A number of threads that was not initialised has no defined text.
  unfoldable pub dump : Config → List Tier → Option Text
  unfolding dump_tiers
  dump c tiers = elim c.crawler_threads [
    | none ↦ none
    | some threads ↦ some (
        concat (
          codes "[Global]\nLog Level = "
          ∷ decimal c.log_level
          ∷ codes "\nTier Period = "
          ∷ signed c.tier_period_s
          ∷ codes "\nStrict Period = "
          ∷ bool_text c.strict_period
          ∷ codes "\nCopy Buffer Size = "
          ∷ bytes_with_unit E c.copy_buff_sz
          ∷ codes "\nCrawler Threads = "
          ∷ signed threads
          ∷ codes "\n \n"
          ∷ dump_tiers tiers
          ∷ []))
  ]
