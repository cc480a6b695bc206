-- ===== src/Tiering/Quota.antt =====
-- No tier is planned over its quota.
use mathlib.Core.Option
use autotier.Base.{◌≤◌, Option, none, some, List, All}
use autotier.Env.{Env}
use autotier.Env.Laws.{IsWordSized}
use autotier.Tier.{Tier}
use autotier.File.{File}

abbrev pub WithinQuota : Tier → Type 0
WithinQuota t = t.sim_usage ≤ t.quota

module _ (E : Env) (L : IsWordSized E) where
  abbrev SomeWithin : Option (List Tier) → Type 0
  SomeWithin none = Unit
  SomeWithin (some us) = All WithinQuota us
