-- ===== src/Adhoc/Round.antt =====
-- `tier` of src/impl/autotierfs/TierEngine/components/tiering.cpp, as the tiering thread calls it:
-- a round on the engine's own state.
use autotier.Base.{ℕ, ◌≡◌, ◌≢◌, refl, List, if_both}
use autotier.Env.{Env, copying, is_halted}
use autotier.Crawl.{Nodes}
use autotier.Engine.{tier_round, gather_files, plan, finish}
use autotier.File.{File}
use autotier.Tier.{Tier}
use autotier.Transfer.{Batch}
use autotier.Transfer.Returning.{move_files-IsBack}
use autotier.Copy.{CopiesEnd}
use autotier.Adhoc.{Service}

-- `scan` gives the trees that the crawl finds in the tiers' backends; `period` and `now` are what
-- the popularity is computed from.
module _ (E : Env) (sort : List (File E) → List (File E)) (schedule : List Tier → List (ℕ × ℕ))
    (scan : List Tier → E.World → List (Tier × Nodes)) where
  abbrev after_round : Batch E → Service E → Service E
  after_round b s = record s { tiers = b.tiers; db = b.db; world = b.world; course = b.course }

  unfoldable pub tier : E.Double → ℕ → ℕ → Service E → Service E
  tier period now fuel s =
      after_round
        (tier_round E sort schedule period now fuel s.copy_buff_sz s.run_path (scan s.tiers s.world)
          s.db s.open_files s.world)
        s

  -- A round leaves the queue of jobs alone.
  pub tier_work :
      (period : E.Double) (now fuel : ℕ) (s : Service E) → (tier period now fuel s).work ≡ s.work
  unfolding tier
  tier_work period now fuel s = refl

  finish-IsBack : (b : Batch E) → b.course ≢ copying → (finish E sort schedule b).course ≢ copying
  unfolding finish
  finish-IsBack b h = if_both (λ (t : Batch E). t.course ≢ copying) (is_halted b.course) h h

  -- A round comes back if every copy ends.
  pub tier_course :
      (period : E.Double) (now fuel : ℕ) (s : Service E)
      → CopiesEnd E fuel
      → (tier period now fuel s).course ≢ copying
  unfolding tier tier_round gather_files plan
  tier_course period now fuel s ends =
      finish-IsBack _ (move_files-IsBack E fuel ends s.copy_buff_sz s.run_path _ _ (λ e. cc))
