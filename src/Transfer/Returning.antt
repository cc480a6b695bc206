-- ===== src/Transfer/Returning.antt =====
-- The threads of `move_files`, of src/impl/autotierfs/TierEngine/components/tiering.cpp, come back:
-- every copy of theirs ends.
use autotier.Base.{
  ℕ, ◌≢◌, refl, Text, Bool, true, false, List, [], ◌∷◌, get_elem?, if_both, Option-cases, inl, inr,
}
use autotier.Env.{Env, copying, is_halted}
use autotier.Tier.{Tier}
use autotier.OpenFiles.{is_open}
use autotier.File.{File}
use autotier.Copy.{Moved, moved, copy_failed, thrown, no_fuel, CopiesEnd}
use autotier.Transfer.{
  Batch, transfer_to_tier, settle_conflict, after_result, transfer_from, transfer_file,
  run_schedule, clear_queues, move_files,
}

module _ (E : Env) where
  -- No thread is in a copy.
  abbrev IsBack : Batch E → Type 0
  IsBack s = s.course ≢ copying

  settle_conflict-IsBack :
      (run_path : Text) (i : ℕ) (f : File E) (new_path orig_tier : Text) (c : Bool) (s : Batch E)
      → IsBack s
      → IsBack (settle_conflict E run_path i f new_path orig_tier c s)
  unfolding settle_conflict
  settle_conflict-IsBack run_path i f new_path orig_tier false s b = b
  settle_conflict-IsBack run_path i f new_path orig_tier true s b = b

  after_result-IsBack :
      (run_path : Text) (i : ℕ) (f : File E) (j : ℕ) (tier : Tier) (new_path orig_tier : Text)
      (r : Moved × E.World) (s : Batch E)
      → r.0 ≢ no_fuel
      → IsBack s
      → IsBack (after_result E run_path i f j tier new_path orig_tier r s)
  unfolding after_result transfer_to_tier
  after_result-IsBack run_path i f j tier new_path orig_tier (moved c, w) s n b =
      settle_conflict-IsBack run_path i _ new_path orig_tier c _ b
  after_result-IsBack run_path i f j tier new_path orig_tier (copy_failed, w) s n b = b
  after_result-IsBack run_path i f j tier new_path orig_tier (thrown, w) s n b = λ e. cc
  after_result-IsBack run_path i f j tier new_path orig_tier (no_fuel, w) s n b = absurd (n refl)

  module _ (fuel : ℕ) (ends : CopiesEnd E fuel) (buff_sz : ℕ) (run_path : Text) where
    transfer_from-IsBack :
        (i : ℕ) (f : File E) (from : Tier) (j : ℕ) (tier : Tier) (s : Batch E)
        → IsBack s
        → IsBack (transfer_from E fuel buff_sz run_path i f from j tier s)
    unfolding transfer_from CopiesEnd
    transfer_from-IsBack i f from j tier s b =
        if_both IsBack (is_open _ s.open_files) b
          (after_result-IsBack run_path i f j tier _ _ _ s (ends _ _ buff_sz from.id s.world) b)

    transfer_file-IsBack :
        (next : ℕ × ℕ) (s : Batch E)
        → IsBack s
        → IsBack (transfer_file E fuel buff_sz run_path next s)
    unfolding transfer_file
    transfer_file-IsBack (j, i) s b = elim (Option-cases (get_elem? s.files i)) [
      | inl e ↦ rw (e, transfer_file) b
      | inr (f, ef) ↦ elim (Option-cases (get_elem? s.tiers j)) [
        | inl e ↦ rw (ef, transfer_file) (rw (e, transfer_file) b)
        | inr (tier, ej) ↦ elim (Option-cases (get_elem? s.tiers f.tier_ptr)) [
          | inl e ↦ rw (ef, transfer_file) (rw (ej, transfer_file) (rw (e, transfer_file) b))
          | inr (from, ep) ↦
              rw (ef, transfer_file)
                (rw (ej, transfer_file)
                  (rw (ep, transfer_file)
                    (if_both IsBack (is_halted s.course) b
                      (transfer_from-IsBack i f from j tier s b))))
        ]
      ]
    ]

    run_schedule-IsBack :
        (schedule : List (ℕ × ℕ)) (s : Batch E)
        → IsBack s
        → IsBack (run_schedule E fuel buff_sz run_path schedule s)
    unfolding run_schedule
    run_schedule-IsBack [] s b = b
    run_schedule-IsBack (next ∷ rest) s b =
        run_schedule-IsBack rest (transfer_file E fuel buff_sz run_path next s)
          (transfer_file-IsBack next s b)

    pub move_files-IsBack :
        (schedule : List (ℕ × ℕ)) (s : Batch E)
        → s.course ≢ copying
        → (move_files E fuel buff_sz run_path schedule s).course ≢ copying
    unfolding move_files clear_queues
    move_files-IsBack schedule s b = run_schedule-IsBack schedule s b
