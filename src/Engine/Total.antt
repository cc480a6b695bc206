-- ===== src/Engine/Total.antt =====
-- A round of tiering leaves the usage that the crawl measured.
use mathlib.Core.Option
use autotier.Base.{
  ℕ, suc, ◌+◌, ◌%◌, ◌<◌, ◌≡◌, refl, ap, ◌∙◌, Text, Option, none, some, List, [], ◌∷◌, ◌++◌, map,
  All, arith, if_both, Option-cases, inl, inr,
}
use autotier.Env.{Env, Stat, is_halted}
use autotier.Env.Laws.{IsWordSized, word}
use autotier.Tier.{Tier, reset_sim, full_test, add_file_size_sim, enqueue_file_ptr}
use autotier.File.{File, make_file, calc_popularity}
use autotier.OpenFiles.{OpenFiles}
use autotier.Crawl.{Nodes}
use autotier.Crawl.Leaves.{leaves, IsFullPath, measured, movable, unpinned, launch_crawlers-leaves}
use autotier.Ranking.{calc_popularities}
use autotier.Tiering.{accept, place, simulate_from, simulate_tier}
use autotier.Transfer.{Batch, move_files}
use autotier.Transfer.Balance.{total_usage, move_files-total_usage}
use autotier.Engine.{gather_files, plan, finish, tier_round}

module _ (E : Env) where
  accept_usage : (i : ℕ) (f : File E) (j : ℕ) (t : Tier) → (accept E i f j t).usage ≡ t.usage
  unfolding accept add_file_size_sim enqueue_file_ptr
  accept_usage i f j t = ground arith

  abbrev KeepsTotal : ℕ → Option (List Tier) → Type 0
  KeepsTotal n none = Unit
  KeepsTotal n (some ts) = total_usage ts ≡ n

  KeepsTotal-map :
      (t : Tier) (n : ℕ) (o : Option (List Tier))
      → KeepsTotal n o
      → KeepsTotal (t.usage + n) (Option.map (λ us. t ∷ us) o)
  unfolding total_usage
  KeepsTotal-map t n none h = tt
  KeepsTotal-map t n (some us) h = ap (λ k. t.usage + k) h

  place-KeepsTotal :
      (i : ℕ) (f : File E) (j : ℕ) (ts : List Tier) → KeepsTotal (total_usage ts) (place E i f j ts)
  unfolding place total_usage
  place-KeepsTotal i f j [] = tt
  place-KeepsTotal i f j (t ∷ ts) =
      if_both (KeepsTotal (t.usage + total_usage ts)) (full_test E f.size t)
        (KeepsTotal-map t (total_usage ts) _ (place-KeepsTotal i f (suc j) ts))
        (ap (λ k. k + total_usage ts) (accept_usage i f j t))

  simulate_from_usage :
      (i : ℕ) (fs : List (File E)) (ts : List Tier)
      → total_usage (simulate_from E i fs ts).0 ≡ total_usage ts
  unfolding simulate_from
  simulate_from_usage i [] ts = refl
  simulate_from_usage i (f ∷ fs) ts = elim (Option-cases (place E i f 0 ts)) [
    | inl e ↦ rw (e, simulate_from) (simulate_from_usage (suc i) fs ts)
    | inr (us, e) ↦
        rw (e, simulate_from)
          (simulate_from_usage (suc i) fs us ∙ rw e at (place-KeepsTotal i f 0 ts))
  ]

  reset_usage : (ts : List Tier) → total_usage (map reset_sim ts) ≡ total_usage ts
  unfolding reset_sim total_usage
  reset_usage [] = refl
  reset_usage (t ∷ ts) = ap (λ k. t.usage + k) (reset_usage ts)

  simulate_tier_usage :
      (fs : List (File E)) (ts : List Tier) → total_usage (simulate_tier E fs ts).0 ≡ total_usage ts
  unfolding simulate_tier
  simulate_tier_usage fs ts = simulate_from_usage 0 fs (map reset_sim ts) ∙ reset_usage ts

  calc_popularities-AreWords :
      (period : E.Double) (now : ℕ) (fs : List (File E))
      → All (λ (f : File E). f.size < word) fs
      → All (λ (f : File E). f.size < word) (calc_popularities E period now fs)
  unfolding calc_popularities calc_popularity
  calc_popularities-AreWords period now [] v = tt
  calc_popularities-AreWords period now (f ∷ fs) v = (
    if_both (λ (g : File E). g.size < word) _ v.0 v.0,
    calc_popularities-AreWords period now fs v.1,
  )

  abbrev AreSmall : List (File E) → Type 0
  AreSmall = All (λ (f : File E). f.size < word)

  -- The sizes that `lstat` reports are words.
  abbrev pub IsSmallLeaf : Text × Stat → Type 0
  IsSmallLeaf leaf = leaf.1.st_size < word

  unpinned-AreSmall :
      (db : E.Db) (j : ℕ) (t : Tier) (xs : List (Text × Stat))
      → All IsSmallLeaf xs
      → AreSmall (unpinned E db j t xs)
  unfolding unpinned make_file
  unpinned-AreSmall db j t [] v = tt
  unpinned-AreSmall db j t ((path, info) ∷ rest) v =
      let h = unpinned-AreSmall db j t rest v.1 in
      if_both AreSmall (make_file E path info db j t).metadata.pinned h (v.0, h)

  movable-AreSmall :
      (db : E.Db) (j : ℕ) (backends : List (Tier × Nodes))
      → All (λ b. All IsSmallLeaf (leaves b.1)) backends
      → AreSmall (movable E db j backends)
  unfolding movable
  movable-AreSmall db j [] v = tt
  movable-AreSmall db j ((t, nodes) ∷ rest) v =
      All-append (unpinned E db j t (leaves nodes)) _ (unpinned-AreSmall db j t (leaves nodes) v.0)
        (movable-AreSmall db (suc j) rest v.1)
    where
      All-append : (xs ys : List (File E)) → AreSmall xs → AreSmall ys → AreSmall (xs ++ ys)
      All-append [] ys v w = w
      All-append (x ∷ xs) ys v w = (v.0, All-append xs ys v.1 w)

module _ (E : Env) (L : IsWordSized E) (sort : List (File E) → List (File E))
    (sort_keeps : (fs : List (File E))
      → All (λ (f : File E). f.size < word) fs
      → All (λ (f : File E). f.size < word) (sort fs))
    (schedule : List Tier → List (ℕ × ℕ)) where
  -- After a whole round of tiering, whatever is moved, skipped, in conflict or stops it, the sum of
  -- the tiers' usage, as a 64-bit word, is the sum of what the crawl measured in the tiers. The
  -- paths that the crawl meets have a `/` in them, their sizes are words, and the sorting adds no
  -- file with a larger size.
  pub tier_round-total_usage :
      (period : E.Double) (now fuel buff_sz : ℕ) (run_path : Text) (backends : List (Tier × Nodes))
      (db : E.Db) (open_files : OpenFiles) (world : E.World)
      → All (λ b. All IsFullPath (leaves b.1)) backends
      → All (λ b. All (IsSmallLeaf E) (leaves b.1)) backends
      → total_usage
            (tier_round E sort schedule period now fuel buff_sz run_path backends db open_files
              world).tiers
          % word
        ≡ total_usage (map (measured E db) backends) % word
  unfolding tier_round gather_files plan finish
  tier_round-total_usage period now fuel buff_sz run_path backends db open_files world v w =
      rw (launch_crawlers-leaves E db 0 backends [] v) (
        finished (move_files E fuel buff_sz run_path (schedule start.tiers) start)
        ∙ move_files-total_usage E L fuel buff_sz run_path (schedule start.tiers) start (
            sort_keeps _
              (calc_popularities-AreWords E period now _ (movable-AreSmall E db 0 backends w)))
        ∙ ap (λ n. n % word) (simulate_tier_usage E _ _))
    where
      start : Batch E
      start =
          plan E sort schedule (map (measured E db) backends)
            (sort (calc_popularities E period now (movable E db 0 backends))) db open_files world

      finished :
          (s : Batch E)
          → total_usage (finish E sort schedule s).tiers % word ≡ total_usage s.tiers % word
      finished s =
          if_both (λ (t : Batch E). total_usage t.tiers % word ≡ total_usage s.tiers % word)
            (is_halted s.course) refl refl
