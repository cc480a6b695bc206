-- ===== src/Transfer/Balance.antt =====
-- Moving files between tiers moves usage between them, and makes none up.
use autotier.Base.{
  ℕ, zero, suc, ◌+◌, ◌%◌, ◌<◌, ◌≡◌, refl, ap, ◌∙◌, Bool, true, false, some, List, [], ◌∷◌, map, All,
  get_elem?, modify, inl, inr, Option-cases, if_both, arith, Text,
}
use autotier.Env.{Env, is_halted}
use autotier.Env.Laws.{IsWordSized, word}
use autotier.Tier.{Tier, add_file_size, subtract_file_size}
use autotier.File.{File, change_path}
use autotier.OpenFiles.{is_open}
use autotier.Copy.{Moved, moved, copy_failed, thrown, no_fuel}
use autotier.Transfer.{
  Batch, transfer_to_tier, moved_file, settle_conflict, after_result, transfer_file, run_schedule,
  clear_queue, move_files,
}

-- The sum of the tiers' usage.
unfoldable pub total_usage : List Tier → ℕ
total_usage [] = 0
total_usage (t ∷ ts) = t.usage + total_usage ts

total_usage-clear : (ts : List Tier) → total_usage (map clear_queue ts) ≡ total_usage ts
unfolding total_usage clear_queue
total_usage-clear [] = refl
total_usage-clear (t ∷ ts) = ap (λ (n : ℕ). t.usage + n) (total_usage-clear ts)

module _ (E : Env) (L : IsWordSized E) where
  total_usage-add :
      (size k : ℕ) (ts : List Tier) {t : Tier}
      → get_elem? ts k ≡ some t
      → total_usage (modify ts k (add_file_size E size)) % word ≡ (total_usage ts + size) % word
  unfolding total_usage add_file_size
  total_usage-add size k [] h = cc
  total_usage-add size zero (t ∷ ts) h = omega (arith, L.add_word t.usage size)
  total_usage-add size (suc k) (t ∷ ts) h = omega (arith, total_usage-add size k ts h)

  total_usage-subtract :
      (size k : ℕ) (ts : List Tier) {t : Tier}
      → get_elem? ts k ≡ some t
      → size < word
      → (total_usage (modify ts k (subtract_file_size E size)) + size) % word
        ≡ total_usage ts % word
  unfolding total_usage subtract_file_size
  total_usage-subtract size k [] h l = cc
  total_usage-subtract size zero (t ∷ ts) h l = omega (arith, L.sub_word t.usage size)
  total_usage-subtract size (suc k) (t ∷ ts) h l = omega (arith, total_usage-subtract size k ts h l)

  get_elem?-modify :
      (ts : List Tier) (j k : ℕ) (g : Tier → Tier) {t : Tier}
      → get_elem? ts j ≡ some t
      → (u : Tier) × (get_elem? (modify ts k g) j ≡ some u)
  get_elem?-modify [] j k g h = cc
  get_elem?-modify (t ∷ ts) zero zero g h = (g t, refl)
  get_elem?-modify (t ∷ ts) zero (suc k) g h = (t, refl)
  get_elem?-modify (t ∷ ts) (suc j) zero g h = (_, h)
  get_elem?-modify (t ∷ ts) (suc j) (suc k) g h = get_elem?-modify ts j k g h

  -- Every file's size is a word.
  abbrev pub AreWords : List (File E) → Type 0
  AreWords = All (λ f. f.size < word)

  AreWords-modify :
      (fs : List (File E)) (i : ℕ) (f : File E)
      → AreWords fs
      → f.size < word
      → AreWords (modify fs i (λ _. f))
  AreWords-modify [] i f v h = tt
  AreWords-modify (g ∷ fs) zero f v h = (h, v.1)
  AreWords-modify (g ∷ fs) (suc i) f v h = (v.0, AreWords-modify fs i f v.1 h)

  AreWords-get :
      (fs : List (File E)) (i : ℕ) {f : File E}
      → AreWords fs
      → get_elem? fs i ≡ some f
      → f.size < word
  AreWords-get [] i v h = cc
  AreWords-get (g ∷ fs) zero v h = let lt = v.0 in ground arith
  AreWords-get (g ∷ fs) (suc i) v h = AreWords-get fs i v.1 h

  -- What a step from a batch with total usage `n` leaves: that total, as a word, and words.
  pub record Balanced (n : ℕ) (s : Batch E) : Type 0 where
    pub same_total : total_usage s.tiers % word ≡ n % word
    pub are_words : AreWords s.files

  transfer_to_tier-Balanced :
      (n i : ℕ) (f : File E) (j : ℕ) (tier : Tier) (s : Batch E) {t u : Tier}
      → get_elem? s.tiers f.tier_ptr ≡ some t
      → get_elem? s.tiers j ≡ some u
      → f.size < word
      → Balanced n s
      → Balanced n (transfer_to_tier E i f j tier s)
  unfolding transfer_to_tier
  transfer_to_tier-Balanced n i f j tier s ht hu l b = record {
    same_total =
        (let (_, hu') = get_elem?-modify s.tiers j f.tier_ptr (subtract_file_size E f.size) hu in
          omega (
            arith,
            total_usage-add f.size j _ hu',
            total_usage-subtract f.size f.tier_ptr s.tiers ht l,
            b.same_total,
          ));
    are_words = AreWords-modify s.files i _ b.are_words l;
  }

  settle_conflict-Balanced :
      (n : ℕ) (run_path : Text) (i : ℕ) (f : File E) (new_path orig_tier : Text) (c : Bool)
      (s : Batch E)
      → f.size < word
      → Balanced n s
      → Balanced n (settle_conflict E run_path i f new_path orig_tier c s)
  unfolding settle_conflict change_path
  settle_conflict-Balanced n run_path i f new_path orig_tier false s l b = b
  settle_conflict-Balanced n run_path i f new_path orig_tier true s l b = record {
    same_total = b.same_total;
    are_words = AreWords-modify s.files i _ b.are_words l;
  }

  after_result-Balanced :
      (n : ℕ) (run_path : Text) (i : ℕ) (f : File E) (j : ℕ) (tier : Tier)
      (new_path orig_tier : Text) (r : Moved × E.World) (s : Batch E) {t u : Tier}
      → get_elem? s.tiers f.tier_ptr ≡ some t
      → get_elem? s.tiers j ≡ some u
      → f.size < word
      → Balanced n s
      → Balanced n (after_result E run_path i f j tier new_path orig_tier r s)
  unfolding after_result moved_file
  after_result-Balanced n run_path i f j tier new_path orig_tier (moved c, w) s ht hu l b =
      let b1 =
        transfer_to_tier-Balanced n i f j tier (record s { world = w }) ht hu l
          (record { same_total = b.same_total; are_words = b.are_words }) in
      settle_conflict-Balanced n run_path i _ new_path orig_tier c _ l
        (record { same_total = b1.same_total; are_words = b1.are_words })
  after_result-Balanced n run_path i f j tier new_path orig_tier (copy_failed, w) s ht hu l b =
      record { same_total = b.same_total; are_words = b.are_words }
  after_result-Balanced n run_path i f j tier new_path orig_tier (thrown, w) s ht hu l b = record {
    same_total = b.same_total;
    are_words = b.are_words;
  }
  after_result-Balanced n run_path i f j tier new_path orig_tier (no_fuel, w) s ht hu l b = record {
    same_total = b.same_total;
    are_words = b.are_words;
  }

  transfer_file-Balanced :
      (n fuel buff_sz : ℕ) (run_path : Text) (next : ℕ × ℕ) (s : Batch E)
      → Balanced n s
      → Balanced n (transfer_file E fuel buff_sz run_path next s)
  unfolding transfer_file
  transfer_file-Balanced n fuel buff_sz run_path (j, i) s b =
      elim (Option-cases (get_elem? s.files i)) [
        | inl e ↦ rw (e, transfer_file) b
        | inr (f, ef) ↦ elim (Option-cases (get_elem? s.tiers j)) [
          | inl e ↦ rw (ef, transfer_file) (rw (e, transfer_file) b)
          | inr (tier, ej) ↦ elim (Option-cases (get_elem? s.tiers f.tier_ptr)) [
            | inl e ↦ rw (ef, transfer_file) (rw (ej, transfer_file) (rw (e, transfer_file) b))
            | inr (from, ep) ↦
                rw (ef, transfer_file)
                  (rw (ej, transfer_file)
                    (rw (ep, transfer_file)
                      (if_both (Balanced n) (is_halted s.course) b (
                        if_both (Balanced n) (is_open _ s.open_files) b (
                          after_result-Balanced n run_path i f j tier _ _ _ s ep ej
                            (AreWords-get s.files i b.are_words ef) b)))))
          ]
        ]
      ]

  run_schedule-Balanced :
      (n fuel buff_sz : ℕ) (run_path : Text) (schedule : List (ℕ × ℕ)) (s : Batch E)
      → Balanced n s
      → Balanced n (run_schedule E fuel buff_sz run_path schedule s)
  unfolding run_schedule
  run_schedule-Balanced n fuel buff_sz run_path [] s b = b
  run_schedule-Balanced n fuel buff_sz run_path (next ∷ rest) s b =
      run_schedule-Balanced n fuel buff_sz run_path rest _
        (transfer_file-Balanced n fuel buff_sz run_path next s b)

  -- Whatever order the threads take the files in, which copies fail, conflict or are skipped, and
  -- where one of them stops: the sum of the tiers' usage, as a 64-bit word, is after `move_files`
  -- what it was before.
  pub move_files-total_usage :
      (fuel buff_sz : ℕ) (run_path : Text) (schedule : List (ℕ × ℕ)) (s : Batch E)
      → AreWords s.files
      → total_usage (move_files E fuel buff_sz run_path schedule s).tiers % word
        ≡ total_usage s.tiers % word
  unfolding move_files
  move_files-total_usage fuel buff_sz run_path schedule s v =
      ap (λ n. n % word) (total_usage-clear (run_schedule E fuel buff_sz run_path schedule s).tiers)
      ∙ (run_schedule-Balanced (total_usage s.tiers) fuel buff_sz run_path schedule s
          (record { same_total = refl; are_words = v })).same_total
