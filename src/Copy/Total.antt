-- ===== src/Copy/Total.antt =====
-- The copying loop ends, given room on the tier.
use autotier.Base.{
  ℕ, zero, suc, ◌+◌, ◌-◌, ◌<◌, ◌≡◌, refl, ap, ◌∙◌, Bool, true, false, Option, some, List, [], ◌∷◌,
  length, ltb, ◌==◌, arith,
}
use autotier.Env.{Env, ret}
use autotier.Copy.{after_write, proceed, after_read, copy_loop, ran_out}
use autotier.Copy.Content.{IsCopyDevice, Copied, write-Next, copy_loop-AtEnd}

module _ (E : Env) (source_fd dest_fd buff_sz : ℕ) (source : List ℕ)
    (D : IsCopyDevice E source_fd dest_fd buff_sz source) where
  open E use {World, read, write}

  -- No read fails, and every write takes all that it is given.
  pub record HasRoom : Type 0 where
    pub read_ret : (w : World) → (bytes : List ℕ) × ((read source_fd buff_sz w).0 ≡ ret bytes)
    pub write_all : (bytes : List ℕ) (w : World) → (write dest_fd bytes w).0 ≡ ret (length bytes)

  module _ (R : HasRoom) where
    abbrev Ends : Option (Bool × World) → Type 0
    Ends r = (w : World) × (r ≡ some (true, w))

    after_write_all :
        (n offset : ℕ) (w : World)
        → after_write E source_fd dest_fd buff_sz (ret n) n offset w ≡ (some (offset + n, false), w)
    unfolding after_write ran_out
    after_write_all n offset w =
        let e : ltb n n ≡ false = ground arith in
        let e' : (n == n) ≡ true = ground arith in rw (e, e')

    read_on :
        (offset : ℕ) (b : ℕ) (bs : List ℕ) (w : World)
        → Copied E source_fd dest_fd buff_sz source D offset w
        → (read source_fd buff_sz w).0 ≡ ret (b ∷ bs)
        → Copied E source_fd dest_fd buff_sz source D
            (offset + length (b ∷ bs))
            (write dest_fd (b ∷ bs) (read source_fd buff_sz w).1).1
    read_on offset b bs w c e =
        let (chunk, _, moved_on) = D.read_lem w (b ∷ bs) e in
        let (kept, kept_pos) = D.read_keeps w in
        rw after_write_all at (
          write-Next E source_fd dest_fd buff_sz source D offset (b ∷ bs) w _ c
            (rw c.src_at at chunk) kept kept_pos
            (moved_on ∙ ap (λ (n : ℕ). n + length (b ∷ bs)) c.src_at) _ (R.write_all (b ∷ bs) _))

    after_read-Ends :
        (again : ℕ → Bool → World → Option (Bool × World)) (offset fuel : ℕ) (w : World)
        → length source - offset < suc fuel
        → ((o : ℕ) (w : World)
            → Copied E source_fd dest_fd buff_sz source D o w
            → length source - o < fuel
            → Ends (again o false w))
        → Copied E source_fd dest_fd buff_sz source D offset w
        → (bytes : List ℕ) → (read source_fd buff_sz w).0 ≡ ret bytes
        → Ends (
            after_read E source_fd dest_fd buff_sz again
              (ret bytes)
              offset
              false
              (read source_fd buff_sz w).1)
    unfolding after_read proceed
    after_read-Ends again offset fuel w h next c [] e = (_, refl)
    after_read-Ends again offset fuel w h next c (b ∷ bs) e =
        let c' = read_on offset b bs w c e in
        rw (R.write_all (b ∷ bs), after_write_all) (next _ _ c' (omega (arith, c'.within)))

    copy_loop-Ends :
        (fuel offset : ℕ) (w : World)
        → Copied E source_fd dest_fd buff_sz source D offset w
        → length source - offset < fuel
        → Ends (copy_loop E source_fd dest_fd buff_sz fuel offset false w)
    unfolding copy_loop
    copy_loop-Ends zero offset w c h = absurd (omega arith)
    copy_loop-Ends (suc fuel) offset w c h =
        let (bytes, e) = R.read_ret w in
        rw e (after_read-Ends _ offset fuel w h (copy_loop-Ends fuel) c bytes e)

    -- With more fuel than there are bytes left, on a tier with room, the loop ends without a jump
    -- and the copy has the whole content.
    pub copy_loop_ends :
        (fuel offset : ℕ) (w : World)
        → Copied E source_fd dest_fd buff_sz source D offset w
        → length source - offset < fuel
        → (w' : World) × (copy_loop E source_fd dest_fd buff_sz fuel offset false w
            ≡ some (true, w'))
          × (D.dst_data w' ≡ source)
    copy_loop_ends fuel offset w c h =
        let (w', e) = copy_loop-Ends fuel offset w c h in
        (
          w',
          e,
          rw e at (copy_loop-AtEnd E source_fd dest_fd buff_sz source D fuel offset false w c),
        )
