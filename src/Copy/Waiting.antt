-- ===== src/Copy/Waiting.antt =====
-- The copying loop ends, on a tier that is out of space for a while.
use autotier.Base.{
  ℕ, zero, suc, ◌+◌, ◌-◌, ◌^◌, ◌<◌, ◌≤◌, ◌≡◌, ◌⊎◌, inl, inr, refl, ap, sym, ◌∙◌, Bool, true, false,
  Option, some, List, [], ◌∷◌, ◌++◌, length, ltb, ◌==◌, drop, length-drop, length-append, ltb→lt,
  ltb→le, Bool-cases, arith,
}
use autotier.Env.{Env, Outcome, ret, fail, lseek}
use autotier.Copy.{
  after_write, proceed, after_read, copy_loop, ran_out, seek_failed, seek_set, seek_both, advance,
}
use autotier.Copy.Content.{IsCopyDevice, Copied, Next, at_end, write-Next, copy_loop-AtEnd}

small_offset : (offset : ℕ) → offset < 2 ^ 32 - 1 → seek_failed (ret offset) ≡ false
unfolding seek_failed
small_offset offset h = ground arith

ran_out_fail : (e n : ℕ) → ran_out (fail e) n ≡ true
unfolding ran_out
ran_out_fail e n = ground arith

differ : {e n : ℕ} → ¬ (fail e ≡ ret n)
differ h = cc

ret_inj : {m n : ℕ} → ◌≡◌ {A = Outcome ℕ} (ret m) (ret n) → m ≡ n
ret_inj h = cc

ran_out_short : (m n : ℕ) → m < n → ran_out (ret m) n ≡ true
unfolding ran_out
ran_out_short m n h = ground arith

module _ (E : Env) (source_fd dest_fd buff_sz : ℕ) (source : List ℕ)
    (D : IsCopyDevice E source_fd dest_fd buff_sz source) where
  open E use {World, call, read, write}

  -- No read and no seek fails. `waits` counts the writes still to come that fail or are short,
  -- which nothing but other processes can change; a write that is neither takes all it is given.
  pub record GetsRoom : Type 0 where
    pub waits : World → ℕ
    pub read_ret : (w : World) → (bytes : List ℕ) × ((read source_fd buff_sz w).0 ≡ ret bytes)
    pub read_waits : (w : World) → waits (read source_fd buff_sz w).1 ≤ waits w
    pub write_waits :
        (bytes : List ℕ) (w : World)
        → (((write dest_fd bytes w).0 ≡ ret (length bytes))
            × (waits (write dest_fd bytes w).1 ≤ waits w))
          ⊎ (waits (write dest_fd bytes w).1 < waits w)
    pub seek_source_ret :
        (offset : ℕ) (w : World)
        → offset ≤ length source
        → ((call (lseek source_fd offset seek_set) w).0 ≡ ret offset)
          × (waits (call (lseek source_fd offset seek_set) w).1 ≤ waits w)
    pub seek_dest_ret :
        (offset : ℕ) (w : World)
        → offset ≤ length source
        → ((call (lseek dest_fd offset seek_set) w).0 ≡ ret offset)
          × (waits (call (lseek dest_fd offset seek_set) w).1 ≤ waits w)

  module _ (R : GetsRoom) (small : length source < 2 ^ 32 - 1) where
    -- A round goes on, from a later place or with fewer writes to wait for.
    record GoesOn (r : Option (ℕ × Bool) × World) (offset count : ℕ) : Type 0 where
      next_offset : ℕ
      full : Bool
      world : World
      result : r ≡ (some (next_offset, full), world)
      within_source : full ≡ true → next_offset < length source
      less : (length source - next_offset) + R.waits world < (length source - offset) + count

    seek_both-ret :
        (offset : ℕ) (w : World)
        → offset ≤ length source
        → (w2 : World) × (seek_both E source_fd dest_fd buff_sz offset w ≡ (some offset, w2))
          × (R.waits w2 ≤ R.waits w)
    unfolding seek_both
    seek_both-ret offset w h =
        let w1 = (call (lseek source_fd offset seek_set) w).1 in
        let (e, l) = R.seek_source_ret offset w h in
        let (e', l') = R.seek_dest_ret offset w1 h in
        let ok = small_offset offset (omega arith) in
        ((call (lseek dest_fd offset seek_set) w1).1, rw (e, e', ok), omega arith)

    after_write_out :
        (o : Outcome ℕ) (n offset count : ℕ) (w : World)
        → ran_out o n ≡ true
        → advance o offset < length source
        → offset ≤ advance o offset
        → R.waits w < count
        → GoesOn (after_write E source_fd dest_fd buff_sz o n offset w) offset count
    unfolding after_write
    after_write_out o n offset count w out h g l =
        let (w2, e, l2) = seek_both-ret (advance o offset) w (omega arith) in
        record {
          next_offset = advance o offset;
          full = true;
          world = w2;
          result = rw (out, e);
          within_source = λ t. h;
          less = omega arith;
        }

    after_write_all :
        (n offset count : ℕ) (w : World)
        → 0 < n
        → offset + n ≤ length source
        → R.waits w ≤ count
        → GoesOn (after_write E source_fd dest_fd buff_sz (ret n) n offset w) offset count
    unfolding after_write ran_out
    after_write_all n offset count w p h l =
        let e : ltb n n ≡ false = ground arith in
        let e' : (n == n) ≡ true = ground arith in
        record {
          next_offset = offset + n;
          full = false;
          world = w;
          result = rw (e, e');
          within_source = λ t. cc;
          less = omega arith;
        }

    -- What was read is there to be written, so that either all of it is, or it is a write to wait
    -- for.
    write-GoesOn :
        (b : ℕ) (bs : List ℕ) (offset : ℕ) (w : World)
        → offset + length (b ∷ bs) ≤ length source
        → ((m : ℕ) → (write dest_fd (b ∷ bs) w).0 ≡ ret m → m ≤ length (b ∷ bs))
        → (o : Outcome ℕ) → (write dest_fd (b ∷ bs) w).0 ≡ o
        → GoesOn
            (after_write E source_fd dest_fd buff_sz o
              (length (b ∷ bs))
              offset
              (write dest_fd (b ∷ bs) w).1)
            offset
            (R.waits w)
    unfolding advance
    write-GoesOn b bs offset w h le (fail e) eq = at (R.write_waits (b ∷ bs) w)
      where
        at :
            (((write dest_fd (b ∷ bs) w).0 ≡ ret (length (b ∷ bs)))
                × (R.waits (write dest_fd (b ∷ bs) w).1 ≤ R.waits w))
              ⊎ (R.waits (write dest_fd (b ∷ bs) w).1 < R.waits w)
            → GoesOn
                (after_write E source_fd dest_fd buff_sz
                  (fail e)
                  (length (b ∷ bs))
                  offset
                  (write dest_fd (b ∷ bs) w).1)
                offset
                (R.waits w)
        at (inl (all, l)) = absurd (differ (sym eq ∙ all))
        at (inr less) =
            after_write_out (fail e) _ offset _ _ (ran_out_fail e _) (omega arith) (omega arith)
              less
    write-GoesOn b bs offset w h le (ret m) eq = elim (Bool-cases (ltb m (length (b ∷ bs)))) [
      | inl short ↦ at_short (R.write_waits (b ∷ bs) w) (ltb→lt _ _ short)
      | inr not_short ↦
          let same : m ≡ length (b ∷ bs) =
            omega (arith, ltb→le m (length (b ∷ bs)) not_short, le m eq) in
          rw same (after_write_all _ offset _ _ (omega arith) h (kept (R.write_waits (b ∷ bs) w)))
    ]
      where
        kept :
            (((write dest_fd (b ∷ bs) w).0 ≡ ret (length (b ∷ bs)))
                × (R.waits (write dest_fd (b ∷ bs) w).1 ≤ R.waits w))
              ⊎ (R.waits (write dest_fd (b ∷ bs) w).1 < R.waits w)
            → R.waits (write dest_fd (b ∷ bs) w).1 ≤ R.waits w
        kept (inl (all, l)) = l
        kept (inr less) = omega arith

        at_short :
            (((write dest_fd (b ∷ bs) w).0 ≡ ret (length (b ∷ bs)))
                × (R.waits (write dest_fd (b ∷ bs) w).1 ≤ R.waits w))
              ⊎ (R.waits (write dest_fd (b ∷ bs) w).1 < R.waits w)
            → m < length (b ∷ bs)
            → GoesOn
                (after_write E source_fd dest_fd buff_sz
                  (ret m)
                  (length (b ∷ bs))
                  offset
                  (write dest_fd (b ∷ bs) w).1)
                offset
                (R.waits w)
        at_short (inl (all, l)) s =
            let same : m ≡ length (b ∷ bs) = ret_inj (sym eq ∙ all) in absurd (omega arith)
        at_short (inr less) s =
            after_write_out (ret m) _ offset _ _ (ran_out_short m _ s) (omega arith) (omega arith)
              less

    abbrev Ends : Option (Bool × World) → Type 0
    Ends r = (w : World) × (r ≡ some (true, w))

    proceed-Ends :
        (again : ℕ → Bool → World → Option (Bool × World)) (r : Option (ℕ × Bool) × World)
        (offset fuel count : ℕ)
        → ((o : ℕ) (full : Bool) (w : World)
            → Copied E source_fd dest_fd buff_sz source D o w
            → (full ≡ true → o < length source)
            → (length source - o) + R.waits w < fuel
            → Ends (again o full w))
        → Next E source_fd dest_fd buff_sz source D r
        → GoesOn r offset count
        → (length source - offset) + count < suc fuel
        → Ends (proceed E source_fd dest_fd buff_sz again r)
    unfolding proceed
    proceed-Ends again r offset fuel count next c g h = rw g.result (
        next g.next_offset g.full g.world (rw g.result at c) g.within_source
          (omega (arith, g.less)))

    after_read-Ends :
        (again : ℕ → Bool → World → Option (Bool × World)) (offset fuel : ℕ) (full : Bool)
        (w : World)
        → ((o : ℕ) (full : Bool) (w : World)
            → Copied E source_fd dest_fd buff_sz source D o w
            → (full ≡ true → o < length source)
            → (length source - o) + R.waits w < fuel
            → Ends (again o full w))
        → Copied E source_fd dest_fd buff_sz source D offset w
        → (full ≡ true → offset < length source)
        → (length source - offset) + R.waits w < suc fuel
        → (bytes : List ℕ) → (read source_fd buff_sz w).0 ≡ ret bytes
        → Ends (
            after_read E source_fd dest_fd buff_sz again
              (ret bytes)
              offset
              full
              (read source_fd buff_sz w).1)
    unfolding after_read
    after_read-Ends again offset fuel false w next c i h [] e = (_, refl)
    after_read-Ends again offset fuel true w next c i h [] e =
        let gone = rw c.src_at at ((D.read_lem w [] e).1 refl) in
        absurd (omega (arith, i refl, ap length gone, length-drop offset source))
    after_read-Ends again offset fuel full w next c i h (b ∷ bs) e =
        let (chunk, _, moved_on) = D.read_lem w (b ∷ bs) e in
        let (kept, kept_pos) = D.read_keeps w in
        let w1 = (read source_fd buff_sz w).1 in
        let part : drop offset source ≡ (b ∷ bs) ++ drop (D.src_pos w1) source =
          rw c.src_at at chunk in
        let fits = ap length part ∙ length-append (b ∷ bs) (drop (D.src_pos w1) source) in
        let behind =
          at_end E source_fd dest_fd buff_sz source D offset (b ∷ bs) w w1 c part kept kept_pos
            (moved_on ∙ ap (λ (n : ℕ). n + length (b ∷ bs)) c.src_at) in
        proceed-Ends again _ offset fuel (R.waits w1) next
          (write-Next E source_fd dest_fd buff_sz source D offset (b ∷ bs) w w1 c part kept kept_pos
            (moved_on ∙ ap (λ (n : ℕ). n + length (b ∷ bs)) c.src_at) _ refl)
          (write-GoesOn b bs offset w1 (omega (arith, fits, length-drop offset source))
            (λ m eq. (D.write_ret w1 (b ∷ bs) m behind eq).0) _ refl)
          (omega (arith, R.read_waits w))

    copy_loop-Ends :
        (fuel offset : ℕ) (full : Bool) (w : World)
        → Copied E source_fd dest_fd buff_sz source D offset w
        → (full ≡ true → offset < length source)
        → (length source - offset) + R.waits w < fuel
        → Ends (copy_loop E source_fd dest_fd buff_sz fuel offset full w)
    unfolding copy_loop
    copy_loop-Ends zero offset full w c i h = absurd (omega arith)
    copy_loop-Ends (suc fuel) offset full w c i h =
        let (bytes, e) = R.read_ret w in
        rw e (after_read-Ends _ offset fuel full w (copy_loop-Ends fuel) c i h bytes e)

    -- A file of less than 2^32 - 1 bytes, whose reads and seeks do not fail, and of whose writes
    -- finitely many, in any places, fail or are short while the tier is out of space: with more
    -- fuel than there are bytes left and such writes to come, the loop ends without a jump, and the
    -- copy has the whole content.
    pub copy_loop-waits :
        (fuel offset : ℕ) (w : World)
        → Copied E source_fd dest_fd buff_sz source D offset w
        → (length source - offset) + R.waits w < fuel
        → (w' : World) × (copy_loop E source_fd dest_fd buff_sz fuel offset false w
            ≡ some (true, w'))
          × (D.dst_data w' ≡ source)
    copy_loop-waits fuel offset w c h =
        let (w', e) = copy_loop-Ends fuel offset false w c (λ t. cc) h in
        (
          w',
          e,
          rw e at (copy_loop-AtEnd E source_fd dest_fd buff_sz source D fuel offset false w c),
        )
