-- ===== src/Copy/Content.antt =====
-- The copy has the content of the original, whatever the short writes and the retries.
use autotier.Base.{
  ℕ, zero, suc, ◌+◌, ◌≤◌, ◌≡◌, refl, sym, ap, ◌∙◌, Bool, true, false, Option, none, some, List, [],
  ◌∷◌, ◌++◌, length, take, drop, take-add, take-append, length-drop, length-append,
  take_of_drop-nil, length-take-eq, inl, inr, Bool-cases, ltb, ◌==◌, if◌then◌else◌, arith,
}
use autotier.Env.{Env, Outcome, ret, fail, lseek}
use autotier.Copy.{
  seek_set, seek_failed, ran_out, advance, seek_both, after_write, proceed, after_read, copy_loop,
}

-- Two open files as POSIX describes them: the source with its content and its position, the copy
-- with what was written so far and its position. A read returns the next bytes, and none only at
-- the end; a write at the end appends the bytes that it counts; a failed write changes nothing.
pub record IsCopyDevice (E : Env) (source_fd dest_fd buff_sz : ℕ) (source : List ℕ) : Type 0 where
  pub src_pos : E.World → ℕ
  pub dst_pos : E.World → ℕ
  pub dst_data : E.World → List ℕ
  pub read_lem :
      (w : E.World) (bytes : List ℕ)
      → (E.read source_fd buff_sz w).0 ≡ ret bytes
      → (drop (src_pos w) source ≡ bytes ++ drop (src_pos (E.read source_fd buff_sz w).1) source)
        × (bytes ≡ [] → drop (src_pos w) source ≡ [])
        × (src_pos (E.read source_fd buff_sz w).1 ≡ src_pos w + length bytes)
  pub read_keeps :
      (w : E.World)
      → (dst_data (E.read source_fd buff_sz w).1 ≡ dst_data w)
        × (dst_pos (E.read source_fd buff_sz w).1 ≡ dst_pos w)
  pub write_ret :
      (w : E.World) (bytes : List ℕ) (n : ℕ)
      → dst_pos w ≡ length (dst_data w)
      → (E.write dest_fd bytes w).0 ≡ ret n
      → (n ≤ length bytes)
        × (dst_data (E.write dest_fd bytes w).1 ≡ dst_data w ++ take n bytes)
        × (dst_pos (E.write dest_fd bytes w).1 ≡ dst_pos w + n)
  pub write_fail :
      (w : E.World) (bytes : List ℕ) (e : ℕ)
      → (E.write dest_fd bytes w).0 ≡ fail e
      → (dst_data (E.write dest_fd bytes w).1 ≡ dst_data w)
        × (dst_pos (E.write dest_fd bytes w).1 ≡ dst_pos w)
  pub write_keeps : (w : E.World) (bytes : List ℕ) → src_pos (E.write dest_fd bytes w).1 ≡ src_pos w
  pub seek_source :
      (w : E.World) (offset n : ℕ)
      → (E.call (lseek source_fd offset seek_set) w).0 ≡ ret n
      → src_pos (E.call (lseek source_fd offset seek_set) w).1 ≡ offset
  pub seek_source_keeps :
      (w : E.World) (offset : ℕ)
      → (dst_data (E.call (lseek source_fd offset seek_set) w).1 ≡ dst_data w)
        × (dst_pos (E.call (lseek source_fd offset seek_set) w).1 ≡ dst_pos w)
  pub seek_dest :
      (w : E.World) (offset n : ℕ)
      → (E.call (lseek dest_fd offset seek_set) w).0 ≡ ret n
      → dst_pos (E.call (lseek dest_fd offset seek_set) w).1 ≡ offset
  pub seek_dest_keeps :
      (w : E.World) (offset : ℕ)
      → (dst_data (E.call (lseek dest_fd offset seek_set) w).1 ≡ dst_data w)
        × (src_pos (E.call (lseek dest_fd offset seek_set) w).1 ≡ src_pos w)

module _ (E : Env) (source_fd dest_fd buff_sz : ℕ) (source : List ℕ)
    (D : IsCopyDevice E source_fd dest_fd buff_sz source) where
  open E use {World, call, read, write}

  -- The first `offset` bytes are copied, and both files stand there.
  pub record Copied (offset : ℕ) (w : World) : Type 0 where
    pub within : offset ≤ length source
    pub data_so_far : D.dst_data w ≡ take offset source
    pub src_at : D.src_pos w ≡ offset
    pub dst_at : D.dst_pos w ≡ offset

  -- After a write the data are there, and the positions may be off until the seeks.
  record Written (offset : ℕ) (w : World) : Type 0 where
    written_within : offset ≤ length source
    written_data : D.dst_data w ≡ take offset source

  abbrev pub AtEnd : Option (Bool × World) → Type 0
  AtEnd none = Unit
  AtEnd (some (false, w)) = Unit
  AtEnd (some (true, w)) = D.dst_data w ≡ source

  abbrev pub Next : Option (ℕ × Bool) × World → Type 0
  Next (none, w) = Unit
  Next (some (offset, full), w) = Copied offset w

  abbrev Sought : Option ℕ × World → Type 0
  Sought (none, w) = Unit
  Sought (some offset, w) = Copied offset w

  seek_ret : (r : Outcome ℕ) → seek_failed r ≡ false → (n : ℕ) × (r ≡ ret n)
  unfolding seek_failed
  seek_ret (ret n) h = (n, refl)
  seek_ret (fail e) h = cc

  seek_both-Sought :
      (offset : ℕ) (w : World)
      → Written offset w
      → Sought (seek_both E source_fd dest_fd buff_sz offset w)
  unfolding seek_both
  seek_both-Sought offset w v =
      elim (Bool-cases (seek_failed (call (lseek source_fd offset seek_set) w).0)) [
        | inl failed ↦ rw failed tt
        | inr went ↦ rw went (second (seek_ret _ went))
      ]
    where
      w1 : World
      w1 = (call (lseek source_fd offset seek_set) w).1

      second :
          (n : ℕ) × ((call (lseek source_fd offset seek_set) w).0 ≡ ret n)
          → Sought (
              if seek_failed (call (lseek dest_fd offset seek_set) w1).0
              then (none, (call (lseek dest_fd offset seek_set) w1).1)
              else (some offset, (call (lseek dest_fd offset seek_set) w1).1))
      second (n, e) = elim (Bool-cases (seek_failed (call (lseek dest_fd offset seek_set) w1).0)) [
        | inl failed ↦ rw failed tt
        | inr went ↦ rw went (
            let (m, e') = seek_ret _ went in
            record {
              within = v.written_within;
              data_so_far =
                  (D.seek_dest_keeps w1 offset).0
                  ∙ ((D.seek_source_keeps w offset).0 ∙ v.written_data);
              src_at = (D.seek_dest_keeps w1 offset).1 ∙ D.seek_source w offset n e;
              dst_at = D.seek_dest w1 offset m e';
            })
      ]

  Next-Sought :
      (r : Option ℕ × World)
      → Sought r
      → Next (elim r.0 [ none ↦ none | some o ↦ some (o, true) ], r.1)
  Next-Sought (none, w) v = tt
  Next-Sought (some o, w) v = v

  ran_out_fail : (e n : ℕ) → ran_out (fail e) n ≡ true
  unfolding ran_out
  ran_out_fail e n = ground arith

  after_write_fail :
      (e n offset : ℕ) (w : World)
      → Written offset w
      → Next (after_write E source_fd dest_fd buff_sz (fail e) n offset w)
  unfolding after_write advance
  after_write_fail e n offset w v =
      rw (ran_out_fail e n) (Next-Sought _ (seek_both-Sought offset w v))

  after_write_ret :
      (m n offset : ℕ) (w : World)
      → m ≤ n
      → Written (offset + m) w
      → D.src_pos w ≡ offset + n
      → D.dst_pos w ≡ offset + m
      → Next (after_write E source_fd dest_fd buff_sz (ret m) n offset w)
  unfolding after_write advance ran_out
  after_write_ret m n offset w le v src dst = elim (Bool-cases (ltb m n)) [
    | inl short ↦ rw short (Next-Sought _ (seek_both-Sought (offset + m) w v))
    | inr full ↦
        let same : m ≡ n = ground arith in
        let test : (m == n) ≡ true = ground arith in
        rw (full, test)
          (record {
            within = v.written_within;
            data_so_far = v.written_data;
            src_at = rw same src;
            dst_at = dst;
          })
  ]

  -- A round that read something: what was written extends the copy.
  append-Written :
      (offset m : ℕ) (bytes : List ℕ) (w w1 : World)
      → Copied offset w
      → drop offset source ≡ bytes ++ drop (D.src_pos w1) source
      → m ≤ length bytes
      → (w2 : World) → D.dst_data w2 ≡ take offset source ++ take m bytes
      → Written (offset + m) w2
  append-Written offset m bytes w w1 c e le w2 d = record {
    written_within = omega (
      arith,
      ap length e,
      length-append bytes (drop (D.src_pos w1) source),
      length-drop offset source,
    );
    written_data =
        d
        ∙ sym (
            take-add offset m source
            ∙ ap (λ l. take offset source ++ l) (rw e (take-append m bytes _ le)));
  }

  module _ (offset : ℕ) (bytes : List ℕ) (w w1 : World) (c : Copied offset w)
      (chunk : drop offset source ≡ bytes ++ drop (D.src_pos w1) source)
      (kept : D.dst_data w1 ≡ D.dst_data w) (kept_pos : D.dst_pos w1 ≡ D.dst_pos w)
      (moved_on : D.src_pos w1 ≡ offset + length bytes) where
    pub at_end : D.dst_pos w1 ≡ length (D.dst_data w1)
    at_end =
        kept_pos
        ∙ c.dst_at
        ∙ sym (length-take-eq offset source c.within)
        ∙ ap length (sym (kept ∙ c.data_so_far))

    pub write-Next :
        (o : Outcome ℕ)
        → (write dest_fd bytes w1).0 ≡ o
        → Next (
            after_write E source_fd dest_fd buff_sz o
              (length bytes)
              offset
              (write dest_fd bytes w1).1)
    write-Next (fail e) h = after_write_fail e (length bytes) offset _ (record {
      written_within = c.within;
      written_data = (D.write_fail w1 bytes e h).0 ∙ kept ∙ c.data_so_far;
    })
    write-Next (ret m) h =
        let (le, data_now, pos_now) = D.write_ret w1 bytes m at_end h in
        after_write_ret m (length bytes) offset _ le
          (append-Written offset m bytes w w1 c chunk le _
            (data_now ∙ ap (λ l. l ++ take m bytes) (kept ∙ c.data_so_far)))
          (D.write_keeps w1 bytes ∙ moved_on)
          (pos_now ∙ ap (λ (n : ℕ). n + m) (kept_pos ∙ c.dst_at))

  idle :
      (offset : ℕ) (w : World)
      → Copied offset w
      → (read source_fd buff_sz w).0 ≡ ret []
      → Copied offset (read source_fd buff_sz w).1
  idle offset w c eq =
      let (_, _, moved_on) = D.read_lem w [] eq in
      let (kept, kept_pos) = D.read_keeps w in
      record {
        within = c.within;
        data_so_far = kept ∙ c.data_so_far;
        src_at = moved_on ∙ omega (arith, c.src_at);
        dst_at = kept_pos ∙ c.dst_at;
      }

  proceed-AtEnd :
      (again : ℕ → Bool → World → Option (Bool × World)) (r : Option (ℕ × Bool) × World)
      → ((offset : ℕ) (full : Bool) (w : World) → Copied offset w → AtEnd (again offset full w))
      → Next r
      → AtEnd (proceed E source_fd dest_fd buff_sz again r)
  unfolding proceed
  proceed-AtEnd again (none, w) h v = tt
  proceed-AtEnd again (some (offset, full), w) h v = h offset full w v

  after_read-AtEnd :
      (again : ℕ → Bool → World → Option (Bool × World)) (offset : ℕ) (full : Bool) (w : World)
      → ((offset : ℕ) (full : Bool) (w : World) → Copied offset w → AtEnd (again offset full w))
      → Copied offset w
      → (r : Outcome (List ℕ)) → (read source_fd buff_sz w).0 ≡ r
      → AtEnd
          (after_read E source_fd dest_fd buff_sz again r offset full (read source_fd buff_sz w).1)
  unfolding after_read
  after_read-AtEnd again offset full w h c (fail e) eq = tt
  after_read-AtEnd again offset true w h c (ret []) eq = h offset true _ (idle offset w c eq)
  after_read-AtEnd again offset false w h c (ret []) eq =
      (D.read_keeps w).0
      ∙ c.data_so_far
      ∙ take_of_drop-nil offset source (rw c.src_at at ((D.read_lem w [] eq).1 refl))
  after_read-AtEnd again offset full w h c (ret (b ∷ bs)) eq =
      let (chunk, _, moved_on) = D.read_lem w (b ∷ bs) eq in
      let (kept, kept_pos) = D.read_keeps w in
      proceed-AtEnd again _ h (
        write-Next offset (b ∷ bs) w _ c (rw c.src_at at chunk) kept kept_pos
          (moved_on ∙ ap (λ (n : ℕ). n + length (b ∷ bs)) c.src_at) _ refl)

  -- On two open files as POSIX describes them, from wherever the first `offset` bytes are copied: a loop that ends without a
  -- jump has copied the whole source, whichever reads were short, whichever writes were short or
  -- failed in between, and however often the loop tried again.
  pub copy_loop-AtEnd :
      (fuel offset : ℕ) (full : Bool) (w : World)
      → Copied offset w
      → AtEnd (copy_loop E source_fd dest_fd buff_sz fuel offset full w)
  unfolding copy_loop
  copy_loop-AtEnd zero offset full w c = tt
  copy_loop-AtEnd (suc fuel) offset full w c =
      after_read-AtEnd _ offset full w (copy_loop-AtEnd fuel) c _ refl
