-- ===== src/Fuse/Directory/Listed.antt =====
-- What a listing from the start has in it.
use mathlib.Core.List.{append-nil, append_assoc}
use autotier.Base.{
  ℕ, zero, suc, ◌<◌, ◌≡◌, ◌≢◌, ◌*◌, ◌^◌, refl, sym, ap, ◌∙◌, Text, Bool, true, false, not, ◌&&◌,
  Option, none, some, List, [], ◌∷◌, ◌++◌, ◌==◌, length, if◌then◌else◌, if_both, if_split,
  if_together, All, arith,
}
use autotier.Env.{Env}
use autotier.Regex.{regex_match}
use autotier.Fuse.Directory.{
  Dirent, Streams, dt_dir, hidden_re, Fill, Listing, offer, fill_from, position, list_from,
  then_list, keep_stream, read_directory,
}

-- An entry is passed on unless it is a directory and the stream is not the first, or it has the
-- name of a temporary copy.
abbrev pub is_visible : Bool → Dirent → Bool
is_visible first e = not (e.d_type == dt_dir && not first) && not (regex_match e.d_name hidden_re)

pub visible : Bool → List Dirent → List Text
visible first [] = []
visible first (e ∷ es) =
    let later = visible first es in if is_visible first e then e.d_name ∷ later else later

module _ (E : Env) (S : Streams E) where
  open S use {Dir, next, seek, tell, Buffer, filler}

  -- What reading a stream to its end gives.
  pub data Gives : Dir → List Dirent → Type 0 where
    at_end : {d d' : Dir} → next d ≡ (none, d') → Gives d []
    at_entry :
        {d d' : Dir} {e : Dirent} {es : List Dirent}
        → next d ≡ (some e, d')
        → Gives d' es
        → Gives d (e ∷ es)

  -- A stream that was just opened, which gives the same after a seek to its start.
  pub record IsFresh (d : Dir) (es : List Dirent) : Type 0 where
    pub gives : Gives d es
    pub gives_again : Gives (seek 0 d) es

  -- A buffer that takes every name.
  pub record IsRoomy : Type 0 where
    pub names : Buffer → List Text
    pub takes :
        (name : Text) (ino mode offset : ℕ) (b : Buffer)
        → ((filler name ino mode offset b).0 ≡ false)
          × (names (filler name ino mode offset b).1 ≡ names b ++ (name ∷ []))

  module _ (R : IsRoomy) where
    -- The stream was read to its end, and `seen` was added to the names.
    pub record IsFilled (seen : List Text) (b : Buffer) (r : Option (Fill E S)) : Type 0 where
      pub last : Fill E S
      pub result : r ≡ some last
      pub no_entry : last.entry ≡ none
      pub added : R.names last.buffer ≡ R.names b ++ seen

    abbrev at_dir : Dir → ℕ → Buffer → Fill E S
    at_dir d offset b = record { dir = d; entry = none; offset = offset; buffer = b }

    offer-IsFilled :
        (more : Fill E S → Option (Fill E S)) (first : Bool) (d : Dir) (x : Dirent)
        (seen : List Text) (offset : ℕ) (b : Buffer)
        → ((o : ℕ) (c : Buffer) → IsFilled seen c (more (at_dir d o c)))
        → IsFilled
            (if is_visible first x then x.d_name ∷ seen else seen)
            b
            (offer E S more (x.d_type == dt_dir && not first) x (at_dir d offset b))
    unfolding offer
    offer-IsFilled more first d x seen offset b h =
        if_together (λ names r. IsFilled names b r) (is_visible first x)
          (if_split (IsFilled (x.d_name ∷ seen) b)
            (filler x.d_name x.d_ino (x.d_type * 2 ^ 12) (tell d) b).0
            (λ full. absurd (differ (sym full ∙ taken.0)))
            (λ _.
              let f = h (tell d) (filler x.d_name x.d_ino (x.d_type * 2 ^ 12) (tell d) b).1 in
              record {
                last = f.last;
                result = f.result;
                no_entry = f.no_entry;
                added =
                    f.added
                    ∙ ap (λ ns. ns ++ seen) taken.1
                    ∙ append_assoc (R.names b) (x.d_name ∷ []) seen;
              }))
          (h (tell d) b)
      where
        taken :
            ((filler x.d_name x.d_ino (x.d_type * 2 ^ 12) (tell d) b).0 ≡ false)
            × (R.names (filler x.d_name x.d_ino (x.d_type * 2 ^ 12) (tell d) b).1
                ≡ R.names b ++ (x.d_name ∷ []))
        taken = R.takes x.d_name x.d_ino (x.d_type * 2 ^ 12) (tell d) b

        differ : true ≢ false
        differ h = cc

    fill_from-IsFilled :
        (fuel : ℕ) (first : Bool) (d : Dir) (offset : ℕ) (b : Buffer) (es : List Dirent)
        → Gives d es
        → length es < fuel
        → IsFilled (visible first es) b (fill_from E S fuel first (at_dir d offset b))
    unfolding fill_from visible
    fill_from-IsFilled zero first d offset b es g h = absurd (omega arith)
    fill_from-IsFilled (suc fuel) first d offset b [] (at_end e) h =
        rw e (record {
          last = _;
          result = refl;
          no_entry = refl;
          added = sym (append-nil (R.names b));
        })
    fill_from-IsFilled (suc fuel) first d offset b (x ∷ es) (at_entry {d' = d'} e g) h = rw e (
        offer-IsFilled (fill_from E S fuel first) first d' x (visible first es) offset b
          (λ o c. fill_from-IsFilled fuel first d' o c es g (omega arith)))

    -- What the streams give: the first with its directories, the others without.
    pub all_visible : Bool → List (Dir × List Dirent) → List Text
    all_visible first [] = []
    all_visible first ((d, es) ∷ rest) = visible first es ++ all_visible false rest

    pub dirs_of : List (Dir × List Dirent) → List Dir
    dirs_of [] = []
    dirs_of ((d, es) ∷ rest) = d ∷ dirs_of rest

    abbrev pub IsReadable : ℕ → Dir × List Dirent → Type 0
    IsReadable fuel (d, es) = IsFresh d es × (length es < fuel)

    -- The listing has these names added, and the streams are at their ends.
    pub record IsListed (seen : List Text) (b : Buffer) (r : Option (Listing E S)) : Type 0 where
      pub last : Listing E S
      pub result : r ≡ some last
      pub no_entry : last.dirp.entry ≡ none
      pub added : R.names last.buffer ≡ R.names b ++ seen

    position-IsFilled :
        (fuel : ℕ) (first : Bool) (d : Dir) (es : List Dirent) (offset : ℕ) (b : Buffer)
        → IsReadable fuel (d, es)
        → IsFilled (visible first es) b (fill_from E S fuel first (position E S 0 d none offset b))
    unfolding position
    position-IsFilled fuel first d es offset b h =
        if_both (λ f. IsFilled (visible first es) b (fill_from E S fuel first f)) (0 == offset)
          (fill_from-IsFilled fuel first d offset b es h.0.gives h.1)
          (fill_from-IsFilled fuel first (seek 0 d) 0 b es h.0.gives_again h.1)

    then_list-IsListed :
        (rest : Option Dirent → ℕ → Buffer → Option (Listing E S)) (r : Option (Fill E S))
        (seen later : List Text) (b : Buffer)
        → IsFilled seen b r
        → ((o : ℕ) (c : Buffer) → IsListed later c (rest none o c))
        → IsListed (seen ++ later) b (then_list E S rest r)
    then_list-IsListed rest r seen later b f h =
        let l = h f.last.offset f.last.buffer in
        rw f.result (record {
          last = _;
          result =
              ap (λ e. keep_stream E S f.last.dir (rest e f.last.offset f.last.buffer)) f.no_entry
              ∙ ap (keep_stream E S f.last.dir) l.result;
          no_entry = l.no_entry;
          added = l.added ∙ ap (λ ns. ns ++ later) f.added ∙ append_assoc (R.names b) seen later;
        })

    list_from-IsListed :
        (fuel : ℕ) (first : Bool) (streams : List (Dir × List Dirent)) (offset : ℕ) (b : Buffer)
        → All (IsReadable fuel) streams
        → IsListed
            (all_visible first streams)
            b
            (list_from E S fuel 0 first (dirs_of streams) none offset b)
    unfolding list_from all_visible dirs_of
    list_from-IsListed fuel first [] offset b v = record {
      last = _;
      result = refl;
      no_entry = refl;
      added = sym (append-nil (R.names b));
    }
    list_from-IsListed fuel first ((d, es) ∷ rest) offset b v =
        then_list-IsListed (list_from E S fuel 0 false (dirs_of rest))
          (fill_from E S fuel first (position E S 0 d none offset b)) (visible first es)
          (all_visible false rest) b (position-IsFilled fuel first d es offset b v.0)
          (λ o c. list_from-IsListed fuel false rest o c v.1)

    -- A listing from the start, into a buffer that takes every name, comes to its end with fuel
    -- above the number of entries of each stream. It adds the names of the first tier's directory,
    -- and of the other tiers' directories those of what is not a directory, tier by tier, without
    -- the names of temporary copies.
    pub read_directory-IsListed :
        (fuel : ℕ) (streams : List (Dir × List Dirent)) (b : Buffer)
        → All (IsReadable fuel) streams
        → IsListed (all_visible true streams) b (
            read_directory E S fuel 0
              (record { entry = none; offset = 0; dps = dirs_of streams })
              b)
    unfolding read_directory
    read_directory-IsListed fuel streams b v = list_from-IsListed fuel true streams 0 b v
