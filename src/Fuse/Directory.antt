-- ===== src/Fuse/Directory.antt =====
-- src/impl/autotierfs/fuseOps/directory.cpp: a directory is open in every tier that has it, and
-- its listing goes through all of them. HAVE_FSTATAT is not defined.
pub mod Listed
use autotier.Base.{
  ℕ, zero, suc, ◌*◌, ◌^◌, Text, codes, Bool, true, false, not, ◌&&◌, Option, none, some, List, [],
  ◌∷◌, ◌++◌, ◌==◌, if◌then◌else◌,
}
use autotier.Env.{Env, Outcome, ret, fail}
use autotier.Regex.{Regex, eps, any, seq, star, chars, regex_match}
use autotier.Tier.{Tier}
use autotier.Fuse.{Mount, M, Result, ok, error, Context, echild, enoent}

-- The fields of `struct dirent` that are read.
pub record Dirent : Type 0 where
  pub d_name : Text
  pub d_ino : ℕ
  pub d_type : ℕ

-- `opendir`, `readdir`, `seekdir` and `telldir` of the system, and libfuse's `filler`, which is
-- given a name, an inode, a mode and an offset, and says whether the buffer is full.
pub record Streams (E : Env) : Type 1 where
  pub Dir : Type 0
  pub open_dir : Text → E.World → Outcome Dir × E.World
  pub next : Dir → Option Dirent × Dir
  pub seek : ℕ → Dir → Dir
  pub tell : Dir → ℕ
  pub Buffer : Type 0
  pub filler : Text → ℕ → ℕ → ℕ → Buffer → Bool × Buffer

abbrev pub dt_dir : ℕ
dt_dir = 4

-- `"^\\..*\\.autotier\\.hide$"`, matched against a name.
abbrev pub hidden_re : Regex
hidden_re = chars (codes ".") (seq (star any) (chars (codes ".autotier.hide") eps))

module _ (E : Env) (S : Streams E) where
  open S use {Dir, open_dir, next, seek, tell, Buffer, filler}

  -- `dirp`, without the paths of the backends, which only `fsyncdir` reads.
  pub record Dirp : Type 0 where
    pub entry : Option Dirent
    pub offset : ℕ
    pub dps : List Dir

  -- The streams that open; the others are ignored.
  unfoldable pub open_all : Text → List Tier → E.World → List Dir × E.World
  open_all path [] w = ([], w)
  open_all path (t ∷ ts) w =
      let (dir, w1) = open_dir (E.join t.path path) w in
      let (dirs, w2) = open_all path ts w1 in (elim dir [ ret d ↦ d ∷ dirs | fail e ↦ dirs ], w2)

  abbrev opened : List Dir → Result Dirp
  opened [] = error enoent
  opened (d ∷ ds) = ok (record { entry = none; offset = 0; dps = d ∷ ds })

  unfoldable pub open_directory_streams : Context → Text → M E Dirp
  unfolding open_all
  open_directory_streams ctx path s =
      let (dirs, w) = open_all path s.tiers s.world in
      if ctx.has_priv then (opened dirs, record s { world = w }) else (error echild, s)

  -- The current stream while it is read, with `d->entry`, `d->offset` and the buffer.
  pub record Fill : Type 0 where
    pub dir : Dir
    pub entry : Option Dirent
    pub offset : ℕ
    pub buffer : Buffer

  -- The rest of the inner loop's body for an entry; `more` is the next round.
  unfoldable pub offer : (Fill → Option Fill) → Bool → Dirent → Fill → Option Fill
  offer more skip_dup_dir e f =
      let nextoff = tell f.dir in
      let passed = record f { entry = none; offset = nextoff } in
      let (full, filled) = filler e.d_name e.d_ino (e.d_type * 2 ^ 12) nextoff f.buffer in
      if not skip_dup_dir && not (regex_match e.d_name hidden_re)
      then (if full
          then some (record f { entry = some e; buffer = filled })
          else more (record passed { buffer = filled }))
      else more passed

  abbrev pub offer_read : (Fill → Option Fill) → Bool → Option Dirent × Dir → Fill → Option Fill
  offer_read more first (none, dir) f = some (record f { dir = dir })
  offer_read more first (some e, dir) f =
      offer more (e.d_type == dt_dir && not first) e (record f { dir = dir })

  -- An entry that a full buffer left over is offered again.
  abbrev pub offer_next : (Fill → Option Fill) → Bool → Option Dirent → Fill → Option Fill
  offer_next more first (some e) f = offer more false e f
  offer_next more first none f = offer_read more first (next f.dir) f

  -- The inner loop over a stream, which is the first or not; `none` is out of fuel.
  unfoldable pub fill_from : ℕ → Bool → Fill → Option Fill
  unfolding offer
  fill_from zero first f = none
  fill_from (suc fuel) first f = offer_next (fill_from fuel first) first f.entry f

  -- The stream where the reading starts.
  unfoldable pub position : ℕ → Dir → Option Dirent → ℕ → Buffer → Fill
  position wanted dir entry offset buffer =
      if wanted == offset
      then record { dir = dir; entry = entry; offset = offset; buffer = buffer }
      else record { dir = seek wanted dir; entry = none; offset = wanted; buffer = buffer }

  -- What the outer loop leaves in `dirp` and in the buffer.
  pub record Listing : Type 0 where
    pub dirp : Dirp
    pub buffer : Buffer

  abbrev pub keep_stream : Dir → Option Listing → Option Listing
  keep_stream d none = none
  keep_stream d (some l) = some (record l { dirp = record l.dirp { dps = d ∷ l.dirp.dps } })

  abbrev pub then_list :
      (Option Dirent → ℕ → Buffer → Option Listing) → Option Fill → Option Listing
  then_list rest none = none
  then_list rest (some f) = keep_stream f.dir (rest f.entry f.offset f.buffer)

  unfoldable pub list_from : ℕ → ℕ → Bool → List Dir → Option Dirent → ℕ → Buffer → Option Listing
  unfolding fill_from position
  list_from fuel wanted first [] entry offset buffer =
      some (record { dirp = record { entry = entry; offset = offset; dps = [] }; buffer = buffer })
  list_from fuel wanted first (dir ∷ dirs) entry offset buffer =
      then_list (list_from fuel wanted false dirs)
        (fill_from fuel first (position wanted dir entry offset buffer))

  -- `readdir`, which returns 0.
  unfoldable pub read_directory : ℕ → ℕ → Dirp → Buffer → Option Listing
  unfolding list_from
  read_directory fuel offset d buffer = list_from fuel offset true d.dps d.entry d.offset buffer
