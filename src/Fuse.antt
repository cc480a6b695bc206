-- ===== src/Fuse.antt =====
-- src/incl/fuseOps.hpp and src/impl/autotierfs/fuseOps/: the state that the FUSE callbacks share
-- and the shape of their code. A callback returns a number, `-errno`, or has no defined result:
-- `crash`. Code under `LOG_METHODS` is left out.
pub mod Table
pub mod Helpers
pub mod Rules
pub mod Open
pub mod Names
pub mod Attr
pub mod Xattr
pub mod Data
pub mod Directory
pub mod Descriptors
pub mod Statfs
use autotier.Base.{ℕ, Text, Bool, List}
use autotier.Env.{Env}
use autotier.Tier.{Tier}
use autotier.OpenFiles.{OpenFiles}
use autotier.Commands.{Work}

-- What `fd_to_path_` holds for a descriptor: a string, or a pointer to one that was freed.
pub data Slot : Type 0 where
  live : Text → Slot
  dangling : Slot

-- `FusePriv`, the global table of open files and the world.
pub record Mount (E : Env) : Type 0 where
  pub tiers : List Tier
  pub db : E.Db
  pub open_files : OpenFiles
  pub work : Work
  pub strict_period : Bool
  pub fd_to_path : List (ℕ × Slot)
  pub size_at_open : List (ℕ × ℕ)
  pub world : E.World

pub data Result (A : Type 0) : Type 0 where
  ok : A → Result A
  error : ℕ → Result A
  crash : Result A

abbrev pub M : Env → Type 0 → Type 0
M E A = Mount E → Result A × Mount E

abbrev pub and_then :
    {E : Env} {A B : Type 0} → Result A × Mount E → (A → M E B) → Result B × Mount E
and_then (ok a, s) f = f a s
and_then (error e, s) f = (error e, s)
and_then (crash, s) f = (crash, s)

infixl 5 ◌>>=◌ ◌>>◌
unfoldable pub ◌>>=◌ : {E : Env} {A B : Type 0} → M E A → (A → M E B) → M E B
◌>>=◌ m f s = and_then (m s) f

unfoldable pub ◌>>◌ : {E : Env} {A B : Type 0} → M E A → M E B → M E B
◌>>◌ m k s = and_then (m s) (λ _. k)

abbrev pub return : {E : Env} {A : Type 0} → A → M E A
return a s = (ok a, s)

abbrev pub fail_with : {E : Env} {A : Type 0} → ℕ → M E A
fail_with e s = (error e, s)

abbrev pub enoent : ℕ
enoent = 2

abbrev pub echild : ℕ
echild = 10

abbrev pub einval : ℕ
einval = 22

-- -1 as a result is -EPERM.
abbrev pub eperm : ℕ
eperm = 1

-- What `fuse_get_context()` gives: the caller, and whether `private_data` is set.
pub record Context : Type 0 where
  pub uid : ℕ
  pub gid : ℕ
  pub has_priv : Bool
  -- `getuid()` and `getgid()` of the process.
  pub own_uid : ℕ
  pub own_gid : ℕ
