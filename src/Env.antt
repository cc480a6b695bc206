-- ===== src/Env.antt =====
-- What the program takes from outside its sources: the C++ `double`, the byte counts of lib45d,
-- Boost's paths and archives, RocksDB, and the system calls. `Env/Laws` states what is relied on.
pub mod Laws
use autotier.Base.{ℕ, Text, Bool, true, false, Option, List}

-- The calls that the program makes, with the arguments that it passes.
pub data Syscall : Type 0 where
  -- `fs::symlink_status`: 1 for a directory, 0 for anything else.
  symlink_status : Text → Syscall
  -- A path with the flags, or the mode, that are passed.
  open_file creat : Text → ℕ → Syscall
  close_fd dup : ℕ → Syscall
  -- Offset and origin.
  lseek : ℕ → ℕ → ℕ → Syscall
  rename link symlink : Text → Text → Syscall
  unlink rmdir remove : Text → Syscall
  -- 1 if so, 0 if not.
  exists is_directory : Text → Syscall
  create_directories : Text → Syscall
  mkdir mkfifo chmod access truncate readlink : Text → ℕ → Syscall
  fchmod ftruncate : ℕ → ℕ → Syscall
  mknod : Text → ℕ → ℕ → Syscall
  chown lchown : Text → ℕ → ℕ → Syscall
  fchown : ℕ → ℕ → ℕ → Syscall
  setfsuid setfsgid : ℕ → Syscall
  fsync fdatasync : ℕ → Syscall
  utimes utimensat : Text → List ℕ → Syscall
  futimens : ℕ → List ℕ → Syscall
  lsetxattr : Text → Text → Text → ℕ → Syscall
  lgetxattr : Text → Text → ℕ → Syscall
  llistxattr : Text → ℕ → Syscall
  lremovexattr : Text → Text → Syscall
  -- A descriptor, offset and length; `posix_fallocate` returns its error.
  posix_fallocate : ℕ → ℕ → ℕ → Syscall
  flock : ℕ → ℕ → Syscall
  -- Two descriptors, each with its offset, a length and flags.
  copy_file_range : ℕ → ℕ → ℕ → ℕ → ℕ → ℕ → Syscall

pub data StatCall : Type 0 where
  lstat stat : Text → StatCall
  fstat : ℕ → StatCall

-- The fields of `struct stat` that the program reads.
pub record Stat : Type 0 where
  pub st_size : ℕ
  pub st_atim_sec : ℕ
  pub st_atim_nsec : ℕ
  pub st_mtim_sec : ℕ
  pub st_mtim_nsec : ℕ
  pub st_ctim_sec : ℕ
  pub st_uid : ℕ
  pub st_gid : ℕ
  pub st_mode : ℕ

-- The fields of `struct statvfs` that the program uses, 64-bit numbers.
pub record StatVfs : Type 0 where
  pub f_bsize : ℕ
  pub f_frsize : ℕ
  pub f_blocks : ℕ
  pub f_bfree : ℕ
  pub f_bavail : ℕ
  pub f_files : ℕ
  pub f_ffree : ℕ
  pub f_favail : ℕ

-- A call returns a value, or -1 with `errno`.
pub data Outcome {ℓ} (A : Type ℓ) : Type ℓ where
  ret : A → Outcome A
  fail : ℕ → Outcome A

-- Where a thread is after its calls: it goes on, an exception that nothing catches has ended the
-- program, or it is still in a copy, which goes on for as long as the tier is full.
pub data Course : Type 0 where
  going_on threw copying : Course

abbrev pub is_halted : Course → Bool
is_halted going_on = false
is_halted threw = true
is_halted copying = true

-- One entry of a `rocksdb::WriteBatch`.
pub data BatchOp : Type 0 where
  delete : Text → BatchOp
  put : Text → Text → BatchOp

pub record Env : Type 1 where
  -- `double`: a count converted, a signed difference of times converted, the literal m / 10 ^ k, and the operations.
  pub Double : Type 0
  pub of_count : ℕ → Double
  pub of_difference : ℕ → ℕ → Double
  pub literal : ℕ → ℕ → Double
  pub plus : Double → Double → Double
  pub minus : Double → Double → Double
  pub times : Double → Double → Double
  pub over : Double → Double → Double
  pub least : Double → Double → Double
  pub less : Double → Double → Bool
  pub same : Double → Double → Bool
  -- `log` and `pow`, and `int` of a number that is not negative.
  pub log : Double → Double
  pub power : Double → ℕ → Double
  pub truncated : Double → ℕ
  -- `ffd::Bytes`, by its `get()`.
  pub bytes_add : ℕ → ℕ → ℕ
  pub bytes_sub : ℕ → ℕ → ℕ
  pub bytes_gt : ℕ → ℕ → Bool
  -- The ratio of two byte counts, a count with its unit, and the fraction of a quota with this
  -- `get()` and `get_max()`.
  pub bytes_over : ℕ → ℕ → Double
  pub bytes_text : ℕ → Text
  pub quota_fraction : ℕ → ℕ → Double
  -- `double` to a stream: as it is, and with `std::fixed` and a precision.
  pub show : Double → Text
  pub show_fixed : ℕ → Double → Text
  -- `boost::filesystem`: `base / path`, `fs::relative(path, base)`, and the parts of a path.
  pub join : Text → Text → Text
  pub parent_path : Text → Text
  pub filename : Text → Text
  pub relative : Text → Text → Text
  -- `operator==` of two paths.
  pub same_path : Text → Text → Bool
  -- `boost::archive`, over the four fields of `Metadata::serialize`.
  pub save : Text → ℕ → Double → Bool → Text
  pub load : Text → Text × ℕ × Double × Bool
  -- RocksDB. `db_seek` lists the entries from a key on, in key order. `db_write` applies a batch
  -- as a whole, or fails and changes nothing.
  pub Db : Type 0
  pub db_get : Db → Text → Option Text
  pub db_seek : Db → Text → List (Text × Text)
  pub db_write : Db → List BatchOp → Option Db
  -- The operating system. A read returns the bytes it put into the buffer; a positioned call takes
  -- the offset.
  pub World : Type 0
  pub call : Syscall → World → Outcome ℕ × World
  pub statvfs : Text → World → Outcome StatVfs × World
  pub stat_call : StatCall → World → Outcome Stat × World
  pub read : ℕ → ℕ → World → Outcome (List ℕ) × World
  pub write : ℕ → List ℕ → World → Outcome ℕ × World
  pub pread : ℕ → ℕ → ℕ → World → Outcome (List ℕ) × World
  pub pwrite : ℕ → List ℕ → ℕ → World → Outcome ℕ × World
  -- `std::ifstream` and `std::ofstream` on a whole file, `fs::exists`, and the paths that a
  -- `directory_iterator` gives.
  pub read_file : Text → World → Option Text
  pub write_file : Text → Text → World → Option World
  pub path_exists : Text → World → Bool
  pub dir_paths : Text → World → List Text
