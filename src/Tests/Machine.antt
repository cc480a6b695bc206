-- ===== src/Tests/Machine.antt =====
-- A small machine: one database, one log file, and two open files, the source as descriptor 3 and
-- the copy as descriptor 4.
use autotier.Base.{
  ℕ, zero, suc, ◌+◌, ◌-◌, ◌*◌, ◌/◌, ◌%◌, ◌^◌, ◌≡◌, refl, sym, ap, ◌∙◌, Text, text_eq, Bool, true,
  false, codes, Option, none, some, List, [], ◌∷◌, ◌++◌, ltb, ◌==◌, if◌then◌else◌, length, drop,
  take, arith, ◌≤◌,
}
use autotier.Base.Dict.{Dict, lookup, insert, erase, lookup-insert, lookup-erase}
use autotier.Base.Format.{decimal}
use autotier.Env.{
  Env, Syscall, lseek, remove, symlink_status, Stat, StatVfs, Outcome, ret, fail, BatchOp, delete,
  put,
}
use autotier.Env.Laws.{IsWordSized, IsStore, replay, replay_op, word}
use autotier.Metadata.{strip_slash}
use autotier.Copy.Content.{IsCopyDevice}
use autotier.Copy.Safety.{
  IsHarmless, Keeps, is_directory_call, create_directories_call, open_call, close_call, lseek_call,
}
use autotier.Conflicts.Log.{IsLogFile}

pub record Machine : Type 0 where
  pub src_pos : ℕ
  pub dst_pos : ℕ
  pub dst_data : List ℕ
  pub log : Text
  pub free : Bool
  pub present : Bool

abbrev pub source : List ℕ
source = 10 ∷ 20 ∷ []

-- Reads are short: one byte at a time.
abbrev pub bytes_at : ℕ → List ℕ
bytes_at zero = 10 ∷ []
bytes_at (suc zero) = 20 ∷ []
bytes_at (suc (suc n)) = []

abbrev sought : ℕ → ℕ → Machine → Machine
sought (suc (suc (suc zero))) offset w = record w { src_pos = offset }
sought (suc (suc (suc (suc zero)))) offset w = record w { dst_pos = offset }
sought _ offset w = w

abbrev call_on : Syscall → Machine → Outcome ℕ × Machine
call_on (lseek fd offset whence) w = (ret offset, sought fd offset w)
call_on (remove path) w = (ret 0, record w { present = false })
call_on (symlink_status path) w = (ret (if text_eq path (codes "/fast/sub") then 1 else 0), w)
call_on _ w = (ret 0, w)

abbrev apply_op : BatchOp → Dict Text → Dict Text
apply_op (delete k) d = erase k d
apply_op (put k v) d = insert k v d

abbrev apply_ops : List BatchOp → Dict Text → Dict Text
apply_ops [] d = d
apply_ops (op ∷ ops) d = apply_ops ops (apply_op op d)

abbrev read_record : Text → Text × ℕ × ℕ × Bool
read_record (count ∷ popularity ∷ pinned ∷ path) = (path, count, popularity, pinned == 1)
read_record _ = ([], 0, 0, false)

abbrev pub a_stat : Stat
a_stat = record {
  st_size = 7;
  st_atim_sec = 1;
  st_atim_nsec = 0;
  st_mtim_sec = 1;
  st_mtim_nsec = 0;
  st_ctim_sec = 1;
  st_uid = 1000;
  st_gid = 1000;
  st_mode = 33188;
}

abbrev a_statvfs : StatVfs
a_statvfs = record {
  f_bsize = 2;
  f_frsize = 1;
  f_blocks = 100;
  f_bfree = 50;
  f_bavail = 50;
  f_files = 9;
  f_ffree = 5;
  f_favail = 5;
}

abbrev pub machine : Env
machine = record {
  Double = ℕ;
  of_count = λ n. n;
  of_difference = λ a b. a - b;
  literal = λ m k. m / 10 ^ k;
  plus = λ a b. a + b;
  minus = λ a b. a - b;
  times = λ a b. a * b;
  over = λ a b. a / b;
  least = λ a b. if ltb a b then a else b;
  less = ltb;
  same = λ a b. a == b;
  log = λ a. a;
  power = λ a k. a ^ k;
  truncated = λ a. a;
  bytes_add = λ a b. (a + b) % word;
  bytes_sub = λ a b. (a + word - b) % word;
  bytes_gt = λ a b. ltb b a;
  bytes_over = λ a b. a / b;
  bytes_text = decimal;
  quota_fraction = λ a b. a / b;
  show = decimal;
  show_fixed = λ k. decimal;
  join = λ base path. base ++ (b'/' ∷ strip_slash path);
  parent_path = λ path. path;
  filename = λ path. path;
  relative = λ path base. drop (length base) path;
  same_path = text_eq;
  save = λ path count popularity pinned. count ∷ popularity ∷ (if pinned then 1 else 0) ∷ path;
  load = read_record;
  Db = Dict Text;
  db_get = λ d k. lookup k d;
  db_seek = λ d k. d;
  db_write = λ d ops. some (apply_ops ops d);
  World = Machine;
  call = call_on;
  statvfs = λ path w. (ret a_statvfs, w);
  stat_call = λ c w. (ret a_stat, w);
  read = λ fd n w.
      (ret (bytes_at w.src_pos), record w { src_pos = w.src_pos + length (bytes_at w.src_pos) });
  write = λ fd bytes w. (
    ret (length bytes),
    record w { dst_data = w.dst_data ++ bytes; dst_pos = w.dst_pos + length bytes },
  );
  pread = λ fd n offset w. (ret [], w);
  pwrite = λ fd bytes offset w. if w.free then (ret (length bytes), w) else (fail 28, w);
  read_file = λ path w. some w.log;
  write_file = λ path text w. some (record w { log = text });
  path_exists = λ path w. true;
  dir_paths = λ path w. [];
}

abbrev pub start : Machine
start = record { src_pos = 0; dst_pos = 0; dst_data = []; log = []; free = false; present = true }

pub machine-IsWordSized : IsWordSized machine
machine-IsWordSized = record {
  add_word = λ a b. refl;
  sub_word = λ a b. refl;
  gt_word = λ a b. refl;
}

lookup-apply_op :
    (op : BatchOp) (d : Dict Text) (k : Text)
    → lookup k (apply_op op d) ≡ replay_op k op (lookup k d)
lookup-apply_op (delete j) d k = lookup-erase j k d
lookup-apply_op (put j v) d k = lookup-insert j k v d

lookup-apply_ops :
    (ops : List BatchOp) (d : Dict Text) (k : Text)
    → lookup k (apply_ops ops d) ≡ replay k ops (lookup k d)
lookup-apply_ops [] d k = refl
lookup-apply_ops (op ∷ ops) d k =
    rw (← lookup-apply_op op d k) (lookup-apply_ops ops (apply_op op d) k)

bit_eq : (b : Bool) → ((if b then 1 else 0) == 1) ≡ b
bit_eq true = refl
bit_eq false = refl

abbrev or_empty : Option (Dict Text) → Dict Text
or_empty none = []
or_empty (some d) = d

pub machine-IsStore : IsStore machine
machine-IsStore = record {
  load-save =
      λ path count popularity pinned. ap (λ b. (path, count, popularity, b)) (bit_eq pinned);
  get-write = λ d t ops k h. ap (λ o. lookup k (or_empty o)) (sym h) ∙ lookup-apply_ops ops d k;
}

abbrev log_of : Option Machine → Option Text
log_of none = none
log_of (some w) = some w.log

pub machine-IsLogFile : IsLogFile machine
machine-IsLogFile = record { read-write = λ path text w w' h. ap log_of (sym h) }

drop-nil : (n : ℕ) → drop {A = ℕ} n [] ≡ []
drop-nil zero = refl
drop-nil (suc n) = refl

past : (n : ℕ) → 2 ≤ n → drop n source ≡ []
past zero h = absurd (omega arith)
past (suc zero) h = absurd (omega arith)
past (suc (suc n)) h = drop-nil n

pub bytes_at-drop : (n : ℕ) → drop n source ≡ bytes_at n ++ drop (n + length (bytes_at n)) source
bytes_at-drop zero = refl
bytes_at-drop (suc zero) = refl
bytes_at-drop (suc (suc n)) = drop-nil n ∙ sym (past (suc (suc n) + 0) (omega arith))

pub bytes_at-nil : (n : ℕ) → bytes_at n ≡ [] → drop n source ≡ []
bytes_at-nil zero h = cc
bytes_at-nil (suc zero) h = cc
bytes_at-nil (suc (suc n)) h = drop-nil n

abbrev pub ret_or : {A : Type 0} → A → Outcome A → A
ret_or d (ret x) = x
ret_or d (fail e) = d

abbrev CountsAll : List ℕ → Machine → ℕ → Type 0
CountsAll bytes w n =
    (n ≤ length bytes)
    × (w.dst_data ++ bytes ≡ w.dst_data ++ take n bytes)
    × (w.dst_pos + length bytes ≡ w.dst_pos + n)

take-length : (xs : List ℕ) → take (length xs) xs ≡ xs
take-length [] = refl
take-length (x ∷ xs) = ap (λ ys. x ∷ ys) (take-length xs)

pub CountsAll-length : (bytes : List ℕ) (w : Machine) → CountsAll bytes w (length bytes)
CountsAll-length bytes w = (omega arith, ap (λ b. w.dst_data ++ b) (sym (take-length bytes)), refl)

unfoldable pub machine-IsCopyDevice : IsCopyDevice machine 3 4 2 source
machine-IsCopyDevice = record {
  src_pos = λ w. w.src_pos;
  dst_pos = λ w. w.dst_pos;
  dst_data = λ w. w.dst_data;
  read_lem =
      λ w bytes h. rw (← ap (ret_or []) h) (bytes_at-drop w.src_pos, bytes_at-nil w.src_pos, refl);
  read_keeps = λ w. (refl, refl);
  write_ret = λ w bytes n at_end h. rw (← ap (ret_or 0) h) (CountsAll-length bytes w);
  write_fail = λ w bytes e h. cc;
  write_keeps = λ w bytes. refl;
  seek_source = λ w offset n h. refl;
  seek_source_keeps = λ w offset. (refl, refl);
  seek_dest = λ w offset n h. refl;
  seek_dest_keeps = λ w offset. (refl, refl);
}

abbrev pub IsPresent : Machine → Type 0
IsPresent w = w.present ≡ true

sought-IsPresent : (fd offset : ℕ) (w : Machine) → IsPresent w → IsPresent (sought fd offset w)
sought-IsPresent zero offset w h = h
sought-IsPresent (suc zero) offset w h = h
sought-IsPresent (suc (suc zero)) offset w h = h
sought-IsPresent (suc (suc (suc zero))) offset w h = h
sought-IsPresent (suc (suc (suc (suc zero)))) offset w h = h
sought-IsPresent (suc (suc (suc (suc (suc n))))) offset w h = h

call_on-IsPresent :
    (c : Syscall) (w : Machine) → IsHarmless c → IsPresent w → IsPresent (call_on c w).1
call_on-IsPresent _ w (is_directory_call path) h = h
call_on-IsPresent _ w (create_directories_call path) h = h
call_on-IsPresent _ w (open_call path flags) h = h
call_on-IsPresent _ w (close_call fd) h = h
call_on-IsPresent _ w (lseek_call fd offset whence) h = sought-IsPresent fd offset w h

pub machine-Keeps : Keeps machine IsPresent
machine-Keeps = record {
  kept_by_call = call_on-IsPresent;
  kept_by_read = λ fd n w h. h;
  kept_by_write = λ fd bytes w h. h;
}
