-- ===== src/Lib.antt =====
-- autotier: a model of autotierfs, the FUSE file system that spreads files over tiers of storage,
-- with its theorems.
--
-- The program. A mounted file system passes each callback to the backend that holds the file, as
-- the metadata database says. One thread of the tier engine crawls the backends from time to
-- time, ranks the files by popularity, packs them into the tiers from the fastest on, moves the
-- files whose tier changed, and writes their metadata back. The callbacks and the engine share
-- the tiers' usage, the table of open files, the database and the queue of ad hoc commands.
--
-- Paths are those of the repository.
--   Env           what is taken from outside: `double`, the byte counts of lib45d, Boost, RocksDB
--                 and the system calls, as a record; Env/Laws has what is relied on.
--   Queue         src/incl/concurrentQueue.hpp
--   OpenFiles     src/impl/autotierfs/openFiles.cpp
--   Metadata      src/impl/autotierfs/metadata.cpp: the record of a file, its key, its update
--   Tier          src/impl/autotierfs/tier.cpp, the accounting; the tier's path is the pointer's
--                 stand-in in metadata, the tier's number its stand-in in a file
--   File          src/impl/autotierfs/file.cpp, src/incl/popularityCalc.hpp
--   Crawl         `crawl`, `emplace_file` and `launch_crawlers` of
--                 src/impl/autotierfs/TierEngine/components/tiering.cpp; Regex is the part of
--                 `std::regex` that the patterns use, by derivatives
--   Tiering       `simulate_tier` of the same file
--   Ranking       `calc_popularity` and the comparison of `sort` of the same file
--   Engine        `tier` of the same file: one round
--   Copy          `Tier::move_file` of src/impl/autotierfs/tier.cpp
--   Transfer      `Tier::transfer_files` of that file, `move_files` and `update_db` of
--                 tiering.cpp. A schedule is the order in which the threads take the files
--   Conflicts     src/impl/autotierfs/conflicts.cpp
--   Adhoc         the rest of src/impl/autotierfs/TierEngine/components/adhoc.cpp on the engine's
--                 own state, Service: the requests of Adhoc, the listings of Adhoc/Listing and
--                 Adhoc/Status, the dispatch of Adhoc/Server, pinning in Adhoc/Pinning, and
--                 `execute_queued_work` in Adhoc/Drain, with what other threads queue meanwhile.
--                 Adhoc/Round is `tier` on that state
--   Daemon        `begin` and `stop` of src/impl/autotierfs/TierEngine/components/tiering.cpp and
--                 sleep.cpp beside it: the tiering thread as a step relation, with the mutex and
--                 the signals of its waits. A round, or the run of the queued jobs, is a step once
--                 it is over; an exception ends the program
--                 Daemon/Serving is the thread of the socket server beside it, the loop of
--                 `process_adhoc_requests` of adhoc.cpp, from `init` of
--                 src/impl/autotierfs/fuseOps/init.cpp to `destroy` of destroy.cpp beside it
--   Launch        `main` of src/impl/autotierfs/autotierfs.cpp, and the arguments of `fuse_main` in
--                 src/impl/autotierfs/fuseOps/fusePassthrough.cpp
--   Database      src/incl/rocksDbHelpers.hpp, and how database.cpp beside tiering.cpp opens the
--                 database; Database/Order has the order of its keys
--   Setup         `create_run_path` of base.cpp, `set_socket_permissions` of adhoc.cpp and the lock
--                 file of mutex.cpp beside them
--   Client        src/impl/autotier/autotier.cpp and `sanitize_paths` of src/impl/shared/tools.cpp;
--                 Client/RunPath is `get_run_path`, Client/Session a whole run, with the server
--   Config        src/impl/autotierfs/config.cpp: `load_config`, and `dump` in Config/Dump
--   Logger        src/impl/shared/alert.cpp
--   Commands      `get_command_index` of src/impl/shared/tools.cpp, `AdHoc` of src/incl/tools.hpp,
--                 `enqueue_work` of src/incl/TierEngine/components/adhoc.hpp, the head of the
--                 loop of `execute_queued_work` of src/impl/autotierfs/TierEngine/components/adhoc.cpp
--   Fuse          src/incl/fuseOps.hpp and src/impl/autotierfs/fuseOps/: a callback is a function
--                 from the mount to a result and the mount. Fuse/Table has the tables of
--                 descriptors, Fuse/Helpers helpers.cpp and the control flow that callbacks share,
--                 Fuse/Open open.cpp, create.cpp and release.cpp, Fuse/Names the callbacks on names,
--                 Fuse/Attr those on attributes, Fuse/Xattr xattr.cpp, Fuse/Data those on data,
--                 Fuse/Directory directory.cpp, Fuse/Statfs statfs.cpp, Fuse/Descriptors calls on
--                 open descriptors.
--                 Fuse/Rules has rules for pre- and postconditions
--   Base          shared names and lemmas; Tests has a machine on which the hypotheses hold, and
--                 the theorems at concrete inputs
--
-- Numbers. Byte counts are natural numbers with the wrap of 64-bit words written out, in Env/Laws.
-- Fuel. The copying loop takes its fuel as the number of reads: one more than the bytes that are
-- left and the writes that fail or are short is enough. On a tier that stays full the loop does not
-- end: a thread whose copy has not ended with the fuel is `copying`, and goes no further, and what
-- is said of the end of a job or of the thread takes as a hypothesis that each copy ends. A `write` takes it as the number of
-- attempts: one more than it has to wait is enough.
--
-- The loop over queued jobs takes it as the number of jobs, and a listing as the number of entries
-- of a stream: one more than there are is enough.
--
-- Not modelled: the socket, RocksDB itself, `fuse_main` and its settings, the usage texts and the
-- first configuration file, and other locks, which a library handles. Log messages are left out
-- throughout.
pub mod Adhoc
pub mod Base
pub mod Client
pub mod Commands
pub mod Config
pub mod Conflicts
pub mod Copy
pub mod Crawl
pub mod Daemon
pub mod Database
pub mod Engine
pub mod Env
pub mod File
pub mod Fuse
pub mod Launch
pub mod Logger
pub mod Metadata
pub mod OpenFiles
pub mod Queue
pub mod Ranking
pub mod Regex
pub mod Setup
pub mod Tests
pub mod Tier
pub mod Tiering
pub mod Transfer
