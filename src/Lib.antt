-- ===== src/Lib.antt =====
-- A verification library of the symbol server: a service that keeps the system symbols of Apple
-- SDKs in compact files (memdb), synchronises them from an S3 bucket, and answers lookups of
-- addresses over HTTP.
--
-- Parts of the program, and the files that model them (paths from the repository's root):
--
--   src/errors.rs          Errors: the error kinds, and what a Rust call comes to: a value, an
--                          `Err`, a panic, or a read outside of memory.
--   src/utils.rs           Utils/BinSearch (binsearch_by_key), Utils/IgnorePatterns (the patterns
--                          of SDKs that a sync leaves alone), Utils/Addr (addresses as text),
--                          Utils/Copy (copy_with_progress), Utils/Systemd (get_systemd_fd).
--   src/sdk.rs             Sdk (SdkInfo: order and names), Sdk/Filename (from_path and its two
--                          regular expressions, the names in an archive), Sdk/Objects (the
--                          iteration over the objects of an SDK, and Sdk::dump_memdb).
--   src/memdb/types.rs     Memdb/Types: the packed records of a memdb file.
--   src/memdb/read.rs      Memdb/Read (the reader, down to lookup_impl), Memdb/Lookup (the
--                          lookups by UUID and by object name, and iter_symbols).
--   src/memdb/write.rs     Memdb/Write (MemDbBuilder up to write_object), Memdb/Write/Layout (the
--                          bytes of the records), Memdb/Write/Flush (flush and dump_memdb).
--   src/dsym.rs            Dsym: the variants of a Mach-O file and their symbols.
--   src/memdb/stash.rs     Memdb/Stash/State (the records, and the state of a MemDbStash as the
--                          World), Saving (save_state), Sync (sync and its steps), Queries
--                          (health, SDKs, databases), Fuzzy (the SDKs that a request names).
--   src/s3.rs              S3: keys, etags, and the SDKs of a listing; S3/Client (the set-up of
--                          the client, its credentials and downloads).
--   src/config.rs          Config: the settings and where each comes from; Config/CommandLine is
--                          config_from_matches of src/cli.rs.
--   src/cli.rs             Cli: the actions of the commands.
--   src/api/types.rs       Api/Types: responses and API errors.
--   src/api/server.rs      Api/Health (health checks), Api/Server (routing, and the closure that
--                          answers a request), Api/Binding (what the server listens on),
--                          Api/Threads (the start of the server and its background threads);
--                          load_request_data is in Api/Handlers, run_isolated of src/utils.rs in
--                          Api/Threads.
--   src/api/handlers.rs    Api/Handlers: the four endpoints.
--
-- Every other file of a directory proves what its name says: Laws, Safety, Keyed, SyncLoop,
-- SyncLaws, StatusLaws, Stale, FuzzyLaws, Keys, Loading, Answers, Replies, Checked, Sorting,
-- Commands, Overrides, Sound, Syncing, Serving, Memory, Calls, Recovery, Converted, Names,
-- Matching, Captured, Nameable, Atomic, and RoundTrip of Sdk/Filename. Of the writer, Region,
-- LayoutLaws, Pieces, File and Tables follow the bytes of a file, Invariant, Interning, Named, Steps
-- and Dump the builder, and RoundTrip, Lookups and
-- Answers the reader in a written file. Prelude, Text and Bytes hold what the parts share, among it
-- the operations of Rust's standard library: lists, orders, hash maps as association lists, stable
-- sorting, UTF-8, numbers in decimal and hexadecimal, and little-endian integers. Tests runs the
-- definitions on concrete data and applies the theorems to it.
--
-- How they interact: a request goes through `handle` to a handler, which asks the stash for the
-- SDKs that its id names and for their databases, and reads the databases by `lookup_by_uuid` or
-- `lookup_by_object_name`; these files are what `dump_memdb` writes of the objects of an SDK, whose
-- variants and symbols Dsym extracts. `sync` brings the state of the stash up to the list in the
-- bucket.
--
-- State: a call of the stash takes a World (files, the state file, the state in memory, the loaded
-- databases) and gives an outcome and the World it leaves, also when it fails. What the outside
-- answers during a call is the record Env: the list of SDKs from S3, downloads, the writing of the
-- state file and the removal of files. A file of the disk is a list of bytes.
--
-- The server is a step relation: the main thread starts up, and then the two background threads and
-- the requests take turns in any order, each turn one whole call with an Env of its own. What is
-- said of the reachable states is said of servers whose calls do not overlap.
--
-- Memory: a pointer into a slice that was checked is read by `from_raw_parts` or `transmute`, which
-- are undefined where they take more bytes than the slice has.
--
-- Integers are natural numbers with the wrap-around of their width written out. A `usize` has 64
-- bits, and sums wrap, as in a release build. The order of a hash map is the order of its
-- association list. The health ratio, an `f32` in the source, is compared in whole numbers, which
-- is exact for totals up to 2^24.
--
-- Fuel: the binary search gets one more than the length of the slice, which its total correctness
-- shows to be enough; digits of a number get the number itself, the search for names in a table
-- gets the length of the file, white space in a file name gets the length of the name,
-- and the iteration over an SDK one more than the number of the files that are left.
--
-- Parameters: the Env of the stash; the regular expressions of ignore patterns; the reader and the
-- writer of JSON, the texts of errors and the version of the crate (the record Library); the crate
-- mach_object (the record MachObject) and the xz encoder; the environment, the files and the
-- parsers that the configuration reads (the record Outside); the file system, the zip archives and
-- the walk over a directory (the record FileSystem); the options that clap parsed, the default
-- location of SDKs, and the upload of a shared file.
--
-- Not modelled: failing writes of the memdb writer, how requests to S3 are signed and sent, the
-- set-up of the logger, progress bars, and logging. Nor what the threads of the server do within
-- each other's calls: a health check that reads the state file while a sync saves it is not a
-- sequence of turns. A loaded database is the bytes that its file had when it was loaded; in the
-- program it maps the file, which an update of the SDK rewrites in place.
pub mod Prelude
pub mod Errors
pub mod Text
pub mod Sdk
pub mod Bytes
pub mod Memdb
pub mod Api
pub mod S3
pub mod Dsym
pub mod Config
pub mod Cli
pub mod Utils
mod Tests
