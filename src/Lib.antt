-- ===== src/Lib.antt =====
-- The Rust server of emacs-relay (server/src): what Emacs reads and writes through it over ssh stays
-- consistent with the files on the remote side, although other programs change them meanwhile.
--
-- The server's parts and the modules that model them:
--
--   server/src/revisions/types.rs    Revision (types, guards, comparisons), Revision/Wire (to_value and
--                                    from_value), Sha256 (the hash, in Sha256/Words its 32-bit words)
--   server/src/revisions/read.rs     Read (checked_lstat and open_checked of types.rs, read_with_revision,
--                                    read_range), Read/Tail (tail_read, in Read/Tail/Follow one
--                                    after another, in Read/Tail/Moments where its bytes come from)
--   server/src/revisions/write.rs    Write (PendingTemp, both checks, publication, the whole write)
--   server/src/revisions/mod.rs      Write.conditional_write (in Write/Swap as a compare-and-swap,
--                                    in Write/Swap/Rivals two of them),
--                                    Revision/Wire.wire_error, the constants
--   server/src/framing.rs            Framing (frame size, expand_home, send, finish, finish_revision)
--   server/src/control.rs            Control (watch, unwatch, hello, handle_ctl)
--   server/src/fs_handlers.rs        Handlers (in Handlers/Dispatch handle_fs, in Handlers/Requests its
--                                    operations, Handlers/Listing the chunks of a directory,
--                                    Handlers/Saved and Handlers/ReadBack a write from
--                                    request to file and back, Handlers/Writes and
--                                    Handlers/Moves and Handlers/Copies what write_file, a
--                                    rename and a copy do to the paths, Handlers/Footprint what any request may
--                                    change), Exec (in
--                                    Exec/Command exec_command_with_registry, Exec/Readers the output
--                                    readers, Exec/Polling the loop, Exec/Registry the registry)
--   server/src/main.rs               Main (frames, the main loop, in Main/Served what becomes of
--                                    a request), Main/Events (the watcher's callback),
--                                    Main/Pool (the threads)
--   std::fs and the kernel below it  Fs: the world, Fs/Calls, Fs/Names, Fs/Directories and
--                                    Fs/Files the calls
--   serde_json                       Json: an interface with the laws that it documents, a parameter
--
-- The world (Fs.World) is a file system of names and inodes with an environment: before each system
-- call other processes change the file system in any way that `env` says, and each call may fail. A
-- computation (Fs.M) takes a world to a result and the world after it, with what was done before a
-- failure left done. Four kinds of environment occur in theorems: any at all; one where every change
-- of a file moves its change time (Fs.Kept.IsTimed), which is what the comparison of metadata relies
-- on; one where others only append to a file (Read.Tail.Grown.IsAppending), for a client that follows
-- it; and a calm one where nobody else acts and nothing fails (Fs.Calm.IsCalm), in which theorems say
-- that an operation comes back and with what. Fs.Keeps lifts what every call keeps to whole
-- operations. The log of a world holds the changes that the server itself made.
--
-- Bounds and rounds: a read retries 3 times (READ_ATTEMPTS) and a temporary name 100 times, as in the
-- source; the loop of read_to_end has as many rounds as bytes are asked for, and each takes a byte at
-- least; a u64's decimal form has at most 20 digits. Hash words keep their wrap-around.
--
-- The mutation lock makes a server's own writes run one after the other, so a write is one
-- computation. A path is a text, and so is a name in a directory: names that are not UTF-8, for
-- which readdir_stream sends a lossy text beside the attributes of the real path, are not modelled.
-- The kernel's resolution of the directories above the last component is not modelled, nor is
-- symbolic-link resolution beyond the refusal of a link as the last component. The table of watched
-- directories is a list, one of the orders in which a HashMap may iterate.
--
-- `exec` stands apart from the world: what its child does to files is among what others do, so the
-- handlers take the outcome of `exec` as an argument. In Exec the child is a record of what it
-- shows in each round of the loop, and the two output readers are a step relation
-- (Exec.Readers.Run) in which every interleaving is a run, with a pipe that is missing among the
-- starts. The loop has timeout_ms / 20 + 2 rounds, and each sleeps 20 ms at least. Whether the
-- writer thread still takes payloads is an argument of the listing, by time.
--
-- The threads of main are a step relation too (Main.Pool.Run): a worker's handling of a request is one
-- step with the payloads that `handle_fs` gives in some world, and its sends are steps of their own.
--
-- Not modelled: a write to stdout that fails and the end of the process in server/src/main.rs, `setsid`
-- and how the pipes of a child are made, and the Emacs Lisp client under lisp.
pub mod Common
pub mod Json
pub mod Fs
pub mod Handlers
pub mod Exec
pub mod Sha256
pub mod Revision
pub mod Read
pub mod Write
pub mod Framing
pub mod Control
pub mod Main
mod Tests
