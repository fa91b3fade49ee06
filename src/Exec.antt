-- ===== src/Exec.antt =====
-- `exec` of server/src/fs_handlers.rs: a child process with a time limit and a limit on its output. The
-- process, the clock and the kernel are arguments.
pub mod Arguments
pub mod Readers
pub mod Polling
pub mod Registry
pub mod Command
