-- ===== src/Tests.antt =====
-- Concrete runs, and the theorems at concrete inputs.
mod Samples
mod Revisions
mod Reads
mod Writes
mod Calm
mod Server
mod Loop
mod Handlers
mod Exec
mod Pool
mod Files
mod Saved
mod Follow
