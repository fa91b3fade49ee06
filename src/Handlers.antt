-- ===== src/Handlers.antt =====
-- The file system requests, server/src/fs_handlers.rs. base64 is a parameter.
pub mod Attributes
pub mod Listing
pub mod Requests
pub mod Dispatch
pub mod Looks
pub mod Guarded
pub mod Replied
pub mod Chunks
pub mod Expected
pub mod Saved
pub mod ReadBack
pub mod Stores
pub mod Writes
pub mod Exclusive
pub mod Moves
pub mod Footprint
pub mod Copies
use emacs_relay.Common.{ℕ, String, List}
use emacs_relay.Fs.{Result}

-- base64's standard engine. The error of a decoding is what it displays.
pub record Base64 : Type 0 where
  pub encode : List ℕ → String
  pub decode : String → Result String (List ℕ)
