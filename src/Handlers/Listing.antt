-- ===== src/Handlers/Listing.antt =====
-- `readdir_stream` of server/src/fs_handlers.rs: a listing as a sequence of replies. `listening` says
-- whether the writer thread still takes payloads at a time; the loop ends at the first one it refuses.
use emacs_relay.Common.{
  ℕ, ◌<>◌, String, Bool, true, false, Option, none, some, List, [], ◌∷◌, ◌++◌, ℤ, leb, length, join,
}
use emacs_relay.Fs.{FilePath, IoError, World, Result, ok, err, M}
use emacs_relay.Fs.Directories.{read_dir}
use emacs_relay.Json.{Json}
use emacs_relay.Json.Object.{object}
use emacs_relay.Framing.{Channel, send, finish}
use emacs_relay.Handlers.Attributes.{stat_value, dir_entry_value}

abbrev pub readdir_chunk_size : ℕ
readdir_chunk_size = 2000

-- What a computation gives that cannot fail.
abbrev pub always : {A : Type 0} → Result ⊥ A → A
always (ok a) = a
always (err e) = absurd e

module _ (J : Json) where
  abbrev pub chunk_message : ℤ → List J.Value → J.Value
  chunk_message id chunk = object J (
      ("id", J.signed id)
      ∷ ("ok", J.boolean true)
      ∷ ("more", J.boolean true)
      ∷ ("entries", J.array chunk)
      ∷ [])

  abbrev pub final_message : ℤ → List J.Value → J.Value → J.Value
  final_message id batch attrs = object J (
      ("id", J.signed id)
      ∷ ("ok", J.boolean true)
      ∷ ("entries", J.array batch)
      ∷ ("self_attrs", attrs)
      ∷ [])

  -- A name is its own text: what is not UTF-8 has none here.
  abbrev pub entry_at : FilePath → String → M ⊥ J.Value
  entry_at path name = dir_entry_value J name (join path name)

  abbrev pub self_at : FilePath → M ⊥ J.Value
  self_at path = stat_value J path

  module _ (listening : ℕ → Bool) (id : ℤ) (path : FilePath) where
    -- A full batch is sent and a new one begun; none where nobody takes it. The first test is whether
    -- the batch is full, the second whether the writer takes a payload.
    abbrev pub flushed : Bool → Bool → List J.Value → Channel J → Option (List J.Value × Channel J)
    flushed false takes batch tx = some (batch, tx)
    flushed true true batch tx = some ([], tx ++ (J.to_bytes (chunk_message id batch) ∷ []))
    flushed true false batch tx = none

    abbrev pub go_on :
        (List J.Value → Channel J → Channel J × World)
        → Channel J × World
        → Option (List J.Value × Channel J)
        → Channel J × World
    go_on more stopped none = stopped
    go_on more stopped (some (batch, tx)) = more batch tx

    unfoldable pub stream :
        List (Option String) → J.Value → List J.Value → Channel J → World → Channel J × World
    stream [] attrs batch tx w = (send J tx (final_message id batch attrs), w)
    stream (none ∷ entries) attrs batch tx w = stream entries attrs batch tx w
    stream (some name ∷ entries) attrs batch tx w =
        let v = (entry_at path name w).1 in
        let more = batch ++ (always (entry_at path name w).0 ∷ []) in
        let full = leb readdir_chunk_size (length more) in
        go_on (λ b t. stream entries attrs b t v) (tx, v) (flushed full (listening v.now) more tx)

    abbrev pub listed :
        Result IoError (List (Option String)) → Channel J → World → Channel J × World
    listed (ok entries) tx w = stream entries (always (self_at path w).0) [] tx (self_at path w).1
    listed (err e) tx w = (finish J tx id (err ("readdir: " <> e.shown)), w)

    unfoldable pub readdir_stream : Channel J → World → Channel J × World
    readdir_stream tx w = listed (read_dir path w).0 tx (read_dir path w).1
