-- ===== src/Handlers/ReadBack.antt =====
-- A client that writes and then reads, through the requests of server/src/fs_handlers.rs, in a calm world.
use emacs_relay.Common.{ℕ, ◌≡◌, String, Bool, List, ℤ}
use emacs_relay.Fs.{FilePath, World, ok, M}
use emacs_relay.Json.{Json}
use emacs_relay.Revision.{ExpectedRevision, ConditionalWrite}
use emacs_relay.Framing.{Channel, finish_revision}
use emacs_relay.Control.{Host, text_of}
use emacs_relay.Handlers.{Base64}
use emacs_relay.Handlers.Requests.{path_of, read_value, saved_value}
use emacs_relay.Handlers.Dispatch.{handle_fs}
use emacs_relay.Handlers.Saved.{id_of}

module _ (J : Json) (host : Host) (B : Base64) (exec : J.Value → M String J.Value)
    (listening : ℕ → Bool) where
  -- A request that reads a path with its revision.
  pub record IsRead (req : J.Value) (path : FilePath) : Type 0 where
    pub op : text_of J host req "op" ≡ "read"
    pub at_path : path_of J host B req "path" ≡ path

  abbrev identity : J.Value → ℤ
  identity = id_of J host B exec listening

  -- The write is answered with a revision, and any later read with the bytes under that revision.
  abbrev pub ReadsBack :
      J.Value → J.Value → FilePath → ExpectedRevision → List ℕ → Channel J → World → Type 0
  ReadsBack req later path expected bytes tx w =
      (saved : ConditionalWrite) × (v : World) × (handle_fs J host B exec listening req tx w
        ≡ (finish_revision J tx (identity req) (ok (saved_value J host B saved)), v))
      × ((tx' : Channel J)
          → (n : ℕ) × (handle_fs J host B exec listening later tx' v ≡ (
            finish_revision J tx' (identity later)
                (ok (read_value J host B (record { bytes = bytes; revision = saved.revision }))),
            record v { now = n },
          )))
