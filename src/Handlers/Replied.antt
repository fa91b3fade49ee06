-- ===== src/Handlers/Replied.antt =====
-- What `handle_fs` of server/src/fs_handlers.rs puts into the channel, apart from a listing.
use emacs_relay.Common.{
  ℕ, ◌≡◌, refl, String, Bool, true, false, Option, none, some, List, [], ◌∷◌, ◌++◌, ℤ, str_eq, leb,
  leb→le, if◌then◌else◌, length, on_both, on_else, ◌⊎◌, inl, inr,
}
use emacs_relay.Fs.{FilePath, World, Result, ok, err, M}
use emacs_relay.Json.{Json}
use emacs_relay.Revision.{ExpectedRevision, RevisionError}
use emacs_relay.Framing.{Channel, max_frame_bytes, send, finish, finish_revision}
use emacs_relay.Framing.Replies.{Fits}
use emacs_relay.Control.{Host, text_of}
use emacs_relay.Handlers.{Base64}
use emacs_relay.Handlers.Requests.{
  read_request, range_request, tail_request, expected_revision_from_request,
}
use emacs_relay.Handlers.Dispatch.{
  plain_write, run_fs, replied, replied_revision, write_decoded, write_encoded, write_request,
  handle_op, handle_fs,
}

module _ (J : Json) where
  -- Nothing, or one payload that fits a frame.
  abbrev pub AtMostOne : Channel J → Channel J → Type 0
  AtMostOne tx tx' = (tx' ≡ tx) ⊎ ((p : List ℕ) × (tx' ≡ tx ++ (p ∷ [])) × Fits J p)

  send-AtMostOne : (tx : Channel J) (v : J.Value) → AtMostOne tx (send J tx v)
  unfolding send
  send-AtMostOne tx v = go (leb (length (J.to_bytes v)) max_frame_bytes) refl
    where
      go :
          (b : Bool)
          → leb (length (J.to_bytes v)) max_frame_bytes ≡ b
          → AtMostOne tx (if b then tx ++ (J.to_bytes v ∷ []) else tx)
      go true e = inr (J.to_bytes v, refl, leb→le (length (J.to_bytes v)) max_frame_bytes e)
      go false e = inl refl

  finish-AtMostOne :
      (tx : Channel J) (id : ℤ) (r : Result String J.Value) → AtMostOne tx (finish J tx id r)
  unfolding finish
  finish-AtMostOne tx id (ok v) = send-AtMostOne tx _
  finish-AtMostOne tx id (err e) = send-AtMostOne tx _

  finish_revision-AtMostOne :
      (tx : Channel J) (id : ℤ) (r : Result RevisionError J.Value)
      → AtMostOne tx (finish_revision J tx id r)
  unfolding finish_revision
  finish_revision-AtMostOne tx id (ok v) = send-AtMostOne tx _
  finish_revision-AtMostOne tx id (err e) = send-AtMostOne tx _

  -- Whatever the world.
  unfoldable Replies : (Channel J → World → Channel J × World) → Type 0
  Replies f = (tx : Channel J) (w : World) → AtMostOne tx (f tx w).0

  module _ (host : Host) (B : Base64) (exec : J.Value → M String J.Value)
      (listening : ℕ → Bool) where
    reply-Replies : (id : ℤ) (m : M String J.Value) → Replies (replied J host B exec listening id m)
    unfolding Replies replied replied_revision
    reply-Replies id m tx w = finish-AtMostOne tx id _

    reply_revision-Replies :
        (id : ℤ) (m : M RevisionError J.Value)
        → Replies (replied_revision J host B exec listening id m)
    unfolding Replies replied replied_revision
    reply_revision-Replies id m tx w = finish_revision-AtMostOne tx id _

    write_decoded-Replies :
        (id : ℤ) (path : FilePath) (expected : ExpectedRevision) (r : Result String (List ℕ))
        → Replies (write_decoded J host B exec listening id path expected r)
    write_decoded-Replies id path expected (ok bytes) = reply_revision-Replies id _
    write_decoded-Replies id path expected (err e) = reply-Replies id _

    write_encoded-Replies :
        (id : ℤ) (path : FilePath) (expected : ExpectedRevision) (o : Option String)
        → Replies (write_encoded J host B exec listening id path expected o)
    write_encoded-Replies id path expected (some encoded) =
        write_decoded-Replies id path expected (B.decode encoded)
    write_encoded-Replies id path expected none = reply-Replies id _

    write_request-Replies :
        (id : ℤ) (path : FilePath) (req : J.Value) (plain : Bool)
        (r : Result String (Option ExpectedRevision))
        → Replies (write_request J host B exec listening id path req plain r)
    write_request-Replies id path req plain (err e) = reply-Replies id _
    write_request-Replies id path req plain (ok none) = reply-Replies id _
    write_request-Replies id path req false (ok (some expected)) = reply-Replies id _
    write_request-Replies id path req true (ok (some expected)) =
        write_encoded-Replies id path expected _

    handle_op-Replies :
        (op : String) (id : ℤ) (path : FilePath) (req : J.Value)
        → str_eq op "readdir" ≡ false
        → Replies (handle_op J host B exec listening op id path req)
    unfolding handle_op
    handle_op-Replies op id path req h =
        let reply = reply-Replies id in
        on_else Replies (str_eq op "readdir") _ _ h (
          on_both Replies (str_eq op "read") _ _
            (reply_revision-Replies id (read_request J host B path))
            (on_both Replies (str_eq op "read_range") _ _ (reply (range_request J host B req path))
              (on_both Replies (str_eq op "tail_read") _ _ (reply (tail_request J host B req path))
                (on_both Replies (str_eq op "write") _ _
                  (write_request-Replies id path req (plain_write J host B exec listening req)
                    (expected_revision_from_request J host B req))
                  (reply (run_fs J host B exec listening op req path))))))

    -- A request that is no `readdir` adds one payload to the channel at most, which fits a frame, and
    -- takes none away, whatever its operation does.
    pub handle_fs-AtMostOne :
        (req : J.Value) (tx : Channel J) (w : World)
        → str_eq (text_of J host req "op") "readdir" ≡ false
        → AtMostOne tx (handle_fs J host B exec listening req tx w).0
    unfolding handle_fs Replies
    handle_fs-AtMostOne req tx w h = handle_op-Replies _ _ _ req h tx w
