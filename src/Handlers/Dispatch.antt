-- ===== src/Handlers/Dispatch.antt =====
-- `handle_fs` of server/src/fs_handlers.rs: which operation a request asks for, and its reply.
use emacs_relay.Common.{
  ℕ, ◌<>◌, String, Bool, true, false, not, ◌&&◌, ◌||◌, Option, none, some, ℤ, pos, str_eq,
  if◌then◌else◌,
}
use emacs_relay.Fs.{FilePath, World, Result, ok, err, M, pure, raise, ◌>>=◌}
use emacs_relay.Json.{Json}
use emacs_relay.Json.Object.{object, field}
use emacs_relay.Revision.{ExpectedRevision, RevisionError}
use emacs_relay.Revision.Wire.{and_then}
use emacs_relay.Framing.{Channel, finish, finish_revision}
use emacs_relay.Control.{Host, text_of}
use emacs_relay.Handlers.{Base64}
use emacs_relay.Handlers.Attributes.{stat_value, resolve}
use emacs_relay.Handlers.Listing.{readdir_stream}
use emacs_relay.Handlers.Requests.{
  or_default, flag_of, path_of, read_request, range_request, tail_request,
  expected_revision_from_request, legacy_write, mkdir_request, rmdir_request, delete_request,
  rename_request, copy_request, expecting_write,
}
use emacs_relay.Common.{[], ◌∷◌, List}

-- The operations that take the mutation lock.
unfoldable pub mutates : String → Bool
mutates op =
    str_eq op "write"
    || (str_eq op "mkdir"
        || (str_eq op "rmdir" || (str_eq op "delete" || (str_eq op "rename" || str_eq op "copy"))))

module _ (J : Json) (host : Host) (B : Base64) where
  -- `exec` is what `exec_command_with_registry` does for a request, and `listening` whether the writer
  -- takes payloads at a time.
  module _ (exec : J.Value → M String J.Value) (listening : ℕ → Bool) where
    abbrev pub stat_request : FilePath → M String J.Value
    stat_request path = stat_value J path >>= λ attrs. pure (object J (("attrs", attrs) ∷ []))

    -- The operations that have one plain reply.
    unfoldable pub run_fs : String → J.Value → FilePath → M String J.Value
    run_fs op req path =
        if str_eq op "stat"
        then stat_request path
        else if str_eq op "resolve"
        then resolve J path
        else if str_eq op "exec"
        then exec req
        else if str_eq op "write"
        then legacy_write J host B req path
        else if str_eq op "mkdir"
        then mkdir_request J host B req path
        else if str_eq op "rmdir"
        then rmdir_request J host B req path
        else if str_eq op "delete"
        then delete_request J host B path
        else if str_eq op "rename"
        then rename_request J host B req path
        else if str_eq op "copy"
        then copy_request J host B req path
        else raise ("unknown fs op: " <> op)

    -- A reply from a computation that may have changed the world.
    unfoldable pub replied : ℤ → M String J.Value → Channel J → World → Channel J × World
    replied id m tx w = (finish J tx id (m w).0, (m w).1)

    unfoldable pub replied_revision :
        ℤ → M RevisionError J.Value → Channel J → World → Channel J × World
    replied_revision id m tx w = (finish_revision J tx id (m w).0, (m w).1)

    abbrev pub write_decoded :
        ℤ
        → FilePath
        → ExpectedRevision
        → Result String (List ℕ)
        → Channel J
        → World
        → Channel J × World
    write_decoded id path expected (ok bytes) =
        replied_revision id (expecting_write J host B path expected bytes)
    write_decoded id path expected (err e) = replied id (raise ("write decode: " <> e))

    abbrev pub write_encoded :
        ℤ → FilePath → ExpectedRevision → Option String → Channel J → World → Channel J × World
    write_encoded id path expected (some encoded) =
        write_decoded id path expected (B.decode encoded)
    write_encoded id path expected none = replied id (raise "write: missing bytes_b64")

    -- `!append && !must_be_new`
    abbrev pub plain_write : J.Value → Bool
    plain_write req =
        not (flag_of J host B req "append" false) && not (flag_of J host B req "must_be_new" false)

    abbrev pub write_request :
        ℤ
        → FilePath
        → J.Value
        → Bool
        → Result String (Option ExpectedRevision)
        → Channel J
        → World
        → Channel J × World
    write_request id path req plain (err e) = replied id (raise e)
    write_request id path req plain (ok none) = replied id (run_fs "write" req path)
    write_request id path req false (ok (some expected)) = replied id (run_fs "write" req path)
    write_request id path req true (ok (some expected)) =
        write_encoded id path expected (and_then (field J req "bytes_b64") J.as_str)

    unfoldable pub handle_op :
        String → ℤ → FilePath → J.Value → Channel J → World → Channel J × World
    handle_op op id path req =
        if str_eq op "readdir"
        then readdir_stream J listening id path
        else if str_eq op "read"
        then replied_revision id (read_request J host B path)
        else if str_eq op "read_range"
        then replied id (range_request J host B req path)
        else if str_eq op "tail_read"
        then replied id (tail_request J host B req path)
        else if str_eq op "write"
        then write_request id path req (plain_write req)
            (expected_revision_from_request J host B req)
        else replied id (run_fs op req path)

    unfoldable pub handle_fs : J.Value → Channel J → World → Channel J × World
    handle_fs req =
        handle_op (text_of J host req "op")
          (or_default (pos 0) (and_then (field J req "id") J.as_i64)) (path_of J host B req "path")
          req
