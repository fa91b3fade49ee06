-- ===== src/Handlers/Requests.antt =====
-- What the handlers of server/src/fs_handlers.rs do for one request: the readers of its fields, the
-- expectation of a write, and the operations that `handle_fs` and `write_file` carry out. The mutation
-- lock makes the operations that take it run one after the other, so each is one computation.
use emacs_relay.Common.{
  ℕ, ◌<>◌, String, Bool, true, false, Option, none, some, List, [], ◌∷◌, str_eq, if◌then◌else◌,
}
use emacs_relay.Fs.{
  FilePath, IoError, Result, ok, err, M, pure, raise, lift, ◌>>=◌, ◌>>◌, map_err, result_map_err,
}
use emacs_relay.Fs.Calls.{create_new}
use emacs_relay.Fs.Names.{write_all, rename, remove_file}
use emacs_relay.Fs.Directories.{create_dir, create_dir_all, remove_dir, remove_dir_all, exists}
use emacs_relay.Fs.Files.{open_append, append_all, write_file_at, copy}
use emacs_relay.Json.{Json}
use emacs_relay.Json.Object.{object, field}
use emacs_relay.Revision.{
  Revision, RevisionRead, ExpectedRevision, missing, RevisionError, ConditionalWrite, readable,
}
use emacs_relay.Revision.Wire.{and_then, from_value, to_value}
use emacs_relay.Read.{read_with_revision, read_range}
use emacs_relay.Read.Tail.{TailRead, Known, tail_read}
use emacs_relay.Write.{conditional_write}
use emacs_relay.Framing.{expand_home}
use emacs_relay.Control.{Host, text_of}
use emacs_relay.Handlers.{Base64}

module _ {A : Type 0} where
  -- `unwrap_or`
  abbrev pub or_default : A → Option A → A
  or_default default none = default
  or_default default (some a) = a

-- `.map_err(|e| format!("{what}: {e}"))`
abbrev pub told : {A : Type 0} → String → M IoError A → M String A
told what m = map_err (λ e. what <> e.shown) m

abbrev pub refuse : String → Bool → M String (Unit {0})
refuse message true = raise message
refuse message false = pure tt

module _ (J : Json) (host : Host) (B : Base64) where
  abbrev pub u64_of : J.Value → String → Option ℕ
  u64_of req name = and_then (field J req name) J.as_u64

  abbrev pub flag_of : J.Value → String → Bool → Bool
  flag_of req name default = or_default default (and_then (field J req name) J.as_bool)

  abbrev pub path_of : J.Value → String → FilePath
  path_of req name = expand_home host.home (text_of J host req name)

  abbrev pub read_value : RevisionRead → J.Value
  read_value read =
      object J
        (("bytes_b64", J.text (B.encode read.bytes)) ∷ ("revision", to_value J read.revision) ∷ [])

  unfoldable pub read_request : FilePath → M RevisionError J.Value
  read_request path = read_with_revision path >>= λ read. pure (read_value read)

  abbrev pub range_value : ℕ → ℕ → List ℕ → J.Value
  range_value start end bytes = object J (
      ("bytes_b64", J.text (B.encode bytes))
      ∷ ("start", J.unsigned start)
      ∷ ("end", J.unsigned end)
      ∷ [])

  unfoldable pub range_request : J.Value → FilePath → M String J.Value
  range_request req path =
      let start = or_default 0 (u64_of req "start") in
      let end = or_default start (u64_of req "end") in
      map_err readable (read_range path start end >>= λ bytes. pure (range_value start end bytes))

  abbrev pub tail_value : TailRead → J.Value
  tail_value tail = object J (
      ("bytes_b64", J.text (B.encode tail.bytes))
      ∷ ("start", J.unsigned tail.start)
      ∷ ("actual_end", J.unsigned tail.actual_end)
      ∷ ("file_size", J.unsigned tail.file_size)
      ∷ ("dev", J.unsigned tail.dev)
      ∷ ("ino", J.unsigned tail.ino)
      ∷ ("truncated_or_rotated", J.boolean tail.truncated_or_rotated)
      ∷ ("more_available", J.boolean tail.more_available)
      ∷ [])

  abbrev pub known_of : J.Value → Known
  known_of req = record {
    offset = or_default 0 (u64_of req "known_offset");
    dev = u64_of req "known_dev";
    ino = u64_of req "known_ino";
  }

  unfoldable pub tail_request : J.Value → FilePath → M String J.Value
  tail_request req path = map_err readable (
      tail_read path (known_of req) (or_default 0 (u64_of req "max_bytes")) >>= λ tail.
      pure (tail_value tail))

  abbrev pub expected_of_state : String → Result String (Option ExpectedRevision)
  expected_of_state state =
      if str_eq state "missing"
      then ok (some missing)
      else if str_eq state "present"
      then err "write: expected_state present requires expected_revision"
      else err ("write: invalid expected_state: " <> state)

  abbrev pub expected_present : Result String Revision → Result String (Option ExpectedRevision)
  expected_present (ok revision) = ok (some (ExpectedRevision.present revision))
  expected_present (err e) = err ("write: invalid expected_revision: " <> e)

  abbrev pub expected_of_value : Option J.Value → Result String (Option ExpectedRevision)
  expected_of_value none = ok none
  expected_of_value (some value) = expected_present (from_value J value)

  abbrev pub expected_by : J.Value → Option String → Result String (Option ExpectedRevision)
  expected_by req (some state) = expected_of_state state
  expected_by req none = expected_of_value (field J req "expected_revision")

  unfoldable pub expected_revision_from_request : J.Value → Result String (Option ExpectedRevision)
  expected_revision_from_request req =
      expected_by req (and_then (field J req "expected_state") J.as_str)

  -- `B64.decode`
  abbrev pub decoded : String → M String (List ℕ)
  decoded encoded = lift (result_map_err (λ e. "write decode: " <> e) (B.decode encoded))

  abbrev pub write_new : FilePath → List ℕ → M String (Unit {0})
  write_new path bytes = do
    fd ← told "write(create new): " (create_new path)
    told "write(create new): " (write_all path fd bytes)

  abbrev pub write_append : FilePath → List ℕ → M String (Unit {0})
  write_append path bytes = do
    fd ← told "write(open append): " (open_append path)
    told "write(append): " (append_all path fd bytes)

  abbrev pub write_as : Bool → Bool → FilePath → List ℕ → M String (Unit {0})
  write_as append must_be_new path bytes =
      if must_be_new
      then write_new path bytes
      else if append
      then write_append path bytes
      else told "write: " (write_file_at path bytes)

  unfoldable pub write_file : FilePath → String → Bool → Bool → M String (Unit {0})
  write_file path b64 append must_be_new =
      decoded b64 >>= λ bytes. write_as append must_be_new path bytes

  -- `json!({ "ok": true })` after a write, `json!({})` after the other changes.
  abbrev pub done : M String (Unit {0}) → M String J.Value
  done m = m >>= λ _. pure (object J [])

  unfoldable pub legacy_write : J.Value → FilePath → M String J.Value
  legacy_write req path =
      write_file path (text_of J host req "bytes_b64") (flag_of req "append" false)
        (flag_of req "must_be_new" false)
      >>= λ _. pure (object J (("ok", J.boolean true) ∷ []))

  unfoldable pub mkdir_request : J.Value → FilePath → M String J.Value
  mkdir_request req path =
      let parents = flag_of req "parents" false in
      done (told "mkdir: " (if parents then create_dir_all path else create_dir path))

  unfoldable pub rmdir_request : J.Value → FilePath → M String J.Value
  rmdir_request req path =
      let recursive = flag_of req "recursive" false in
      done (told "rmdir: " (if recursive then remove_dir_all path else remove_dir path))

  unfoldable pub delete_request : FilePath → M String J.Value
  delete_request path = done (told "delete: " (remove_file path))

  -- `!ok_if_exists && Path::new(&to).exists()`: the destination is looked at only on the left's truth.
  abbrev pub taken : Bool → FilePath → M String Bool
  taken ok_if_exists to = if ok_if_exists then pure false else exists to

  unfoldable pub rename_request : J.Value → FilePath → M String J.Value
  rename_request req path =
      let to = path_of req "to" in
      taken (flag_of req "ok_if_exists" true) to
      >>= refuse ("rename: destination exists: " <> to)
      >> done (told "rename: " (rename path to))

  unfoldable pub copy_request : J.Value → FilePath → M String J.Value
  copy_request req path =
      let to = path_of req "to" in
      taken (flag_of req "ok_if_exists" true) to
      >>= refuse ("copy: destination exists: " <> to)
      >> done (told "copy: " (copy path to))

  -- A write that expects a revision.
  abbrev pub saved_value : ConditionalWrite → J.Value
  saved_value saved = object J (("revision", to_value J saved.revision) ∷ [])

  unfoldable pub expecting_write : FilePath → ExpectedRevision → List ℕ → M RevisionError J.Value
  expecting_write path expected bytes =
      conditional_write path bytes expected >>= λ saved. pure (saved_value saved)
