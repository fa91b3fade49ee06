-- ===== src/Handlers/Saved.antt =====
-- A `write` request that expects a revision, from the request in server/src/fs_handlers.rs to the files and
-- the reply, in a calm world.
use emacs_relay.Common.{
  ℕ, ◌≡◌, refl, ap, ◌∙◌, String, Bool, true, false, none, some, List, ℤ, pos, str_eq,
}
use emacs_relay.Fs.{FilePath, World, Result, ok, err, M, pure, >>=_ok, >>=_err}
use emacs_relay.Fs.Calm.{IsCalm}
use emacs_relay.Json.{Json}
use emacs_relay.Json.Object.{field}
use emacs_relay.Revision.{ExpectedRevision, ConditionalWrite, RevisionError}
use emacs_relay.Revision.Wire.{and_then}
use emacs_relay.Write.{temp_path, directory_of, conditional_write}
use emacs_relay.Write.Calm.Refused.{refusal}
use emacs_relay.Write.Swap.Staged.{IsNumbered}
use emacs_relay.Write.Swap.Refines.{contents_of, swap, Agrees, conditional_write-Refines}
use emacs_relay.Framing.{Channel, finish_revision}
use emacs_relay.Control.{Host, text_of}
use emacs_relay.Handlers.{Base64}
use emacs_relay.Handlers.Requests.{
  or_default, flag_of, path_of, saved_value, expecting_write, expected_revision_from_request,
}
use emacs_relay.Handlers.Dispatch.{
  plain_write, write_decoded, write_encoded, write_request, replied_revision, handle_op, handle_fs,
}

module _ (J : Json) (host : Host) (B : Base64) (exec : J.Value → M String J.Value)
    (listening : ℕ → Bool) where
  -- What the handler passes on: the answer of the write as a value.
  abbrev pub answer_value : Result RevisionError ConditionalWrite → Result RevisionError J.Value
  answer_value (ok saved) = ok (saved_value J host B saved)
  answer_value (err e) = err e

  pub expecting_write_lem :
      (path : FilePath) (expected : ExpectedRevision) (bytes : List ℕ) (w : World)
      (r : Result RevisionError ConditionalWrite) (v : World)
      → conditional_write path bytes expected w ≡ (r, v)
      → expecting_write J host B path expected bytes w ≡ (answer_value r, v)
  unfolding expecting_write
  expecting_write_lem path expected bytes w (ok saved) v e =
      >>=_ok (conditional_write path bytes expected) (λ s. pure (saved_value J host B s)) w e
  expecting_write_lem path expected bytes w (err x) v e =
      >>=_err (conditional_write path bytes expected) (λ s. pure (saved_value J host B s)) w e

  abbrev pub id_of : J.Value → ℤ
  id_of req = or_default (pos 0) (and_then (field J req "id") J.as_i64)

  -- A request that writes bytes where a revision is expected.
  pub record IsWrite (req : J.Value) (path : FilePath) (expected : ExpectedRevision)
      (bytes : List ℕ) : Type 0 where
    pub encoded : String
    pub op : text_of J host req "op" ≡ "write"
    pub at_path : path_of J host B req "path" ≡ path
    pub appends : flag_of J host B req "append" false ≡ false
    pub creates : flag_of J host B req "must_be_new" false ≡ false
    pub expects : expected_revision_from_request J host B req ≡ ok (some expected)
    pub sends : and_then (field J req "bytes_b64") J.as_str ≡ some encoded
    pub decodes : B.decode encoded ≡ ok bytes

  is_plain :
      (req : J.Value) (path : FilePath) (expected : ExpectedRevision) (bytes : List ℕ)
      → IsWrite req path expected bytes
      → plain_write J host B exec listening req ≡ true
  is_plain req path expected bytes h = rw (h.appends, h.creates) refl

  pub handle_fs_lem :
      (req : J.Value) (path : FilePath) (expected : ExpectedRevision) (bytes : List ℕ)
      → IsWrite req path expected bytes
      → handle_fs J host B exec listening req
        ≡ replied_revision J host B exec listening
            (id_of req)
            (expecting_write J host B path expected bytes)
  unfolding handle_fs handle_op
  handle_fs_lem req path expected bytes h =
      ap (λ op. handle_op J host B exec listening op (id_of req) (path_of J host B req "path") req)
        h.op
      ∙ ap
          (λ p.
            write_request J host B exec listening (id_of req) p req
              (plain_write J host B exec listening req)
              (expected_revision_from_request J host B req))
          h.at_path
      ∙ ap
          (λ b.
            write_request J host B exec listening (id_of req) path req b
              (expected_revision_from_request J host B req))
          (is_plain req path expected bytes h)
      ∙ ap (write_request J host B exec listening (id_of req) path req true) h.expects
      ∙ ap (write_encoded J host B exec listening (id_of req) path expected) h.sends
      ∙ ap (write_decoded J host B exec listening (id_of req) path expected) h.decodes

  -- Where nobody else acts and no call fails, no temporary file is pending, the next temporary name is free
  -- and not the path itself, and no file has a number that is yet to be given: a write request that
  -- expects a revision, and neither appends nor must make a new file, is a compare-and-swap of the bytes
  -- that it decodes to. The reply under the request's id tells its outcome: the revision that a read of
  -- the path would then give, or the error that names what spoke against it.
  pub handle_fs-Refines :
      (req : J.Value) (path : FilePath) (expected : ExpectedRevision) (bytes : List ℕ)
      (tx : Channel J) (w : World)
      (apart : str_eq path (temp_path (directory_of path) w.pid w.serial) ≡ false)
      (free : w.fs.names (temp_path (directory_of path) w.pid w.serial) ≡ none)
      (numbered : IsNumbered w.fs) (calm : IsCalm w.env)
      → w.pending ≡ none
      → IsWrite req path expected bytes
      → let allowed = refusal bytes expected w.fs (w.fs.names path) in
        (r : Result RevisionError ConditionalWrite) × (v : World) × (handle_fs J host B exec
            listening req tx w
          ≡ (finish_revision J tx (id_of req) (answer_value r), v))
        × Agrees v.fs path bytes r allowed
        × ((q : FilePath) → contents_of v.fs q ≡ swap allowed path bytes (contents_of w.fs) q)
  unfolding replied_revision
  handle_fs-Refines req path expected bytes tx w apart free numbered calm clean h =
      let (r, v, e, agrees, same) =
        conditional_write-Refines w path bytes expected apart free numbered calm clean in
      (
        r,
        v,
        ap (λ f. f tx w) (handle_fs_lem req path expected bytes h)
            ∙ ap (λ p. (finish_revision J tx (id_of req) p.0, p.1))
                (expecting_write_lem path expected bytes w r v e),
        agrees,
        same,
      )
