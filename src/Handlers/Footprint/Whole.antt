-- ===== src/Handlers/Footprint/Whole.antt =====
-- What a whole request to `handle_fs` of server/src/fs_handlers.rs may change, whatever fails and whatever
-- others do.
use emacs_relay.Common.{
  on_test, ℕ, ◌≡◌, refl, sym, subst, ◌⊎◌, inl, inr, String, Bool, true, false, Option, none, some,
  List, [], ◌∷◌, ◌++◌, All, str_eq, ℤ,
}
use emacs_relay.Fs.{FilePath, Effect, World, Result, ok, err, M, pure, raise, ◌>>=◌, continue}
use emacs_relay.Fs.Keeps.{Keeps, Keeps-apply, Keeps-raise}
use emacs_relay.Json.{Json}
use emacs_relay.Json.Object.{field}
use emacs_relay.Revision.{ExpectedRevision, ConditionalWrite, RevisionError}
use emacs_relay.Revision.Wire.{and_then}
use emacs_relay.Write.{conditional_write}
use emacs_relay.Write.Effects.{Allowed}
use emacs_relay.Write.Effects.Log.{conditional_write-effects}
use emacs_relay.Framing.{Channel}
use emacs_relay.Control.{Host, text_of}
use emacs_relay.Handlers.{Base64}
use emacs_relay.Handlers.Requests.{
  path_of, expecting_write, saved_value, expected_revision_from_request,
}
use emacs_relay.Handlers.Listing.{readdir_stream}
use emacs_relay.Handlers.Dispatch.{
  run_fs, replied, replied_revision, write_decoded, write_encoded, plain_write, write_request,
  handle_op, handle_fs,
}
use emacs_relay.Handlers.Looks.{
  Leaves, readdir-Leaves, Keeps-read_request, Keeps-range_request, Keeps-tail_request,
}
use emacs_relay.Handlers.Footprint.{Touches, Grew, Grew-IsPreorder, Grew-step}
use emacs_relay.Handlers.Footprint.Asked.{
  IsSpecial, Expects, ExpectsNothing, parsed-Expects, parsed-ExpectsNothing, overwrites, special,
}
use emacs_relay.Handlers.Footprint.Requests.{}
use emacs_relay.Handlers.Footprint.Operations.{is, is_not, Keeps-run_fs}

-- What a handler logs from `w`, whatever it finds in the channel.
unfoldable Logs :
    (J : Json) → (Effect → Type 0) → World → (Channel J → World → Channel J × World) → Type 0
Logs J P w f = (tx : Channel J) → Grew P w (f tx w).1

-- The effects of a request. A write that is to overwrite what it expects has those of a conditional write
-- with that expectation; any other request has those of its operation.
pub data MayChange (J : Json) (pid : ℕ) (req : J.Value) (op : String) (path to : FilePath)
    : Effect → Type 0 where
  plainly :
      {e : Effect}
      → (op ≡ "write" → ExpectsNothing J req ⊎ IsSpecial J req)
      → Touches op path to e
      → MayChange J pid req op path to e
  as_expected :
      {e : Effect} (expected : ExpectedRevision)
      → op ≡ "write"
      → Expects J req expected
      → ¬ IsSpecial J req
      → Allowed pid path expected e
      → MayChange J pid req op path to e

module _ (J : Json) (host : Host) (B : Base64) (exec : J.Value → M String J.Value)
    (listening : ℕ → Bool) (w : World) (clean : w.pending ≡ none) (op : String) (req : J.Value)
    (path : FilePath)
    (runs : (r : J.Value)
      → Keeps (Grew (MayChange J w.pid req op path (path_of J host B req "to"))) (exec r)) where
  abbrev P : Effect → Type 0
  P = MayChange J w.pid req op path (path_of J host B req "to")

  replied-Logs :
      (id : ℤ) (m : M String J.Value)
      → Keeps (Grew P) m
      → Logs J P w (replied J host B exec listening id m)
  unfolding Logs replied
  replied-Logs id m h tx = Keeps-apply (Grew P) m h w

  replied_revision-Logs :
      (id : ℤ) (m : M RevisionError J.Value)
      → Grew P w (m w).1
      → Logs J P w (replied_revision J host B exec listening id m)
  unfolding Logs replied_revision
  replied_revision-Logs id m h tx = h

  refused : (id : ℤ) (e : String) → Logs J P w (replied J host B exec listening id (raise e))
  refused id e = replied-Logs id (raise e) (Keeps-raise (Grew P) (Grew-IsPreorder P) J.Value e)

  run_fs-Logs :
      (id : ℤ) (name : String)
      → name ≡ op
      → (op ≡ "write" → ExpectsNothing J req ⊎ IsSpecial J req)
      → Logs J P w
          (replied J host B exec listening id (run_fs J host B exec listening name req path))
  run_fs-Logs id name same asked = replied-Logs id (run_fs J host B exec listening name req path) (
      Keeps-run_fs J host B exec listening P runs name req path
        λ e t. plainly asked (subst (λ o. Touches o path (path_of J host B req "to") e) same t))

  expecting-Logs :
      (id : ℤ) (expected : ExpectedRevision) (bytes : List ℕ)
      → op ≡ "write"
      → Expects J req expected
      → ¬ IsSpecial J req
      → Logs J P w (
          replied_revision J host B exec listening id
            (expecting_write J host B path expected bytes))
  unfolding expecting_write ◌>>=◌
  expecting-Logs id expected bytes is_write asked over =
      replied_revision-Logs id (expecting_write J host B path expected bytes) (
        go (conditional_write path bytes expected w).0 (conditional_write path bytes expected w).1
          (conditional_write-effects path bytes expected w clean).1)
    where
      widen : (new : List Effect) → All (Allowed w.pid path expected) new → All P new
      widen [] h = tt
      widen (e ∷ new) h = (as_expected expected is_write asked over h.0, widen new h.1)

      go :
          (r : Result RevisionError ConditionalWrite) (v : World)
          → (new : List Effect) × (v.log ≡ new ++ w.log) × All (Allowed w.pid path expected) new
          → Grew P w (continue r (λ saved. pure (saved_value J host B saved)) v).1
      go (ok saved) v (new, log, h) = (new, log, widen new h)
      go (err e) v (new, log, h) = (new, log, widen new h)

  write_request-Logs :
      (id : ℤ) (plain : Bool)
      → plain_write J host B exec listening req ≡ plain
      → (r : Result String (Option ExpectedRevision))
      → expected_revision_from_request J host B req ≡ r
      → op ≡ "write"
      → Logs J P w (write_request J host B exec listening id path req plain r)
  write_request-Logs id plain p (err e) q is_write = refused id e
  write_request-Logs id plain p (ok none) q is_write =
      run_fs-Logs id "write" (sym is_write) λ _. inl (parsed-ExpectsNothing J req host B q)
  write_request-Logs id false p (ok (some expected)) q is_write =
      run_fs-Logs id "write" (sym is_write) λ _. inr (special J req host B exec listening p)
  write_request-Logs id true p (ok (some expected)) q is_write =
      encoded (and_then (field J req "bytes_b64") J.as_str)
    where
      decoded :
          (r : Result String (List ℕ))
          → Logs J P w (write_decoded J host B exec listening id path expected r)
      decoded (ok bytes) =
          expecting-Logs id expected bytes is_write (parsed-Expects J req host B q)
            (overwrites J req host B exec listening p)
      decoded (err e) = refused id _

      encoded :
          (o : Option String)
          → Logs J P w (write_encoded J host B exec listening id path expected o)
      encoded (some text) = decoded (B.decode text)
      encoded none = refused id _

  readdir-Logs : (id : ℤ) → Logs J P w (readdir_stream J listening id path)
  unfolding Logs Leaves
  readdir-Logs id tx =
      readdir-Leaves (Grew P) (Grew-IsPreorder P) (Grew-step P) J listening id path tx w

  handle_op-Logs : (id : ℤ) → Logs J P w (handle_op J host B exec listening op id path req)
  unfolding handle_op
  handle_op-Logs id =
      let Q = Logs J P w in
      let G = Grew P in
      let O = Grew-IsPreorder P in
      on_test Q (str_eq op "readdir") _ _ (λ _. readdir-Logs id)
        λ _.
          on_test Q (str_eq op "read") _ _
            (λ _.
              replied_revision-Logs id _
                (Keeps-apply G _ (Keeps-read_request G O (Grew-step P) J host B path) w))
            λ _.
              on_test Q (str_eq op "read_range") _ _
                (λ _. replied-Logs id _ (Keeps-range_request G O (Grew-step P) J host B req path))
                λ _.
                  on_test Q (str_eq op "tail_read") _ _
                    (λ _.
                      replied-Logs id _ (Keeps-tail_request G O (Grew-step P) J host B req path))
                    λ _.
                      on_test Q (str_eq op "write") _ _
                        (λ h.
                          write_request-Logs id (plain_write J host B exec listening req) refl
                            (expected_revision_from_request J host B req) refl (is op "write" h))
                        λ other.
                          run_fs-Logs id op refl (λ write. absurd (is_not op "write" other write))

-- Whatever fails and whatever others do meanwhile: a write request that names what it expects to find, and
-- neither appends nor must make a new file, makes no change but those of its own temporary files and
-- the publication of one of them over the path, by a rename if it expects a revision and by a link if
-- it expects nothing there. Every change of any other request is one of those of its operation, of
-- the path that it names or, for a rename and a copy, of the destination that it names; a mkdir makes
-- the path and directories above it at most. This is so if no temporary file is pending before, and
-- if exec itself changes nothing else.
pub handle_fs-MayChange :
    (J : Json) (host : Host) (B : Base64) (exec : J.Value → M String J.Value) (listening : ℕ → Bool)
    (req : J.Value) (tx : Channel J) (w : World)
    → ((r : J.Value)
        → Keeps
            (Grew (
              MayChange J w.pid req
                (text_of J host req "op")
                (path_of J host B req "path")
                (path_of J host B req "to")))
            (exec r))
    → w.pending ≡ none
    → (new : List Effect) × ((handle_fs J host B exec listening req tx w).1.log ≡ new ++ w.log)
      × All
          (MayChange J w.pid req
            (text_of J host req "op")
            (path_of J host B req "path")
            (path_of J host B req "to"))
          new
unfolding handle_fs Logs
handle_fs-MayChange J host B exec listening req tx w runs clean =
    handle_op-Logs J host B exec listening w clean (text_of J host req "op") req
      (path_of J host B req "path") runs _ tx
