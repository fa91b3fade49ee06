-- ===== src/Handlers/Guarded.antt =====
-- `handle_fs` of server/src/fs_handlers.rs takes the mutation lock for every operation that changes
-- anything.
use emacs_relay.Common.{||_false, on_both, on_else, ℕ, ◌≡◌, String, Bool, false, ℤ, str_eq}
use emacs_relay.Fs.{FilePath, World, M}
use emacs_relay.Fs.Calls.{step}
use emacs_relay.Fs.Keeps.{
  Relation, IsPreorder, Keeps, Keeps-apply, Keeps-pure, Keeps-raise, Keeps->>=,
}
use emacs_relay.Json.{Json}
use emacs_relay.Revision.{RevisionError}
use emacs_relay.Read.ReadOnly.{Untouched, Untouched-IsPreorder, Untouched-step}
use emacs_relay.Framing.{Channel}
use emacs_relay.Control.{Host, text_of}
use emacs_relay.Handlers.{Base64}
use emacs_relay.Handlers.Attributes.{}
use emacs_relay.Handlers.Listing.{}
use emacs_relay.Handlers.Dispatch.{mutates, run_fs, replied, replied_revision, handle_op, handle_fs}
use emacs_relay.Handlers.Looks.{
  Leaves, Keeps-stat_value, Keeps-resolve, readdir-Leaves, Keeps-read_request, Keeps-range_request,
  Keeps-tail_request,
}

-- An operation that is none of the changes.
record IsUnlocked (op : String) : Type 0 where
  write : str_eq op "write" ≡ false
  mkdir : str_eq op "mkdir" ≡ false
  rmdir : str_eq op "rmdir" ≡ false
  delete : str_eq op "delete" ≡ false
  rename : str_eq op "rename" ≡ false
  copy : str_eq op "copy" ≡ false

unlocked : (op : String) → mutates op ≡ false → IsUnlocked op
unfolding mutates
unlocked op h =
    let (write, h1) = ||_false h in
    let (mkdir, h2) = ||_false h1 in
    let (rmdir, h3) = ||_false h2 in
    let (delete, h4) = ||_false h3 in
    let (rename, copy) = ||_false h4 in
    record {
      write = write;
      mkdir = mkdir;
      rmdir = rmdir;
      delete = delete;
      rename = rename;
      copy = copy;
    }

module _ (R : Relation) (P : IsPreorder R) (others : (w : World) → R w (step w)) (J : Json)
    (host : Host) (B : Base64) (exec : J.Value → M String J.Value)
    (runs : (req : J.Value) → Keeps R (exec req)) (listening : ℕ → Bool) where
  reply-Leaves :
      (id : ℤ) (m : M String J.Value)
      → Keeps R m
      → Leaves J R (replied J host B exec listening id m)
  unfolding Leaves replied replied_revision
  reply-Leaves id m h tx = Keeps-apply R m h

  reply_revision-Leaves :
      (id : ℤ) (m : M RevisionError J.Value)
      → Keeps R m
      → Leaves J R (replied_revision J host B exec listening id m)
  unfolding Leaves replied replied_revision
  reply_revision-Leaves id m h tx = Keeps-apply R m h

  Keeps-run_fs :
      (op : String) (req : J.Value) (path : FilePath)
      → IsUnlocked op
      → Keeps R (run_fs J host B exec listening op req path)
  unfolding run_fs
  Keeps-run_fs op req path n =
      let Q = Keeps {E = String} {A = J.Value} R in
      on_both Q _ _ _
        (Keeps->>= R P _ _ (Keeps-stat_value R P others J String path)
          λ attrs. Keeps-pure R P String _)
        (on_both Q _ _ _ (Keeps-resolve R P others J path) (
          on_both Q _ _ _ (runs req) (
            on_else Q _ _ _ n.write (
              on_else Q _ _ _ n.mkdir (
                on_else Q _ _ _ n.rmdir (
                  on_else Q _ _ _ n.delete (
                    on_else Q _ _ _ n.rename
                      (on_else Q _ _ _ n.copy (Keeps-raise R P J.Value _)))))))))

  handle_op-Leaves :
      (op : String) (id : ℤ) (path : FilePath) (req : J.Value)
      → IsUnlocked op
      → Leaves J R (handle_op J host B exec listening op id path req)
  unfolding handle_op
  handle_op-Leaves op id path req n =
      let Q = Leaves J R in
      on_both Q _ _ _ (readdir-Leaves R P others J listening id path) (
        on_both Q _ _ _ (reply_revision-Leaves id _ (Keeps-read_request R P others J host B path)) (
          on_both Q _ _ _ (reply-Leaves id _ (Keeps-range_request R P others J host B req path)) (
            on_both Q _ _ _ (reply-Leaves id _ (Keeps-tail_request R P others J host B req path))
              (on_else Q _ _ _ n.write (reply-Leaves id _ (Keeps-run_fs op req path n))))))

  handle_fs-Leaves :
      (req : J.Value)
      → mutates (text_of J host req "op") ≡ false
      → Leaves J R (handle_fs J host B exec listening req)
  unfolding handle_fs
  handle_fs-Leaves req h = handle_op-Leaves _ _ _ req (unlocked _ h)

module _ (J : Json) (host : Host) (B : Base64) (exec : J.Value → M String J.Value)
    (listening : ℕ → Bool) where
  -- A request whose operation does not take the mutation lock makes no change of its own to any file
  -- and leaves the server's state alone, whatever others do meanwhile, if `exec` itself does so.
  pub handle_fs-Untouched :
      (runs : (req : J.Value) → Keeps Untouched (exec req)) (req : J.Value) (tx : Channel J)
      (w : World)
      → mutates (text_of J host req "op") ≡ false
      → Untouched w (handle_fs J host B exec listening req tx w).1
  unfolding Leaves
  handle_fs-Untouched runs req tx w h =
      handle_fs-Leaves Untouched Untouched-IsPreorder Untouched-step J host B exec runs listening
        req h tx w
