-- ===== src/Handlers/Writes/File.antt =====
-- All of `write_file` of server/src/fs_handlers.rs in a calm world.
use emacs_relay.Common.{
  ℕ, suc, ◌≡◌, refl, ap, ◌∙◌, String, ◌<>◌, Bool, true, false, Option, none, some, List, ◌++◌,
}
use emacs_relay.Fs.{
  FilePath, World, Result, ok, err, M, ◌>>=◌, >>=_ok, >>=_err, map_err_ok, map_err_err,
  result_map_err, created, opened, emptied,
}
use emacs_relay.Fs.Calls.{file_exists, create_new}
use emacs_relay.Fs.Calm.{IsCalm}
use emacs_relay.Handlers.Stores.{with_file}
use emacs_relay.Json.{Json}
use emacs_relay.Control.{Host}
use emacs_relay.Fs.Calls.{store}
use emacs_relay.Write.Swap.{mutate_calm}
use emacs_relay.Write.Swap.Staged.{IsNumbered}
use emacs_relay.Write.Swap.Refines.{Store}
use emacs_relay.Fs.Directories.{follow}
use emacs_relay.Fs.Files.{truncate_inode, open_truncate, open_append, append_all, write_file_at}
use emacs_relay.Fs.Names.{write_all}
use emacs_relay.Handlers.Requests.{told, write_new, write_append, write_as, decoded, write_file}
use emacs_relay.Handlers.{Base64}
use emacs_relay.Handlers.Writes.{placed_at, placed_new, write_answer, Writes}
use emacs_relay.Handlers.Writes.Opening.{map_err->>=, chain-Writes}
use emacs_relay.Handlers.Writes.Ending.{
  blank, append_made, append_found, overwrite_made, overwrite_found,
}

same_run :
    (w : World) (m n : M String (Unit {0}))
    → m w ≡ n w
    → (r : Result String Store) → Writes n w r
    → Writes m w r
same_run w m n e (ok store) (v, h, same) = (v, e ∙ h, same)
same_run w m n e (err x) (k, h) = (k, e ∙ h)

module _ (J : Json) (host : Host) (B : Base64) (w : World) (calm : IsCalm w.env)
    (numbered : IsNumbered w.fs) where
  write_append-Writes :
      (path : FilePath) (bytes : List ℕ)
      → Writes
          (write_append J host B path bytes)
          w
          (placed_at "write(open append): " (λ old. old ++ bytes) w.fs (follow 40 w.fs path))
  unfolding open_append
  write_append-Writes path bytes =
      chain-Writes w calm "write(open append): " (λ old. old ++ bytes) (λ t fs i. fs) (opened path)
        path (λ fd. told "write(append): " (append_all path fd bytes))
        (append_made w calm numbered path bytes) (append_found w calm numbered path bytes)

  -- Over what was there, or in a new file.
  overwrite-Writes :
      (path : FilePath) (bytes : List ℕ)
      → Writes
          (told "write: " (write_file_at path bytes))
          w
          (placed_at "write: " (λ old. bytes) w.fs (follow 40 w.fs path))
  unfolding write_file_at open_truncate
  overwrite-Writes path bytes =
      same_run w (told "write: " (write_file_at path bytes))
        (told "write: " (open_truncate path) >>= λ fd. told "write: " (write_all path fd bytes))
        (map_err->>= (λ e. "write: " <> e.shown) (open_truncate path)
          (λ fd. write_all path fd bytes) w)
        (placed_at "write: " (λ old. bytes) w.fs (follow 40 w.fs path))
        (chain-Writes w calm "write: " (λ old. bytes) truncate_inode (emptied path) path
          (λ fd. told "write: " (write_all path fd bytes))
          (overwrite_made w calm numbered "write: " (emptied path) path bytes)
          (overwrite_found w calm numbered path bytes))

  -- Only where nothing has the name.
  write_new-Writes :
      (path : FilePath) (bytes : List ℕ) (o : Option ℕ)
      → w.fs.names path ≡ o
      → Writes (write_new J host B path bytes) w (placed_new bytes w.fs path o)
  unfolding create_new
  write_new-Writes path bytes none e =
      let run =
        mutate_calm (created path) _ w {r = ok (w.fs.next, with_file w.fs path (blank w))} calm
          (rw e refl) in
      let (v, e', same) =
        overwrite_made w calm numbered "write(create new): " (created path) path bytes path in
      (
        v,
        >>=_ok (told "write(create new): " (create_new path))
              (λ fd. told "write(create new): " (write_all path fd bytes)) w
              (map_err_ok _ (create_new path) w run)
            ∙ e',
        same,
      )
  write_new-Writes path bytes (some i) e =
      let run = mutate_calm (created path) _ w {r = err file_exists} calm (rw e refl) in
      (
        suc w.now,
        >>=_err (told "write(create new): " (create_new path))
            (λ fd. told "write(create new): " (write_all path fd bytes)) w
            (map_err_err _ (create_new path) w run),
      )

  write_as-Writes :
      (append must_be_new : Bool) (path : FilePath) (bytes : List ℕ)
      → Writes
          (write_as J host B append must_be_new path bytes)
          w
          (write_answer append must_be_new path bytes w.fs)
  write_as-Writes append true path bytes = write_new-Writes path bytes (w.fs.names path) refl
  write_as-Writes true false path bytes = write_append-Writes path bytes
  write_as-Writes false false path bytes = overwrite-Writes path bytes

  -- The bytes that the request's text decodes to.
  abbrev pub decoded_answer : Result String (List ℕ) → Bool → Bool → FilePath → Result String Store
  decoded_answer (ok bytes) append must_be_new path =
      write_answer append must_be_new path bytes w.fs
  decoded_answer (err e) append must_be_new path = err ("write decode: " <> e)

  -- Where nobody else acts and no call fails, and no file has a number that is yet to be given: write_file
  -- does to the contents of the paths exactly what the request asks for. A write that must make a new
  -- file makes it with the bytes, or is refused where the path has a name; one that appends puts the
  -- bytes behind those of the file, and any other one in their place, through links and under all names
  -- of the file, or in a new file where there is none. No other path changes its content. It is refused,
  -- and changes nothing, where the text does not decode, where there are too many links, or where a directory is.
  pub write_file-Writes :
      (path : FilePath) (b64 : String) (append must_be_new : Bool)
      → Writes
          (write_file J host B path b64 append must_be_new)
          w
          (decoded_answer (B.decode b64) append must_be_new path)
  unfolding write_file
  write_file-Writes path b64 append must_be_new = go (B.decode b64) refl
    where
      go :
          (r : Result String (List ℕ))
          → B.decode b64 ≡ r
          → Writes
              (decoded J host B b64 >>= λ bytes. write_as J host B append must_be_new path bytes)
              w
              (decoded_answer r append must_be_new path)
      go (ok bytes) e =
          same_run w
            (decoded J host B b64 >>= λ bytes. write_as J host B append must_be_new path bytes)
            (write_as J host B append must_be_new path bytes)
            (>>=_ok (decoded J host B b64) _ w
              (ap (λ r. (result_map_err (λ e. "write decode: " <> e) r, w)) e))
            (write_answer append must_be_new path bytes w.fs)
            (write_as-Writes append must_be_new path bytes)
      go (err x) e = (
        w.now,
        >>=_err (decoded J host B b64) _ w
            (ap (λ r. (result_map_err (λ e. "write decode: " <> e) r, w)) e),
      )
