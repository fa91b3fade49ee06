-- ===== src/Handlers/Copies/Request.antt =====
-- The copy request of server/src/fs_handlers.rs on a regular file, in a calm world.
use emacs_relay.Common.{ℕ, ◌≡◌, refl, String, ◌<>◌, Bool, true, false, some, if◌then◌else◌}
use emacs_relay.Fs.{
  is_file, is_dir, FilePath, FileSystem, World, Result, ok, err, M, ◌>>=◌, ◌>>◌, >>=_ok, >>=_err,
  map_err_ok,
}
use emacs_relay.Fs.Directories.{follow, target_of}
use emacs_relay.Fs.Files.{copy}
use emacs_relay.Fs.Calm.{IsCalm}
use emacs_relay.Json.{Json}
use emacs_relay.Control.{Host}
use emacs_relay.Write.Swap.{Steps}
use emacs_relay.Write.Swap.Staged.{IsNumbered}
use emacs_relay.Write.Swap.Refines.{Store}
use emacs_relay.Handlers.{Base64}
use emacs_relay.Handlers.Requests.{told, refuse, flag_of, path_of, done, taken, copy_request}
use emacs_relay.Handlers.Writes.{Writes}
use emacs_relay.Handlers.Moves.{is_there}
use emacs_relay.Handlers.Moves.Request.{Moves, later, done-Moves, taken-Answers}
use emacs_relay.Handlers.Copies.Opened.{copied, copy-Copies}

-- What a copy of a regular file does: the paths afterwards, or the refusal of a destination that is there.
abbrev pub copy_answer : Bool → FilePath → Store → FileSystem → Result String Store
copy_answer ok_if_exists to store fs =
    if (if ok_if_exists then false else is_there (target_of fs to))
    then err ("copy: destination exists: " <> to)
    else ok store

module _ (J : Json) (host : Host) (B : Base64) (req : J.Value) (path name : FilePath) (i : ℕ)
    (w : World) (calm : IsCalm w.env) (numbered : IsNumbered w.fs)
    (source : target_of w.fs path ≡ ok i) (regular : is_file (w.fs.inodes i).metadata ≡ true)
    (lands : follow 40 w.fs (path_of J host B req "to") ≡ ok name)
    (file : (j : ℕ) → w.fs.names name ≡ some j → is_dir (w.fs.inodes j).metadata ≡ false) where
  abbrev to : FilePath
  to = path_of J host B req "to"

  -- The contents after the copy.
  abbrev pub after_copy : Store
  after_copy = copied w.fs i name (w.fs.names name)

  told-Writes :
      (n : ℕ) → Writes (told "copy: " (copy path to)) (record w { now = n }) (ok after_copy)
  unfolding Steps
  told-Writes n =
      let u = record w { now = n } in
      let (a, v, e, same) =
        copy-Copies u calm numbered path to name i source regular lands (w.fs.names name) refl
          file in
      (v, map_err_ok _ (copy path to) u e, same)

  -- Where nobody else acts and no call fails, no file has a number that is yet to be given, the path leads
  -- to a regular file and the destination to a name that is no directory: a copy puts the file's
  -- bytes in the file of that name, under all of its names, or in a new one, answers an empty object,
  -- and no other path changes its content; but a file that is copied onto itself is emptied. It is
  -- refused, and changes nothing, if the destination exists and must not.
  pub copy_request-Moves :
      Moves J host B
        (copy_request J host B req path)
        w
        (copy_answer (flag_of J host B req "ok_if_exists" true) to after_copy w.fs)
  unfolding copy_request
  copy_request-Moves =
      let (n, e) = taken-Answers J host B (flag_of J host B req "ok_if_exists" true) to w calm in
      go n _ e
    where
      look : M String Bool
      look = taken J host B (flag_of J host B req "ok_if_exists" true) to

      guard : Bool → M String (Unit {0})
      guard = refuse ("copy: destination exists: " <> to)

      go :
          (n : ℕ) (there : Bool)
          → look w ≡ (ok there, record w { now = n })
          → Moves J host B
              (look >>= guard >> done J host B (told "copy: " (copy path to)))
              w
              (if there then err ("copy: destination exists: " <> to) else ok after_copy)
      go n true e = (n, >>=_err (look >>= guard) _ w (>>=_ok look guard w e))
      go n false e =
          later J host B (look >>= guard >> done J host B (told "copy: " (copy path to)))
            (done J host B (told "copy: " (copy path to))) w n
            (>>=_ok (look >>= guard) _ w (>>=_ok look guard w e)) (ok after_copy)
            (done-Moves J host B (told "copy: " (copy path to)) (record w { now = n })
              (ok after_copy) (told-Writes n))
