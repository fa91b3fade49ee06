-- ===== src/Handlers/Moves/Request.antt =====
-- The rename request of server/src/fs_handlers.rs in a calm world: the look at the destination and the call.
use emacs_relay.Common.{
  ℕ, suc, ◌≡◌, refl, ap, ◌∙◌, String, ◌<>◌, Bool, true, false, Option, none, some, [], ◌==◌,
  if◌then◌else◌,
}
use emacs_relay.Fs.{
  Metadata, is_dir, FilePath, FileSystem, renamed, IoError, World, Result, ok, err, M, ◌>>=◌, ◌>>◌,
  >>=_ok, >>=_err, map_err_ok, map_err_err,
}
use emacs_relay.Fs.Calls.{no_such_file, is_a_directory, query, settle}
use emacs_relay.Fs.Names.{move_name, rename_onto, rename}
use emacs_relay.Fs.Directories.{target_of, metadata, exists, exists_answer}
use emacs_relay.Fs.Calm.{IsCalm, Answers, Answers-query}
use emacs_relay.Json.{Json}
use emacs_relay.Json.Object.{object}
use emacs_relay.Control.{Host}
use emacs_relay.Handlers.{Base64}
use emacs_relay.Handlers.Writes.{Writes}
use emacs_relay.Handlers.Requests.{told, refuse, flag_of, path_of, done, taken, rename_request}
use emacs_relay.Write.Swap.{mutate_calm, changed_world}
use emacs_relay.Write.Swap.Refines.{Store, contents_of}
use emacs_relay.Handlers.Moves.{
  is_there, moved_store, moved_onto, moved, move_answer, contents-move_name,
}

module _ (path to : FilePath) (w : World) (calm : IsCalm w.env) where
  abbrev call : M String (Unit {0})
  call = told "rename: " (rename path to)

  stays :
      (e : IoError)
      → rename path to w ≡ (err e, record w { now = suc w.now })
      → Answers call w (err ("rename: " <> e.shown))
  stays e run = (suc w.now, map_err_err _ (rename path to) w run)

  goes :
      (fs : FileSystem) (store : Store)
      → rename path to w ≡ (ok tt, changed_world (renamed path to) fs w)
      → ((q : FilePath) → contents_of fs q ≡ store q)
      → Writes call w (ok store)
  goes fs store run same =
      (changed_world (renamed path to) fs w, map_err_ok _ (rename path to) w run, same)

  -- The call with what it finds under both names.
  runs :
      (i : ℕ) (o : Option ℕ) (r : Result IoError (Unit {0} × FileSystem))
      → w.fs.names path ≡ some i
      → w.fs.names to ≡ o
      → rename_onto (w.env w.now) w.fs path to i o ≡ r
      → rename path to w ≡ settle (renamed path to) r (record w { now = suc w.now })
  unfolding rename
  runs i o r e e' h =
      mutate_calm (renamed path to) _ w {r = r} calm
        (rw e (ap (rename_onto (w.env w.now) w.fs path to i) e' ∙ h))

  onto :
      (i : ℕ)
      → w.fs.names path ≡ some i
      → (o : Option ℕ) → w.fs.names to ≡ o
      → Writes call w (moved_onto w.fs path to i o)
  onto i e none e' =
      goes (move_name (w.env w.now) w.fs path to i) _ (runs i none _ e e' refl)
        (contents-move_name (w.env w.now) w.fs path to i)
  onto i e (some j) e' = split (j == i) (is_dir (w.fs.inodes j).metadata) refl refl
    where
      split :
          (b c : Bool)
          → (j == i) ≡ b
          → is_dir (w.fs.inodes j).metadata ≡ c
          → Writes call w (
              if b
              then ok (contents_of w.fs)
              else if c
              then err ("rename: " <> is_a_directory.shown)
              else ok (moved_store w.fs path to i))
      split true c h k = goes w.fs _ (runs i (some j) (ok (tt, w.fs)) e e' (rw h refl)) (λ q. refl)
      split false true h k =
          stays is_a_directory (runs i (some j) (err is_a_directory) e e' (rw (h, k) refl))
      split false false h k =
          goes (move_name (w.env w.now) w.fs path to i) _
            (runs i (some j) (ok (tt, move_name (w.env w.now) w.fs path to i)) e e'
              (rw (h, k) refl))
            (contents-move_name (w.env w.now) w.fs path to i)

  rename-Writes : (o : Option ℕ) → w.fs.names path ≡ o → Writes call w (moved w.fs path to o)
  unfolding rename
  rename-Writes none e =
      stays no_such_file (mutate_calm (renamed path to) _ w {r = err no_such_file} calm (rw e refl))
  rename-Writes (some i) e = onto i e (w.fs.names to) refl

-- The look at the destination.
exists-Answers :
    (to : FilePath) (w : World)
    → IsCalm w.env
    → Answers (exists {E = String} to) w (ok (is_there (target_of w.fs to)))
unfolding exists metadata query
exists-Answers to w calm =
    let (n, e) =
      Answers-query w calm
        (λ t fs. elim (target_of fs to) [ ok i ↦ ok (fs.inodes i).metadata | err e ↦ err e ]) in
    (
      n,
      ap (λ r. (ok (exists_answer r.0), r.1)) e
          ∙ ap (λ b. (ok b, record w { now = n })) (look (target_of w.fs to)),
    )
  where
    look :
        (r : Result IoError ℕ)
        → exists_answer (elim r as (λ _. Result IoError Metadata) [
          | ok i ↦ ok (w.fs.inodes i).metadata
          | err e ↦ err e
        ])
          ≡ is_there r
    look (ok i) = refl
    look (err e) = refl

module _ (J : Json) (host : Host) (B : Base64) where
  -- From `w`, `m` answers an empty object and does to the contents of the paths what the answer says, or
  -- fails and changes nothing.
  abbrev pub Moves : M String J.Value → World → Result String Store → Type 0
  Moves m w (ok store) =
      (v : World) × (m w ≡ (ok (object J []), v)) × ((q : FilePath) → contents_of v.fs q ≡ store q)
  Moves m w (err e) = Answers m w (err e)

  pub done-Moves :
      (m : M String (Unit {0})) (w : World) (r : Result String Store)
      → Writes m w r
      → Moves (done J host B m) w r
  done-Moves m w (ok store) (v, e, same) = (v, >>=_ok m _ w e, same)
  done-Moves m w (err x) (n, e) = (n, >>=_err m _ w e)

  pub later :
      (m m' : M String J.Value) (w : World) (n : ℕ)
      → m w ≡ m' (record w { now = n })
      → (r : Result String Store) → Moves m' (record w { now = n }) r
      → Moves m w r
  later m m' w n e (ok store) (v, e', same) = (v, e ∙ e', same)
  later m m' w n e (err x) (k, e') = (k, e ∙ e')

  pub taken-Answers :
      (ok_if_exists : Bool) (to : FilePath) (w : World)
      → IsCalm w.env
      → Answers
          (taken J host B ok_if_exists to)
          w
          (ok (if ok_if_exists then false else is_there (target_of w.fs to)))
  taken-Answers true to w calm = (w.now, refl)
  taken-Answers false to w calm = exists-Answers to w calm

  -- Where nobody else acts and no call fails: a rename of what is no directory moves the file to its new name,
  -- in place of what stood there, and answers an empty object; it changes nothing if both names are the
  -- same file. It is refused, and changes nothing, if the destination exists and must not, if nothing
  -- has the old name, or if the destination is a directory. A link at the destination that leads nowhere
  -- counts as nothing there.
  pub rename_request-Moves :
      (req : J.Value) (path : FilePath) (w : World)
      → IsCalm w.env
      → ((i : ℕ) → w.fs.names path ≡ some i → is_dir (w.fs.inodes i).metadata ≡ false)
      → Moves (rename_request J host B req path) w (
          move_answer
            (flag_of J host B req "ok_if_exists" true)
            path
            (path_of J host B req "to")
            w.fs)
  unfolding rename_request
  rename_request-Moves req path w calm file =
      let (n, e) =
        taken-Answers (flag_of J host B req "ok_if_exists" true) (path_of J host B req "to") w
          calm in
      go n _ e
    where
      to : FilePath
      to = path_of J host B req "to"

      look : M String Bool
      look = taken J host B (flag_of J host B req "ok_if_exists" true) to

      guard : Bool → M String (Unit {0})
      guard = refuse ("rename: destination exists: " <> to)

      go :
          (n : ℕ) (there : Bool)
          → look w ≡ (ok there, record w { now = n })
          → Moves (look >>= guard >> done J host B (told "rename: " (rename path to))) w (
              if there
              then err ("rename: destination exists: " <> to)
              else moved w.fs path to (w.fs.names path))
      go n true e = (n, >>=_err (look >>= guard) _ w (>>=_ok look guard w e))
      go n false e =
          later (look >>= guard >> done J host B (told "rename: " (rename path to)))
            (done J host B (told "rename: " (rename path to))) w n
            (>>=_ok (look >>= guard) _ w (>>=_ok look guard w e))
            (moved w.fs path to (w.fs.names path))
            (done-Moves (told "rename: " (rename path to)) (record w { now = n })
              (moved w.fs path to (w.fs.names path))
              (rename-Writes path to (record w { now = n }) calm (w.fs.names path) refl))
