-- ===== src/Handlers/Writes/Opening.antt =====
-- The first call of `write_file` of server/src/fs_handlers.rs, which opens the file, in a calm world.
use emacs_relay.Common.{
  ℕ, suc, ◌≡◌, refl, ap, ◌∙◌, String, ◌<>◌, Bool, true, false, Option, none, some, List, [],
  if◌then◌else◌,
}
use emacs_relay.Fs.{
  is_dir, FilePath, FileSystem, Tick, Effect, IoError, World, Result, ok, err, M, ◌>>=◌, >>=_ok,
  >>=_err, continue, map_err, map_err_ok, map_err_err, result_map_err,
}
use emacs_relay.Fs.Calls.{is_a_directory, mutate}
use emacs_relay.Fs.Calm.{IsCalm, Answers}
use emacs_relay.Handlers.Stores.{created_store, rewritten_store}
use emacs_relay.Fs.Calls.{store}
use emacs_relay.Write.Swap.{mutate_calm, changed_world}
use emacs_relay.Write.Swap.Refines.{Store}
use emacs_relay.Fs.Directories.{follow, followed, new_inode}
use emacs_relay.Fs.Files.{open_for}
use emacs_relay.Handlers.Requests.{told}
use emacs_relay.Handlers.Writes.{placed, placed_at, Writes, Ends}

-- The error of a chain is that of the step that failed.
pub map_err->>= :
    {E F A B : Type 0} (f : E → F) (m : M E A) (k : A → M E B) (w : World)
    → map_err f (m >>= k) w ≡ (map_err f m >>= λ a. map_err f (k a)) w
unfolding map_err ◌>>=◌
map_err->>= {E} {F} {A} {B} f m k w = go (m w).0 (m w).1
  where
    go :
        (r : Result E A) (v : World)
        → (result_map_err f (continue r k v).0, (continue r k v).1)
          ≡ continue (result_map_err f r) (λ a. map_err f (k a)) v
    go (ok a) v = refl
    go (err e) v = refl

module _ (w : World) (calm : IsCalm w.env) where
  module _ (what : String) (content : List ℕ → List ℕ)
      (prepare : Tick → FileSystem → ℕ → FileSystem) (effect : Effect) (path : FilePath)
      (finish : ℕ → M String (Unit {0}))
      (made : (name : FilePath)
        → Ends w
            (changed_world effect (new_inode (w.env w.now) w.fs name 0o100000) w)
            finish
            w.fs.next
            (created_store w.fs name (content [])))
      (found : (i : ℕ)
        → Ends w
            (changed_world effect (prepare (w.env w.now) w.fs i) w)
            finish
            i
            (rewritten_store w.fs i (content (w.fs.inodes i).bytes))) where
    abbrev opening : Tick → FileSystem → Result IoError (ℕ × FileSystem)
    opening t fs = followed fs (open_for prepare t fs) path

    abbrev chain : M String (Unit {0})
    chain = told what (mutate effect opening) >>= finish

    behind :
        (r : Result IoError FilePath)
        → follow 40 w.fs path ≡ r
        → opening (w.env w.now) w.fs ≡ elim r as (λ _. Result IoError (ℕ × FileSystem)) [
          | ok name ↦ open_for prepare (w.env w.now) w.fs name
          | err e ↦ err e
        ]
    behind r h =
        ap
          (λ r. elim r as (λ _. Result IoError (ℕ × FileSystem)) [
            | ok name ↦ open_for prepare (w.env w.now) w.fs name
            | err e ↦ err e
          ])
          h

    opens :
        (name : FilePath) (o : Option ℕ)
        → w.fs.names name ≡ o
        → open_for prepare (w.env w.now) w.fs name
          ≡ elim o as (λ _. Result IoError (ℕ × FileSystem)) [
            | none ↦ ok (w.fs.next, new_inode (w.env w.now) w.fs name 0o100000)
            | some i ↦
                if is_dir (w.fs.inodes i).metadata
                then err is_a_directory
                else ok (i, prepare (w.env w.now) w.fs i)
          ]
    opens name o e =
        ap
          (λ o. elim o as (λ _. Result IoError (ℕ × FileSystem)) [
            | none ↦ ok (w.fs.next, new_inode (w.env w.now) w.fs name 0o100000)
            | some i ↦
                if is_dir (w.fs.inodes i).metadata
                then err is_a_directory
                else ok (i, prepare (w.env w.now) w.fs i)
          ])
          e

    failed :
        (e : IoError) → opening (w.env w.now) w.fs ≡ err e → Answers chain w (err (what <> e.shown))
    failed e h =
        let run = mutate_calm effect opening w calm h in
        (suc w.now, >>=_err _ finish w (map_err_err _ (mutate effect opening) w run))

    went_on :
        (fd : ℕ) (fs : FileSystem) (store : Store)
        → opening (w.env w.now) w.fs ≡ ok (fd, fs)
        → Ends w (changed_world effect fs w) finish fd store
        → Writes chain w (ok store)
    went_on fd fs store h (v, e, same) =
        let run = mutate_calm effect opening w calm h in
        (v, >>=_ok _ finish w (map_err_ok _ (mutate effect opening) w run) ∙ e, same)

    placed_lem :
        (name : FilePath)
        → follow 40 w.fs path ≡ ok name
        → (o : Option ℕ) → w.fs.names name ≡ o
        → Writes chain w (placed what content w.fs name o)
    placed_lem name h none e = went_on _ _ _ (behind (ok name) h ∙ opens name none e) (made name)
    placed_lem name h (some i) e = typed (is_dir (w.fs.inodes i).metadata) refl
      where
        typed :
            (b : Bool)
            → is_dir (w.fs.inodes i).metadata ≡ b
            → Writes chain w (
                if b
                then err (what <> is_a_directory.shown)
                else ok (rewritten_store w.fs i (content (w.fs.inodes i).bytes)))
        typed true d =
            failed is_a_directory (behind (ok name) h ∙ (opens name (some i) e ∙ rw d refl))
        typed false d =
            went_on i _ _ (behind (ok name) h ∙ (opens name (some i) e ∙ rw d refl)) (found i)

    pub chain-Writes : Writes chain w (placed_at what content w.fs (follow 40 w.fs path))
    chain-Writes = go (follow 40 w.fs path) refl
      where
        go :
            (r : Result IoError FilePath)
            → follow 40 w.fs path ≡ r
            → Writes chain w (placed_at what content w.fs r)
        go (ok name) h = placed_lem name h (w.fs.names name) refl
        go (err e) h = failed e (behind (err e) h)
