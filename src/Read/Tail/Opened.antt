-- ===== src/Read/Tail/Opened.antt =====
-- The descriptor that `tail_read` of server/src/revisions/read.rs opens, where others only append.
use emacs_relay.Common.{ℕ, ◌≡◌, sym, subst, Option, none, some, arith, if◌then◌else◌}
use emacs_relay.Fs.{
  is_symlink, FilePath, World, FileSystem, IoError, Result, ok, err, ◌>>=◌, >>=-elim, map_err-eq-ok,
}
use emacs_relay.Fs.Calls.{no_such_file, too_many_links, seen, step, open_nofollow}
use emacs_relay.Fs.Kept.{query_ok}
use emacs_relay.Fs.Keeps.{Keeps_result, Keeps->>=}
use emacs_relay.Revision.{final_type}
use emacs_relay.Read.{checked_lstat, found_or, refuse_type, open_checked}
use emacs_relay.Read.ReadOnly.{Keeps-checked_lstat, Keeps-found_or, Keeps-refuse_type}
use emacs_relay.Read.Tail.{}
use emacs_relay.Read.Tail.Grown.{IsAppending, Appended, Appended-IsPreorder, Appended-step}

module _ (path : FilePath) (i : ℕ) where
  opened_at :
      (o : Option ℕ) (fs : FileSystem) (fd : ℕ)
      → o ≡ some i
      → elim o as (λ _. Result IoError ℕ) [
        | none ↦ err no_such_file
        | some j ↦ if is_symlink (fs.inodes j).metadata then err too_many_links else ok j
      ]
        ≡ ok fd
      → fd ≡ i
  opened_at o fs fd e h = ground arith

  open_nofollow_ok :
      (w : World) (fd : ℕ) (v : World)
      → (seen w).names path ≡ some i
      → open_nofollow path w ≡ (ok fd, v)
      → (fd ≡ i) × (v ≡ step w)
  unfolding open_nofollow
  open_nofollow_ok w fd v e h =
      let (a, s) =
        query_ok
          (λ t fs. elim (fs.names path) [
            | none ↦ err no_such_file
            | some j ↦ if is_symlink (fs.inodes j).metadata then err too_many_links else ok j
          ])
          w h in
      (opened_at ((seen w).names path) (seen w) fd e a, s)

  -- The descriptor is that of the file, and to that file others have appended at most.
  pub open_checked_ok :
      (w : World) (fd : ℕ) (v : World)
      → IsAppending path i w.env
      → w.fs.names path ≡ some i
      → open_checked path w ≡ (ok fd, v)
      → (fd ≡ i) × Appended path i w v
  unfolding open_checked
  open_checked_ok w fd v appending named h =
      let R = Appended path i in
      let P = Appended-IsPreorder path i in
      let others = Appended-step path i in
      >>=-elim (checked_lstat path >>= found_or _) _ w h λ m u e h1.
        >>=-elim (refuse_type (final_type m)) _ u h1 λ _ u2 e2 h2.
          let first =
            Keeps_result R _
              (Keeps->>= R P _ _ (Keeps-checked_lstat R P others path)
                (Keeps-found_or R P others _))
              w e in
          let second = Keeps_result R _ (Keeps-refuse_type R P others (final_type m)) u e2 in
          let until : Appended path i w (step u2) =
            P.chain w u (step u2) first (P.chain u u2 (step u2) second (others u2)) in
          let (at, s) =
            open_nofollow_ok u2 fd v ((until.1 appending).named named)
              (map_err-eq-ok _ (open_nofollow path) u2 h2) in
          (at, subst (R w) (sym s) until)
