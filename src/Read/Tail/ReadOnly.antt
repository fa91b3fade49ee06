-- ===== src/Read/Tail/ReadOnly.antt =====
-- `tail_read` of server/src/revisions/read.rs only looks.
use emacs_relay.Common.{ℕ, []}
use emacs_relay.Fs.{FilePath, World}
use emacs_relay.Fs.Calls.{step}
use emacs_relay.Fs.Keeps.{
  Relation, IsPreorder, Keeps, Keeps-pure, Keeps->>=, Keeps-map_err, Keeps-if, Keeps-file_metadata,
  Keeps-read_to_end,
}
use emacs_relay.Revision.{RevisionError, final_type}
use emacs_relay.Read.ReadOnly.{Keeps-open_checked, Keeps-refuse_type}
use emacs_relay.Read.Tail.{Known, tail_bytes, tail_of, tail_read}

module _ (R : Relation) (P : IsPreorder R) (others : (w : World) → R w (step w)) where
  pub Keeps-tail_bytes : (fd start want_end : ℕ) → Keeps R (tail_bytes fd start want_end)
  Keeps-tail_bytes fd start want_end =
      Keeps-if R P _ _ _ (Keeps-map_err R P _ _ (Keeps-read_to_end R P others fd _ _))
        (Keeps-pure R P RevisionError [])

  Keeps-tail_of : (known : Known) (max_bytes fd : ℕ) → Keeps R (tail_of known max_bytes fd)
  unfolding tail_of
  Keeps-tail_of known max_bytes fd =
      Keeps->>= R P _ _ (Keeps-map_err R P _ _ (Keeps-file_metadata R P others fd)) λ m.
        Keeps->>= R P _ _ (Keeps-refuse_type R P others (final_type m))
          λ _. Keeps->>= R P _ _ (Keeps-tail_bytes fd _ _) λ bytes. Keeps-pure R P RevisionError _

  pub Keeps-tail_read :
      (path : FilePath) (known : Known) (max_bytes : ℕ) → Keeps R (tail_read path known max_bytes)
  unfolding tail_read
  Keeps-tail_read path known max_bytes =
      Keeps->>= R P _ _ (Keeps-open_checked R P others path) (Keeps-tail_of known max_bytes)
