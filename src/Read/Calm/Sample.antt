-- ===== src/Read/Calm/Sample.antt =====
-- One attempt of the revision read, server/src/revisions/read.rs, in a calm world.
use emacs_relay.Common.{
  ℕ, ◌+◌, ◌≡◌, refl, ap, sym, subst, ◌∙◌, Bool, true, false, none, some, List, length, take, min,
  take-length_le, length-take, ltb, ltb→le, is_utf8, if◌then◌else◌, arith,
}
use emacs_relay.Fs.{Inode, World, ok, err, pure, raise, ◌>>=◌, ◌>>◌, map_err}
use emacs_relay.Fs.Calls.{file_metadata, read_to_end}
use emacs_relay.Fs.Calm.{
  IsCalm, Answers, Answers-pure, Answers-raise, Answers->>=_ok, Answers-map_err_ok,
  Answers-file_metadata,
}
use emacs_relay.Revision.{
  unsupported_encoding, too_large, max_read_bytes, io_error, final_type, metadata_equal,
}
use emacs_relay.Revision.Facts.{metadata_equal_iff}
use emacs_relay.Read.{refuse_type, compare_samples, sample}
use emacs_relay.Read.Calm.{
  Answers-read_to_end, text_answer, file_answer, some_of, Answers-guard, Answers-type, passes,
}

-- Two samples that agree.
agreeing :
    {A : Type 0} (a : A) (b u : Bool) (w : World)
    → b ≡ true
    → Answers
        (if b then if u then pure (some a) else raise unsupported_encoding else pure none)
        w
        (some_of (if u then ok a else err unsupported_encoding))
agreeing a true true w h = Answers-pure (some a) w
agreeing a true false w h = Answers-raise unsupported_encoding w
agreeing a false u w h = cc

ltb_cut : (n k l : ℕ) → l ≡ min (n + 1) k → ltb n l ≡ ltb n k
ltb_cut n k l e = ground arith

too_long :
    (bytes content : List ℕ)
    → bytes ≡ take (max_read_bytes + 1) content
    → ltb max_read_bytes (length bytes) ≡ ltb max_read_bytes (length content)
too_long bytes content e =
    ltb_cut max_read_bytes (length content) (length bytes)
      (ap length e ∙ length-take (max_read_bytes + 1) content)

all_there :
    (bytes content : List ℕ)
    → bytes ≡ take (max_read_bytes + 1) content
    → ltb max_read_bytes (length content) ≡ false
    → content ≡ bytes
all_there bytes content e h = sym (
    e
    ∙ take-length_le (max_read_bytes + 1) content
        (omega (arith, ltb→le max_read_bytes (length content) h)))

-- One attempt at a file that is open.
module _ (w : World) (calm : IsCalm w.env) (fd : ℕ) where
  abbrev node : Inode
  node = w.fs.inodes fd

  second_sample-Answers :
      (bytes : List ℕ) (n : ℕ)
      → node.bytes ≡ bytes
      → final_type node.metadata ≡ none
      → Answers
          (map_err (io_error "read") (file_metadata fd) >>= λ after.
            refuse_type (final_type after) >> compare_samples node.metadata after bytes)
          (record w { now = n })
          (some_of (text_answer node))
  second_sample-Answers bytes n same regular =
      Answers->>=_ok (map_err (io_error "read") (file_metadata fd)) _ (record w { now = n })
        node.metadata _
        (Answers-map_err_ok (io_error "read") (file_metadata fd) (record w { now = n })
          node.metadata (Answers-file_metadata (record w { now = n }) calm fd))
        λ k.
          passes (final_type node.metadata) (compare_samples node.metadata node.metadata bytes)
            (record w { now = k }) (some_of (text_answer node)) regular
            (subst
              (λ b.
                Answers (compare_samples node.metadata node.metadata b) (record w { now = k })
                  (some_of (text_answer node)))
              same
              (agreeing _ (metadata_equal node.metadata node.metadata) (is_utf8 node.bytes)
                (record w { now = k }) ((metadata_equal_iff node.metadata node.metadata).1 refl)))

  pub sample-Answers : Answers (sample fd) w (some_of (file_answer node (final_type node.metadata)))
  unfolding sample
  sample-Answers =
      Answers->>=_ok (map_err (io_error "read") (file_metadata fd)) _ w node.metadata _
        (Answers-map_err_ok (io_error "read") (file_metadata fd) w node.metadata
          (Answers-file_metadata w calm fd))
        λ n.
          Answers-type _ (record w { now = n }) (final_type node.metadata) (file_answer node)
            (λ kind. refl)
            λ regular.
              Answers-guard _ (record w { now = n }) too_large _ _ _ refl
                λ _.
                  Answers->>=_ok (map_err (io_error "read") (read_to_end fd 0 (max_read_bytes + 1)))
                    _ (record w { now = n }) (take (max_read_bytes + 1) node.bytes) _
                    (Answers-map_err_ok (io_error "read") (read_to_end fd 0 (max_read_bytes + 1))
                      (record w { now = n }) _
                      (Answers-read_to_end fd 0 (max_read_bytes + 1) (record w { now = n }) calm))
                    λ k.
                      Answers-guard _ (record w { now = k }) too_large _ _ (text_answer node)
                        (too_long (take (max_read_bytes + 1) node.bytes) node.bytes refl)
                        λ small.
                          second_sample-Answers (take (max_read_bytes + 1) node.bytes) k
                            (all_there (take (max_read_bytes + 1) node.bytes) node.bytes refl small)
                            regular
