-- ===== src/Write/Swap/Rivals.antt =====
-- Two clients that read one revision and both write: the second `conditional_write` of
-- server/src/revisions/mod.rs, in a calm world.
use emacs_relay.Common.{
  ℕ, ◌≡◌, refl, ap, ◌∙◌, String, true, false, Option, none, some, List, length, ltb, is_utf8,
  str_eq, arith,
}
use emacs_relay.Fs.{FilePath, Inode, FileSystem, World, ok, err}
use emacs_relay.Fs.Calm.{IsCalm, Answers}
use emacs_relay.Revision.{
  Revision, RevisionRead, ExpectedRevision, ConditionalWrite, RevisionError, conflict, changed, io,
  too_large, unsupported_encoding, max_read_bytes, final_type, is_valid_file_revision, revision_eq,
}
use emacs_relay.Sha256.{sha256}
use emacs_relay.Read.Calm.{read_answer, file_answer}
use emacs_relay.Write.{temp_path, directory_of, conditional_write}
use emacs_relay.Write.Calm.{present_answer, compared_answer, typed_answer}
use emacs_relay.Write.Calm.Refused.{refusal, conditional_write-refused}
use emacs_relay.Write.Swap.Staged.{IsNumbered}
use emacs_relay.Write.Swap.Refines.{contents_of, guard_ok, test_ok}
use emacs_relay.Write.Swap.Written.{conditional_write-IsWritten}

-- Another hash is another revision.
other_hash : (r s : Revision) → str_eq r.sha256 s.sha256 ≡ false → revision_eq r s ≡ false
unfolding revision_eq
other_hash r s h = ground arith

typed_lem :
    (node : Inode) (t : Option String) (r : Revision) (read : RevisionRead)
    → file_answer node t ≡ ok read
    → revision_eq read.revision r ≡ false
    → typed_answer t (compared_answer r (file_answer node t))
      ≡ err (conflict changed (some read.revision))
typed_lem node none r read e h = ap (compared_answer r) e ∙ rw h refl
typed_lem node (some kind) r read e h = cc

stale_lem :
    (r : Revision) (fs : FileSystem) (o : Option ℕ) (read : RevisionRead)
    → read_answer fs o ≡ ok read
    → revision_eq read.revision r ≡ false
    → present_answer r fs o ≡ err (conflict changed (some read.revision))
stale_lem r fs none read e h = cc
stale_lem r fs (some i) read e h =
    typed_lem (fs.inodes i) (final_type (fs.inodes i).metadata) r read e h

-- The bytes of the second write are in order, and its expectation is a valid revision.
refusal_lem :
    (bytes : List ℕ) (r : Revision) (fs : FileSystem) (o : Option ℕ) (e : RevisionError)
    → ltb max_read_bytes (length bytes) ≡ false
    → is_utf8 bytes ≡ true
    → is_valid_file_revision r ≡ true
    → present_answer r fs o ≡ err e
    → refusal bytes (ExpectedRevision.present r) fs o ≡ err e
refusal_lem bytes r fs o e small text valid h = rw (small, text, valid) h

-- What nothing speaks against is a valid revision.
valid_expected :
    (bytes : List ℕ) (r : Revision) (fs : FileSystem) (o : Option ℕ)
    → refusal bytes (ExpectedRevision.present r) fs o ≡ ok tt
    → is_valid_file_revision r ≡ true
valid_expected bytes r fs o h =
    let (_, text) = guard_ok (ltb max_read_bytes (length bytes)) too_large _ h in
    let (_, holds) = test_ok (is_utf8 bytes) unsupported_encoding _ text in
    (test_ok (is_valid_file_revision r) (io "write: invalid expected revision") _ holds).0

module _ (w : World) (path : FilePath) (r : Revision) (first second : List ℕ)
    (apart : str_eq path (temp_path (directory_of path) w.pid w.serial) ≡ false)
    (free : w.fs.names (temp_path (directory_of path) w.pid w.serial) ≡ none)
    (numbered : IsNumbered w.fs) (calm : IsCalm w.env) where
  -- The first write succeeds, the second one is told what is there now, and the first one's bytes stay.
  abbrev pub FirstWins : Type 0
  FirstWins =
      (saved : ConditionalWrite) × (v : World) × (conditional_write path first
          (ExpectedRevision.present r) w
        ≡ (ok saved, v))
      × (contents_of v.fs path ≡ some first)
      × Answers (conditional_write path second (ExpectedRevision.present r)) v
          (err (conflict changed (some saved.revision)))

  -- Where nobody else acts and no call fails, no temporary file is pending, the next temporary name is
  -- free and not the path itself, and no file has a number that is yet to be given: of two writes that
  -- expect the same revision, nothing speaks against the first, which changes the hash, and the bytes of the
  -- second are UTF-8 within the limit. Then the first one succeeds, and its bytes stay: the second one
  -- is refused as a conflict that tells the revision which the first one was given, and it changes
  -- nothing.
  pub conditional_write-FirstWins :
      refusal first (ExpectedRevision.present r) w.fs (w.fs.names path) ≡ ok tt
      → ltb max_read_bytes (length second) ≡ false
      → is_utf8 second ≡ true
      → str_eq (sha256 first) r.sha256 ≡ false
      → FirstWins
  conditional_write-FirstWins allowed small text differs =
      let expected = ExpectedRevision.present r in
      let (saved, v, run, h) =
        conditional_write-IsWritten w path first expected apart free numbered calm allowed in
      let changed_since : revision_eq saved.revision r ≡ false =
        other_hash saved.revision r (ap (λ x. str_eq x r.sha256) h.hash ∙ differs) in
      (
        saved,
        v,
        run,
        h.content,
        conditional_write-refused path second expected v (conflict changed (some saved.revision))
            h.calm h.clear
            (refusal_lem second r v.fs (v.fs.names path) _ small text
              (valid_expected first r w.fs (w.fs.names path) allowed)
              (stale_lem r v.fs (v.fs.names path) _ h.reads changed_since)),
      )
