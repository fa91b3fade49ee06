-- ===== src/Write/Swap/Written.antt =====
-- What a `conditional_write` of server/src/revisions/mod.rs leaves behind when it succeeds in a calm world.
use emacs_relay.Common.{
  ℕ, ◌≡◌, refl, ap, sym, subst, ◌∙◌, String, false, none, some, List, length, ltb, is_utf8, str_eq,
  eq_refl,
}
use emacs_relay.Fs.{Metadata, FilePath, World, ok}
use emacs_relay.Fs.Calm.{IsCalm}
use emacs_relay.Revision.{
  ExpectedRevision, ConditionalWrite, too_large, unsupported_encoding, max_read_bytes,
  from_metadata,
}
use emacs_relay.Sha256.{sha256}
use emacs_relay.Read.Calm.{read_answer}
use emacs_relay.Write.{temp_path, directory_of, write_body, conditional_write}
use emacs_relay.Write.Calm.Refused.{refusal}
use emacs_relay.Write.Swap.{Steps}
use emacs_relay.Write.Swap.Staged.{IsNumbered}
use emacs_relay.Write.Swap.Run.{read_published, Steps-write_body}
use emacs_relay.Write.Swap.Refines.{contents_of, guard_ok, test_ok, replaced_contents, dropping_ok}

-- The world after a write of those bytes, which answered so.
pub record IsWritten (path : FilePath) (bytes : List ℕ) (saved : ConditionalWrite) (v : World)
    : Type 0 where
  pub calm : IsCalm v.env
  pub clear : v.pending ≡ none
  pub content : contents_of v.fs path ≡ some bytes
  pub reads :
      read_answer v.fs (v.fs.names path) ≡ ok (record { bytes = bytes; revision = saved.revision })
  pub hash : saved.revision.sha256 ≡ sha256 bytes

hash_lem : (m : Metadata) (hash : String) → (from_metadata m hash).sha256 ≡ hash
unfolding from_metadata
hash_lem m hash = refl

pub conditional_write-IsWritten :
    (w : World) (path : FilePath) (bytes : List ℕ) (expected : ExpectedRevision)
    (apart : str_eq path (temp_path (directory_of path) w.pid w.serial) ≡ false)
    (free : w.fs.names (temp_path (directory_of path) w.pid w.serial) ≡ none)
    (numbered : IsNumbered w.fs) (calm : IsCalm w.env)
    → refusal bytes expected w.fs (w.fs.names path) ≡ ok tt
    → (saved : ConditionalWrite) × (v : World) × (conditional_write path bytes expected w
        ≡ (ok saved, v))
      × IsWritten path bytes saved v
unfolding conditional_write Steps
conditional_write-IsWritten w path bytes expected apart free numbered calm allowed =
    let t = temp_path (directory_of path) w.pid w.serial in
    let (small, h') = guard_ok (ltb max_read_bytes (length bytes)) too_large _ allowed in
    let (text, holds) = test_ok (is_utf8 bytes) unsupported_encoding _ h' in
    let (saved, v, e, (clear, replaced, same)) =
      Steps-write_body w path bytes expected apart free numbered calm small text holds in
    (
      saved,
      v,
      dropping_ok (write_body path bytes expected) w saved v e clear,
      record {
        calm = subst IsCalm (sym replaced.0) calm;
        clear = clear;
        content =
            replaced_contents w t path bytes apart free numbered v replaced path
            ∙ rw (eq_refl path) refl;
        reads =
            read_published w t path bytes apart free numbered calm v replaced text small
            ∙ ap (λ x. ok (record { bytes = bytes; revision = x })) (sym same);
        hash = ap (λ x. x.sha256) same ∙ hash_lem (v.fs.inodes w.fs.next).metadata (sha256 bytes);
      },
    )
