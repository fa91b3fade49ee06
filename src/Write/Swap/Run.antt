-- ===== src/Write/Swap/Run.antt =====
-- The run of a conditional write, server/src/revisions/write.rs, against which nothing speaks, in a calm
-- world.
use emacs_relay.Common.{
  ℕ, ◌≡◌, refl, ap, sym, subst, ◌∙◌, true, false, not, none, some, List, length, ltb, is_utf8,
  str_eq, eq_refl, ==_iff,
}
use emacs_relay.Fs.{FilePath, World, ok, ◌>>=◌}
use emacs_relay.Fs.Names.{rename, remove_file}
use emacs_relay.Fs.Calm.{IsCalm, Answers}
use emacs_relay.Revision.{
  RevisionRead, ExpectedRevision, missing, ConditionalWrite, io_error, too_large,
  unsupported_encoding, max_read_bytes, from_metadata, final_type,
}
use emacs_relay.Revision.Facts.{final_type-none_iff}
use emacs_relay.Sha256.{sha256}
use emacs_relay.Read.{checked_lstat, refuse_if, read_with_revision}
use emacs_relay.Read.Calm.{Answers-checked_lstat, named, read_answer, file_answer}
use emacs_relay.Read.Calm.Whole.{read_with_revision-Answers}
use emacs_relay.Write.{
  temp_path, set_pending, new_temp, linked_or, publish, compare_published, directory_of,
  conflict_for_existing, write_body,
}
use emacs_relay.Write.Calm.{check_answer}
use emacs_relay.Write.Calm.Refused.{conflict_for_existing-Answers}
use emacs_relay.Write.Swap.{
  Steps, Steps-intro, Steps->>=, Steps-outcome, Steps-map_err, Steps-then, Steps-look, Temp,
}
use emacs_relay.Write.Swap.Staged.{
  IsNumbered, below_differs, new_temp_calm, Steps-stage, check_holds, Temp-path,
}
use emacs_relay.Write.Swap.Published.{IsReplaced, Steps-rename, Steps-hard_link, Steps-remove_file}
use emacs_relay.Write.Swap.Checks.{
  expected_no_dir, expected_none, bytes_eq_refl, content_lem, passes_if,
}

-- A run from a calm world `w` whose temporary name `t` is free and not the path itself.
module _ (w : World) (t path : FilePath) (bytes : List ℕ) (apart : str_eq path t ≡ false)
    (free : w.fs.names t ≡ none) (numbered : IsNumbered w.fs) (calm : IsCalm w.env) where
  abbrev pub IsPublished : World → Type 0
  IsPublished v = (v.pending ≡ none) × IsReplaced w t path apart free bytes v

  Steps-clear :
      (u : World)
      → IsReplaced w t path apart free bytes u
      → Steps (set_pending none) u (λ _. IsPublished)
  unfolding set_pending
  Steps-clear u h =
      Steps-intro _ (set_pending none) u tt (record u { pending = none }) refl (refl, h)

  Steps-publish :
      (expected : ExpectedRevision) (v : World)
      → check_answer expected w.fs (w.fs.names path) ≡ ok tt
      → Temp w t bytes v
      → Steps (publish expected t path) v (λ _. IsPublished)
  unfolding publish
  Steps-publish (ExpectedRevision.present r) v holds h =
      let still =
        check_holds w t path apart numbered calm (ExpectedRevision.present r) holds bytes v h in
      Steps->>= _ _ _ _ v
        (Steps-map_err _ (io_error "write(rename)") (rename t path) v (
          Steps-rename w t path apart free bytes v h (subst IsCalm (sym h.env) calm) λ j e. (
            below_differs j w.fs.next
                (numbered.below path j (sym (Temp-path w t path apart bytes v h) ∙ e)),
            expected_no_dir r v.fs j
                (subst (λ o. check_answer (ExpectedRevision.present r) v.fs o ≡ ok tt) e still),
          )))
        λ _ u k. Steps-clear u k
  Steps-publish missing v holds h =
      let calm' = subst IsCalm (sym h.env) calm in
      let nothing : v.fs.names path ≡ none =
        Temp-path w t path apart bytes v h ∙ expected_none w.fs (w.fs.names path) holds in
      Steps-outcome _ _ _ (linked_or t path) v
        (Steps-hard_link w t path apart free bytes v h calm' nothing)
        λ _ u linked.
          Steps->>= _ _ _ _ u
            (Steps-map_err _ (io_error "write(publish cleanup)") (remove_file t) u (
              Steps-remove_file w t path apart free bytes v h u (subst IsCalm (sym linked.0) calm)
                linked))
            λ _ u' k. Steps-clear u' k

  -- The new file is what a read of the path then finds.
  pub read_published :
      (v : World)
      → IsReplaced w t path apart free bytes v
      → is_utf8 bytes ≡ true
      → ltb max_read_bytes (length bytes) ≡ false
      → read_answer v.fs (v.fs.names path)
        ≡ ok (record {
          bytes = bytes;
          revision = from_metadata (v.fs.inodes w.fs.next).metadata (sha256 bytes);
        })
  read_published v (env, after) text small =
      let node = v.fs.inodes w.fs.next in
      let regular : final_type node.metadata ≡ none =
        (final_type-none_iff node.metadata).1 ((==_iff _ _).1 after.regular, after.nlink) in
      let there : v.fs.names path ≡ some w.fs.next = after.names path ∙ rw (eq_refl path) refl in
      ap (read_answer v.fs) there
      ∙ ap (file_answer node) regular
      ∙ content_lem node bytes after.content after.size text small

  -- The answer of a write that succeeds, and the world after it.
  abbrev pub IsSaved : ConditionalWrite → World → Type 0
  IsSaved saved v =
      (v.pending ≡ none)
      × IsReplaced w t path apart free bytes v
      × (saved.revision ≡ from_metadata (v.fs.inodes w.fs.next).metadata (sha256 bytes))

  -- The read after publication, and the comparison of its bytes.
  Steps-verify :
      (v : World)
      → IsPublished v
      → is_utf8 bytes ≡ true
      → ltb max_read_bytes (length bytes) ≡ false
      → Steps (read_with_revision path >>= compare_published bytes) v IsSaved
  Steps-verify v (clear, h) text small =
      let revision = from_metadata (v.fs.inodes w.fs.next).metadata (sha256 bytes) in
      let read : RevisionRead = record { bytes = bytes; revision = revision } in
      Steps-look _ (read_with_revision path) (compare_published bytes) v read
        (subst (Answers (read_with_revision path) v) (read_published v h text small)
          (read_with_revision-Answers path v (subst IsCalm (sym h.0) calm)))
        λ n.
          Steps-intro _ (compare_published bytes read) (record v { now = n })
            (record { revision = revision }) (record v { now = n }) (rw (bytes_eq_refl bytes) refl)
            (clear, h, refl)

-- Nothing speaks against the write.
module _ (w : World) (path : FilePath) (bytes : List ℕ) (expected : ExpectedRevision)
    (apart : str_eq path (temp_path (directory_of path) w.pid w.serial) ≡ false)
    (free : w.fs.names (temp_path (directory_of path) w.pid w.serial) ≡ none)
    (numbered : IsNumbered w.fs) (calm : IsCalm w.env) where
  pub Steps-write_body :
      ltb max_read_bytes (length bytes) ≡ false
      → is_utf8 bytes ≡ true
      → check_answer expected w.fs (w.fs.names path) ≡ ok tt
      → Steps (write_body path bytes expected) w (
          IsSaved w
            (temp_path (directory_of path) w.pid w.serial)
            path
            bytes
            apart
            free
            numbered
            calm)
  unfolding write_body
  Steps-write_body small text holds =
      let t = temp_path (directory_of path) w.pid w.serial in
      Steps-look _ (refuse_if _ too_large) _ w tt (passes_if _ too_large w small) λ n0.
        Steps-look _ (refuse_if _ unsupported_encoding) _ (record w { now = n0 }) tt
          (passes_if _ unsupported_encoding (record w { now = n0 }) (ap not text))
          λ n1.
            Steps-look _ (conflict_for_existing expected path) _ (record w { now = n1 }) tt
              (subst (Answers (conflict_for_existing expected path) (record w { now = n1 })) holds
                (conflict_for_existing-Answers expected path (record w { now = n1 }) calm))
              λ n2.
                Steps-look _ (checked_lstat path) _ (record w { now = n2 })
                  (named w.fs (w.fs.names path))
                  (Answers-checked_lstat path (record w { now = n2 }) calm)
                  λ n3.
                    let (v, e, h) = new_temp_calm (directory_of path) w n3 99 calm free in
                    Steps-then _ (new_temp 100 (directory_of path)) _ (record w { now = n3 })
                      (t, w.fs.next) v e
                      (Steps->>= _ _ _ _ v
                        (Steps-stage w t path apart numbered calm expected holds bytes _ v h)
                        λ _ v1 h1.
                          Steps->>= _ _ _ _ v1
                            (Steps-publish w t path bytes apart free numbered calm expected v1 holds
                              h1)
                            λ _ v2 h2.
                              Steps-verify w t path bytes apart free numbered calm v2 h2 text small)
