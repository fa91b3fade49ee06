-- ===== src/Tests/Writes.antt =====
-- Runs of the conditional write, and its theorems at them.
use emacs_relay.Common.{
  ℕ, ◌≡◌, ◌≤◌, refl, none, some, [], ◌∷◌, ◌++◌, true, is_utf8, List, All, decimal, join, parent,
}
use emacs_relay.Fs.{
  Effect, created, chowned, chmoded, wrote, renamed, World, Result, ok, err, ◌>>=◌, map_err,
}
use emacs_relay.Fs.Calls.{
  query, mutate, symlink_metadata, open_nofollow, file_metadata, read_to_end, create_new, fchown,
  set_permissions,
}
use emacs_relay.Fs.Names.{write_all, sync_all, rename, hard_link, remove_file}
use emacs_relay.Revision.{
  ExpectedRevision, missing, ConditionalWrite, RevisionError, conflict, appeared, max_read_bytes,
  from_metadata, final_type, metadata_equal, revision_eq, is_valid_file_revision,
}
use emacs_relay.Read.{
  checked_lstat, open_checked, sample, read_attempt, attempts, read_with_revision,
}
use emacs_relay.Sha256.{sha256}
use emacs_relay.Write.{
  temp_path, next_temp, set_pending, new_temp, dropping, preserve_metadata,
  missing_appearance_conflict, conflict_for_existing, publish, stage, write_body, conditional_write,
}
use emacs_relay.Fs.{outcome}
use emacs_relay.Write.Effects.{Allowed}
use emacs_relay.Write.Effects.Log.{conditional_write-effects}
use emacs_relay.Write.Success.{Published, Holds, conditional_write-Holds}
use emacs_relay.Tests.Samples.{abc_revision, start, start-IsTimed}

abbrev hi : List ℕ
hi = b'h' ∷ b'i' ∷ []

abbrev hi_write : ConditionalWrite
hi_write = record { revision = record abc_revision { size = 2; sha256 = sha256 hi } }

abbrev replaced : Result RevisionError ConditionalWrite × World
replaced = conditional_write "/d/f" hi (ExpectedRevision.present abc_revision) start

run_write : ExpectedRevision → Result RevisionError ConditionalWrite × World
unfolding conditional_write dropping write_body conflict_for_existing new_temp next_temp temp_path
    outcome create_new set_pending stage preserve_metadata fchown set_permissions write_all sync_all
    publish rename hard_link remove_file missing_appearance_conflict query mutate
    is_valid_file_revision revision_eq read_with_revision attempts read_attempt open_checked
    checked_lstat sample symlink_metadata open_nofollow file_metadata read_to_end ◌>>=◌ map_err
    final_type metadata_equal from_metadata sha256 is_utf8 decimal join parent
run_write expected = conditional_write "/d/f" hi expected start

replaced_ok : replaced ≡ (ok hi_write, replaced.1)
unfolding run_write
replaced_ok = refl

-- The server's own steps, the last one first.
replaced_log :
    replaced.1.log
    ≡ renamed "/d/.relay-tmp-42-0" "/d/f"
      ∷ wrote "/d/.relay-tmp-42-0"
      ∷ chmoded "/d/.relay-tmp-42-0"
      ∷ chowned "/d/.relay-tmp-42-0"
      ∷ created "/d/.relay-tmp-42-0"
      ∷ []
unfolding run_write
replaced_log = refl

-- Nothing is written where a file is that was not expected.
refused : conditional_write "/d/f" hi missing start ≡ (
  err (conflict appeared (some abc_revision)),
  record start { now = (conditional_write "/d/f" hi missing start).1.now },
)
unfolding run_write
refused = refl

conditional_write-Holds_example :
    (2 ≤ max_read_bytes)
    × (is_utf8 hi ≡ true)
    × Published "/d/f" hi (ExpectedRevision.present abc_revision) start hi_write replaced.1
    × Holds hi hi_write replaced.1
conditional_write-Holds_example =
    conditional_write-Holds "/d/f" hi (ExpectedRevision.present abc_revision) start start-IsTimed
      replaced_ok

conditional_write-effects_example :
    (replaced.1.pending ≡ none)
    × ((new : List Effect) × (replaced.1.log ≡ new ++ [])
        × All (Allowed 42 "/d/f" (ExpectedRevision.present abc_revision)) new)
conditional_write-effects_example =
    conditional_write-effects "/d/f" hi (ExpectedRevision.present abc_revision) start refl
