-- ===== src/Tests/Reads.antt =====
-- Runs of the read path, and its theorems at them.
use emacs_relay.Common.{ℕ, ◌≡◌, ◌≤◌, ◌-◌, refl, some, [], ◌∷◌, true, false, is_utf8, List}
use emacs_relay.Fs.{World, Result, ok, ◌>>=◌, map_err}
use emacs_relay.Fs.Calls.{symlink_metadata, open_nofollow, file_metadata, read_to_end}
use emacs_relay.Revision.{RevisionRead, RevisionError, from_metadata, final_type, metadata_equal}
use emacs_relay.Read.{
  checked_lstat, open_checked, sample, read_attempt, attempts, read_with_revision, read_range,
  range_attempt, range_body, max_range_bytes,
}
use emacs_relay.Read.Stable.{Describes, read_with_revision-Describes}
use emacs_relay.Read.Range.{IsRange, read_range-IsRange}
use emacs_relay.Read.ReadOnly.{Untouched, reads-Untouched}
use emacs_relay.Read.Tail.{TailRead, Known, tail_read, tail_of, truncated_or_rotated}
use emacs_relay.Read.Tail.Laws.{IsTail, tail_read-IsTail}
use emacs_relay.Sha256.{sha256}
use emacs_relay.Tests.Samples.{abc, abc_revision, start, start-IsTimed}

abbrev pub abc_read : RevisionRead
abc_read = record { bytes = abc; revision = abc_revision }

run_read : Result RevisionError RevisionRead × World
unfolding read_with_revision attempts read_attempt open_checked checked_lstat sample
    symlink_metadata open_nofollow file_metadata read_to_end ◌>>=◌ map_err final_type metadata_equal
    from_metadata sha256 is_utf8
run_read = read_with_revision "/d/f" start

pub read_ok : read_with_revision "/d/f" start ≡ (ok abc_read, (read_with_revision "/d/f" start).1)
unfolding run_read
read_ok = refl

read_with_revision-Describes_example :
    (fd : ℕ) × Describes abc_read fd (read_with_revision "/d/f" start).1
read_with_revision-Describes_example =
    read_with_revision-Describes "/d/f" start start-IsTimed read_ok

run_range : Result RevisionError (List ℕ) × World
unfolding read_range range_attempt range_body attempts open_checked checked_lstat symlink_metadata
    open_nofollow file_metadata read_to_end ◌>>=◌ map_err final_type metadata_equal
run_range = read_range "/d/f" 1 9 start

-- A range that ends behind the file is cut off there.
range_ok : read_range "/d/f" 1 9 start ≡ (ok (b'b' ∷ b'c' ∷ []), (read_range "/d/f" 1 9 start).1)
unfolding run_range
range_ok = refl

read_range-IsRange_example :
    (1 ≤ 9)
    × (9 - 1 ≤ max_range_bytes)
    × (fd : ℕ) × IsRange 1 9 (b'b' ∷ b'c' ∷ []) fd (read_range "/d/f" 1 9 start).1
read_range-IsRange_example = read_range-IsRange "/d/f" 1 9 start start-IsTimed range_ok

abbrev known : Known
known = record { offset = 1; dev = some 1; ino = some 7 }

abbrev tail_reply_abc : TailRead
tail_reply_abc = record {
  bytes = b'b' ∷ [];
  start = 1;
  actual_end = 2;
  file_size = 3;
  dev = 1;
  ino = 7;
  truncated_or_rotated = false;
  more_available = true;
}

run_tail : Result RevisionError TailRead × World
unfolding tail_read tail_of truncated_or_rotated open_checked checked_lstat symlink_metadata
    open_nofollow file_metadata read_to_end ◌>>=◌ map_err final_type
run_tail = tail_read "/d/f" known 1 start

tail_ok : tail_read "/d/f" known 1 start ≡ (ok tail_reply_abc, (tail_read "/d/f" known 1 start).1)
unfolding run_tail
tail_ok = refl

tail_read-IsTail_example :
    IsTail "/d/f" known 1 start (tail_read "/d/f" known 1 start).1 tail_reply_abc
tail_read-IsTail_example = tail_read-IsTail "/d/f" known 1 start tail_ok

reads-Untouched_example :
    Untouched start (read_with_revision "/d/f" start).1
    × Untouched start (read_range "/d/f" 0 2 start).1
reads-Untouched_example = reads-Untouched "/d/f" 0 2 start
