-- ===== src/Tests/Follow.antt =====
-- A client that follows a file to which another process appends before every system call.
use emacs_relay.Common.{
  ℕ, ◌+◌, ◌≡◌, refl, none, some, List, [], ◌∷◌, ◌++◌, arith, length, length-append,
}
use emacs_relay.Fs.{FileSystem, Inode, World, Result, ok, ◌>>=◌, map_err}
use emacs_relay.Fs.Calls.{
  store, symlink_metadata, open_nofollow, file_metadata, query, read_to_end, read_rounds, read_some,
}
use emacs_relay.Revision.{RevisionError, final_type}
use emacs_relay.Read.{checked_lstat, open_checked}
use emacs_relay.Read.Tail.{Known, truncated_or_rotated, tail_of, tail_read}
use emacs_relay.Read.Tail.Grown.{Grown, IsAppending}
use emacs_relay.Read.Tail.Follow.{follow, IsSynced, IsFollowed, follow-IsFollowed}
use emacs_relay.Tests.Samples.{quiet, start}

abbrev longer : Inode → Inode
longer node = record node {
  metadata = record (node.metadata) { size = node.metadata.size + 1 };
  bytes = node.bytes ++ b'x' ∷ [];
}

abbrev grow : FileSystem → FileSystem
grow fs = record fs { inodes = store fs.inodes 4 (longer (fs.inodes 4)) }

longer_Grown : (fs : FileSystem) → Grown "/d/f" 4 fs (grow fs)
longer_Grown fs = record {
  named = λ e. e;
  more = b'x' ∷ [];
  grows = refl;
  dev = refl;
  ino = refl;
  sized = λ e. omega (arith, e, length-append (fs.inodes 4).bytes (b'x' ∷ []));
}

abbrev growing : World
growing = record start { env = λ n. record quiet { change = grow } }

growing-IsAppending : IsAppending "/d/f" 4 growing.env
growing-IsAppending = record { appends = λ n fs. longer_Grown fs }

abbrev from_start : Known
from_start = record { offset = 0; dev = none; ino = none }

synced : IsSynced "/d/f" 4 from_start growing.fs
synced = record { named = refl; sized = refl; within = omega arith; dev = refl; ino = refl }

run_follow : Result RevisionError (Known × List ℕ) × World
unfolding follow tail_read tail_of open_checked checked_lstat symlink_metadata open_nofollow
    file_metadata query read_to_end read_rounds read_some truncated_or_rotated final_type map_err
    ◌>>=◌
run_follow = follow "/d/f" from_start (2 ∷ 5 ∷ []) growing

-- "abcxxxx"
abbrev seven : List ℕ
seven = b'a' ∷ b'b' ∷ b'c' ∷ b'x' ∷ b'x' ∷ b'x' ∷ b'x' ∷ []

abbrev after_seven : Known
after_seven = record { offset = 7; dev = some 1; ino = some 7 }

abbrev after_run : World
after_run = (follow "/d/f" from_start (2 ∷ 5 ∷ []) growing).1

follow_ok : follow "/d/f" from_start (2 ∷ 5 ∷ []) growing ≡ (ok (after_seven, seven), after_run)
unfolding run_follow
follow_ok = refl

size_after : length (after_run.fs.inodes 4).bytes ≡ 13
unfolding run_follow
size_after = refl

follow-IsFollowed_example :
    IsFollowed "/d/f" 4 from_start after_seven (2 ∷ 5 ∷ []) seven growing after_run
follow-IsFollowed_example =
    follow-IsFollowed "/d/f" 4 from_start after_seven (2 ∷ 5 ∷ []) seven growing after_run
      growing-IsAppending synced (omega (arith, size_after)) follow_ok
