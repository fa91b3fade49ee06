-- ===== src/Exec/Readers.antt =====
-- `spawn_output_reader` of server/src/fs_handlers.rs: the two threads that drain the child's stdout and
-- stderr, with the count of bytes and the flag that they share. Their steps interleave in any order: one
-- step is a read of a pipe with the addition to the count, another the report of an excess.
pub mod After
pub mod Bounded
use emacs_relay.Common.{
  ℕ, ◌+◌, ◌*◌, ◌%◌, ◌^◌, ◌≤◌, ◌<◌, ◌≡◌, ◌<>◌, String, Bool, true, false, List, [], ◌++◌, length,
  ltb, if◌then◌else◌,
}
use emacs_relay.Fs.{Result, ok, err}

abbrev pub exec_output_limit : ℕ
exec_output_limit = 8 * 1024 * 1024

abbrev pub exceeded : String
exceeded = "exec: output exceeded 8388608 bytes, process group killed"

-- `exceeding` stands between the addition to the count and the report; `sent` has the message of the
-- thread, which is over.
pub data Reader : Type 0 where
  reading : List ℕ → Reader
  exceeding : Reader
  sent : Result String (List ℕ) → Reader

pub record Readers : Type 0 where
  pub used : ℕ
  pub overflow : Bool
  pub stdout : Reader
  pub stderr : Reader

-- What `pipe.read` gives.
pub data Read : Type 0 where
  eof : Read
  piece : List ℕ → Read
  failed : String → Read

-- The buffer of a read has 8192 bytes, and an empty piece is the end.
abbrev pub IsRead : Read → Type 0
IsRead eof = Unit
IsRead (piece p) = (0 < length p) × (length p ≤ 8192)
IsRead (failed e) = Unit

abbrev pub counted : Bool → ℕ → List ℕ → ℕ × Reader
counted true total buf = (total, exceeding)
counted false total buf = (total, reading buf)

-- The count and the reader after one read.
unfoldable pub on_read : Read → ℕ → List ℕ → ℕ × Reader
on_read eof used buf = (used, sent (ok buf))
on_read (failed e) used buf = (used, sent (err ("exec: output read failed: " <> e)))
on_read (piece p) used buf =
    let total = (used + length p) % 2 ^ 64 in counted (ltb exec_output_limit total) total (buf ++ p)

-- A thread without a pipe hands over nothing at once.
abbrev pub started : Bool → Reader
started true = reading []
started false = sent (ok [])

-- Which of the two pipes there are.
abbrev pub new_readers : Bool → Bool → Readers
new_readers has_stdout has_stderr = record {
  used = 0;
  overflow = false;
  stdout = started has_stdout;
  stderr = started has_stderr;
}

abbrev pub of_piece : Read → List ℕ
of_piece eof = []
of_piece (piece p) = p
of_piece (failed e) = []

-- The runs of the two threads. `out` and `more` are what the pipes of stdout and stderr have given so far.
pub data Run : (out more : List ℕ) → Readers → Type 0 where
  begin : (has_stdout has_stderr : Bool) → Run [] [] (new_readers has_stdout has_stderr)
  read_stdout :
      (out more : List ℕ) (s : Readers) (r : Read) (buf : List ℕ)
      → Run out more s
      → s.stdout ≡ reading buf
      → IsRead r
      → Run
          (out ++ of_piece r)
          more
          (record s { used = (on_read r s.used buf).0; stdout = (on_read r s.used buf).1 })
  read_stderr :
      (out more : List ℕ) (s : Readers) (r : Read) (buf : List ℕ)
      → Run out more s
      → s.stderr ≡ reading buf
      → IsRead r
      → Run out
          (more ++ of_piece r)
          (record s { used = (on_read r s.used buf).0; stderr = (on_read r s.used buf).1 })
  report_stdout :
      (out more : List ℕ) (s : Readers)
      → Run out more s
      → s.stdout ≡ exceeding
      → Run out more (record s { overflow = true; stdout = sent (err exceeded) })
  report_stderr :
      (out more : List ℕ) (s : Readers)
      → Run out more s
      → s.stderr ≡ exceeding
      → Run out more (record s { overflow = true; stderr = sent (err exceeded) })
