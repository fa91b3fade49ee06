-- ===== src/Fs.antt =====
-- The part of std::fs and of the kernel below it that the server uses: metadata, inodes, names, and
-- the world in which a worker runs. Other processes act between any two system calls of the server:
-- `env` says, for every call, how they change the file system before it, whether the call fails, and
-- what the kernel chooses (a new inode's metadata, the time, the size of a short read).
-- A path is the text that the server passes on; resolving the directories above its last name is left
-- to the kernel, so two texts are two names.
pub mod Calls
pub mod Names
pub mod Directories
pub mod Files
pub mod Kept
pub mod Keeps
pub mod Calm
use emacs_relay.Common.{ℕ, ◌≡◌, refl, ap, String, Bool, Option, List, ℤ, ◌==◌}
use Prim.Native.Nat.{bit_and}

-- std::fs::Metadata. The file type is read from the mode, as on Unix.
pub record Metadata : Type 0 where
  pub dev : ℕ
  pub ino : ℕ
  pub size : ℕ
  pub mtime : ℤ
  pub mtime_nsec : ℤ
  pub ctime : ℤ
  pub ctime_nsec : ℤ
  pub mode : ℕ
  pub uid : ℕ
  pub gid : ℕ
  pub nlink : ℕ

-- `mode & S_IFMT`
abbrev pub type_bits : ℕ → ℕ
type_bits mode = bit_and mode 0o170000

abbrev pub is_symlink : Metadata → Bool
is_symlink m = type_bits m.mode == 0o120000

abbrev pub is_dir : Metadata → Bool
is_dir m = type_bits m.mode == 0o040000

abbrev pub is_fifo : Metadata → Bool
is_fifo m = type_bits m.mode == 0o010000

abbrev pub is_file : Metadata → Bool
is_file m = type_bits m.mode == 0o100000

abbrev pub FilePath : Type 0
FilePath = String

-- A file, and the target of a symbolic link.
pub record Inode : Type 0 where
  pub metadata : Metadata
  pub bytes : List ℕ
  pub target : FilePath

-- An inode goes by a number of its own, which an open descriptor keeps. `next` has none yet.
pub record FileSystem : Type 0 where
  pub names : FilePath → Option ℕ
  pub inodes : ℕ → Inode
  pub next : ℕ

-- std::io::ErrorKind, as far as the server tells kinds apart.
pub data ErrorKind : Type 0 where
  not_found already_exists other : ErrorKind

-- An error and what it displays.
pub record IoError : Type 0 where
  pub kind : ErrorKind
  pub shown : String

-- What surrounds one system call. A read gives `chunk + 1` bytes at most. `listing` is what a directory
-- is read to hold, with none for an entry that cannot be read, `canonical` the text of a path without
-- symbolic links, and `gone` what a removal of a tree that fails has removed by then.
pub record Tick : Type 0 where
  pub change : FileSystem → FileSystem
  pub fault : Option IoError
  pub stamp : Metadata
  pub chunk : ℕ
  pub listing : List (Option String)
  pub canonical : FilePath
  pub gone : FilePath → Bool

-- The changes that the server itself made.
pub data Effect : Type 0 where
  created chowned chmoded wrote removed : FilePath → Effect
  made opened emptied removed_dir removed_tree : FilePath → Effect
  renamed linked : FilePath → FilePath → Effect

-- `serial` is `NEXT_TEMP`, `pending` the path of the running write's active `PendingTemp`, and `log`
-- the effects so far, the last one first.
pub record World : Type 0 where
  pub fs : FileSystem
  pub env : ℕ → Tick
  pub now : ℕ
  pub pid : ℕ
  pub serial : ℕ
  pub pending : Option FilePath
  pub log : List Effect

-- `Result<A, E>`
pub data Result (E A : Type 0) : Type 0 where
  ok : A → Result E A
  err : E → Result E A

-- A computation that changes the world and may fail. What was done before a failure stays done.
abbrev pub M : Type 0 → Type 0 → Type 0
M E A = World → Result E A × World

module _ {E A : Type 0} where
  abbrev pub pure : A → M E A
  pure a w = (ok a, w)

  abbrev pub raise : E → M E A
  raise e w = (err e, w)

  -- `?` on a value that is at hand
  abbrev pub lift : Result E A → M E A
  lift r w = (r, w)

module _ {E A B : Type 0} where
  abbrev pub continue : Result E A → (A → M E B) → M E B
  continue (ok a) f = f a
  continue (err e) f = raise e

  infixl 5 ◌>>=◌ ◌>>◌
  unfoldable pub ◌>>=◌ : M E A → (A → M E B) → M E B
  ◌>>=◌ m f w = continue (m w).0 f (m w).1

  abbrev pub ◌>>◌ : M E A → M E B → M E B
  m >> n = m >>= λ _. n

  continue-eq-ok :
      (r : Result E A) (f : A → M E B) (v : World) {b : B} {w' : World}
      → continue r f v ≡ (ok b, w')
      → (a : A) × (r ≡ ok a) × (f a v ≡ (ok b, w'))
  continue-eq-ok (ok a) f v h = (a, refl, h)
  continue-eq-ok (err e) f v h = cc

  -- What a successful chain says of its first step and of the rest.
  pub >>=-eq-ok :
      (m : M E A) (f : A → M E B) (w : World) {b : B} {w' : World}
      → (m >>= f) w ≡ (ok b, w')
      → (a : A) × (v : World) × (m w ≡ (ok a, v)) × (f a v ≡ (ok b, w'))
  unfolding ◌>>=◌
  >>=-eq-ok m f w h =
      let (a, e, rest) = continue-eq-ok (m w).0 f (m w).1 h in
      (a, (m w).1, ap (λ r. (r, (m w).1)) e, rest)

  -- The same, handed to a proof that goes on with the parts.
  pub >>=-elim :
      {P : Type 0} (m : M E A) (f : A → M E B) (w : World) {b : B} {w' : World}
      → (m >>= f) w ≡ (ok b, w')
      → ((a : A) (v : World) → m w ≡ (ok a, v) → f a v ≡ (ok b, w') → P)
      → P
  >>=-elim m f w h k = let (a, v, e, rest) = >>=-eq-ok m f w h in k a v e rest

  -- One step of a chain whose first part has run.
  pub >>=_ok :
      (m : M E A) (f : A → M E B) (w : World) {a : A} {v : World}
      → m w ≡ (ok a, v)
      → (m >>= f) w ≡ f a v
  unfolding ◌>>=◌
  >>=_ok m f w h = rw h

  pub >>=_err :
      (m : M E A) (f : A → M E B) (w : World) {e : E} {v : World}
      → m w ≡ (err e, v)
      → (m >>= f) w ≡ (err e, v)
  unfolding ◌>>=◌
  >>=_err m f w h = rw h

module _ {E F A : Type 0} where
  abbrev pub result_map_err : (E → F) → Result E A → Result F A
  result_map_err f (ok a) = ok a
  result_map_err f (err e) = err (f e)

  -- `.map_err(f)`
  unfoldable pub map_err : (E → F) → M E A → M F A
  map_err f m w = (result_map_err f (m w).0, (m w).1)

  result_map_err-eq-ok : (f : E → F) (r : Result E A) {a : A} → result_map_err f r ≡ ok a → r ≡ ok a
  result_map_err-eq-ok f (ok a) h = cc
  result_map_err-eq-ok f (err e) h = cc

  pub map_err-eq-ok :
      (f : E → F) (m : M E A) (w : World) {a : A} {w' : World}
      → map_err f m w ≡ (ok a, w')
      → m w ≡ (ok a, w')
  unfolding map_err
  map_err-eq-ok f m w h = λ i. (result_map_err-eq-ok f (m w).0 (ap (λ p. p.0) h) i, (h i).1)

  pub map_err_ok :
      (f : E → F) (m : M E A) (w : World) {a : A} {w' : World}
      → m w ≡ (ok a, w')
      → map_err f m w ≡ (ok a, w')
  unfolding map_err
  map_err_ok f m w h = rw h

  pub map_err_err :
      (f : E → F) (m : M E A) (w : World) {e : E} {w' : World}
      → m w ≡ (err e, w')
      → map_err f m w ≡ (err (f e), w')
  unfolding map_err
  map_err_err f m w h = rw h

-- `match call { Ok(…) => …, Err(error) => … }`
unfoldable pub outcome : {E F A : Type 0} → M E A → M F (Result E A)
outcome m w = (ok (m w).0, (m w).1)
