-- ===== src/Fs/Directories/Enough.antt =====
-- The rounds of `create_dir_all` are enough: more of them make no difference.
use emacs_relay.Common.{
  ℕ, zero, suc, ◌<◌, ◌≡◌, refl, ap, Option, none, some, str_eq, characters, parent, if◌then◌else◌,
  arith,
}
use emacs_relay.Common.Parents.{characters-parent}
use emacs_relay.Fs.{FilePath, IoError, M, ◌>>=◌, ◌>>◌, pure, outcome}
use emacs_relay.Fs.Directories.{
  create_dir, create_dirs, create_dir_all, parent_or, made_or, settled,
}

same_climb :
    (n m : ℕ) (path : FilePath) (o : Option FilePath)
    → parent path ≡ o
    → ((p : FilePath) → characters p < characters path → create_dirs n p ≡ create_dirs m p)
    → parent_or (create_dirs n) o ≡ parent_or (create_dirs m) o
same_climb n m path none e h = refl
same_climb n m path (some p) e h = h p (characters-parent path p e)

create_dirs-agree :
    (n m : ℕ) (path : FilePath)
    → characters path < n
    → characters path < m
    → create_dirs n path ≡ create_dirs m path
unfolding create_dirs
create_dirs-agree zero m path h k = absurd (omega arith)
create_dirs-agree (suc n) zero path h k = absurd (omega arith)
create_dirs-agree (suc n) (suc m) path h k =
    ap
      (λ (up : M IoError (Unit {0})).
        if str_eq path ""
        then pure tt
        else outcome (create_dir path)
          >>= made_or (up >> (outcome (create_dir path) >>= settled path)) path)
      (same_climb n m path (parent path) refl
        λ p l. create_dirs-agree n m p (omega arith) (omega arith))

-- Whatever rounds beyond the number of its characters a path is given, the directories above it are made
-- in the same way as by `create_dir_all`.
pub create_dirs-create_dir_all :
    (n : ℕ) (path : FilePath) → characters path < n → create_dirs n path ≡ create_dir_all path
unfolding create_dir_all
create_dirs-create_dir_all n path h =
    create_dirs-agree n (suc (characters path)) path h (omega arith)
