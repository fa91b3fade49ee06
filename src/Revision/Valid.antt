-- ===== src/Revision/Valid.antt =====
-- What `is_valid_file_revision` of server/src/revisions/types.rs accepts, and that the revisions which
-- the server makes are among it.
use emacs_relay.Common.{
  ℕ, ◌≤◌, ◌<◌, ◌≡◌, refl, ◌↔◌, ◌⊎◌, String, true, List, [], ◌∷◌, ℤ, pos, negsuc, is_nonneg, int_lt,
  ltb→lt, length, all, All, bytes_of, arith,
}
use emacs_relay.Revision.{
  Revision, is_lower_hex, is_valid_file_revision, present, file, state_eq, kind_eq, RevisionState,
  RevisionKind,
}

-- A nanosecond count: an integer that is not negative and below 10 ^ 9.
abbrev pub IsNsec : ℤ → Type 0
IsNsec z = (n : ℕ) × (z ≡ pos n) × (n < 1_000_000_000)

-- The code of one of the characters `0` to `9` or `a` to `f`.
abbrev pub IsHexByte : ℕ → Type 0
IsHexByte b = ((48 ≤ b) × (b ≤ 57)) ⊎ ((97 ≤ b) × (b ≤ 102))

-- A text of 64 lower-case hexadecimal digits.
abbrev pub IsDigest : String → Type 0
IsDigest s = (length (bytes_of s) ≡ 64) × All IsHexByte (bytes_of s)

pub record IsFileRevision (r : Revision) : Type 0 where
  pub schema : r.schema ≡ 1
  pub mtime_nsec : IsNsec r.mtime_nsec
  pub ctime_nsec : IsNsec r.ctime_nsec
  pub mode : r.mode ≤ 0o7777
  pub sha256 : IsDigest r.sha256

pub is_lower_hex_iff : (b : ℕ) → (is_lower_hex b ≡ true) ↔ IsHexByte b
is_lower_hex_iff b = (λ h. ground arith, λ h. ground arith)

all_iff : (xs : List ℕ) → (all is_lower_hex xs ≡ true) ↔ All IsHexByte xs
all_iff [] = (λ h. tt, λ h. refl)
all_iff (x ∷ xs) = (
  λ h. ((is_lower_hex_iff x).0 (ground arith), (all_iff xs).0 (ground arith)),
  λ h. ground (arith, (is_lower_hex_iff x).1 h.0, (all_iff xs).1 h.1),
)

IsNsec-tests : (z : ℤ) → is_nonneg z ≡ true → int_lt z 1_000_000_000 ≡ true → IsNsec z
IsNsec-tests (pos n) h k = (n, refl, ltb→lt n 1_000_000_000 k)
IsNsec-tests (negsuc n) h k = cc

tests-IsNsec : (z : ℤ) → IsNsec z → (is_nonneg z ≡ true) × (int_lt z 1_000_000_000 ≡ true)
tests-IsNsec (pos n) (m, e, h) = ground arith
tests-IsNsec (negsuc n) (m, e, h) = cc

state_eq-present : (s : RevisionState) → state_eq s present ≡ true
state_eq-present RevisionState.present = refl

kind_eq-file : (k : RevisionKind) → kind_eq k file ≡ true
kind_eq-file file = refl

-- The check accepts exactly the revisions of that description.
pub is_valid_file_revision_iff :
    (r : Revision) → (is_valid_file_revision r ≡ true) ↔ IsFileRevision r
unfolding is_valid_file_revision
is_valid_file_revision_iff r =
    let digest = all_iff (bytes_of r.sha256) in
    (
      λ h. record {
        schema = ground arith;
        mtime_nsec = IsNsec-tests r.mtime_nsec (ground arith) (ground arith);
        ctime_nsec = IsNsec-tests r.ctime_nsec (ground arith) (ground arith);
        mode = ground arith;
        sha256 = (ground arith, digest.0 (ground arith));
      },
      λ v. ground (
        arith,
        state_eq-present r.state,
        kind_eq-file r.kind,
        tests-IsNsec r.mtime_nsec v.mtime_nsec,
        tests-IsNsec r.ctime_nsec v.ctime_nsec,
        digest.1 v.sha256.1,
      ),
    )
