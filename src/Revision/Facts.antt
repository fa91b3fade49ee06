-- ===== src/Revision/Facts.antt =====
-- The comparisons of server/src/revisions/types.rs in terms of what they compare.
use emacs_relay.Common.{
  ◌≡◌, refl, subst, ℤ, eq_refl, ◌↔◌, true, none, arith, int_eq, int_eq_iff, eq_iff,
}
use emacs_relay.Fs.{Metadata, is_file}
use emacs_relay.Revision.{
  Revision, revision_eq, state_eq, kind_eq, metadata_equal, final_type, file, RevisionState,
  RevisionKind,
}

state_eq_lem : (a b : RevisionState) → (state_eq a b ≡ true) × (a ≡ b)
state_eq_lem RevisionState.present RevisionState.present = (refl, refl)

kind_eq_lem : (a b : RevisionKind) → (kind_eq a b ≡ true) × (a ≡ b)
kind_eq_lem file file = (refl, refl)

int_eq_self : (a : ℤ) → int_eq a a ≡ true
int_eq_self a = (int_eq_iff a a).1 refl

revision_eq_self : (r : Revision) → revision_eq r r ≡ true
unfolding revision_eq
revision_eq_self r = ground (
  arith,
  (state_eq_lem r.state r.state).0,
  (kind_eq_lem r.kind r.kind).0,
  int_eq_self r.mtime_sec,
  int_eq_self r.mtime_nsec,
  int_eq_self r.ctime_sec,
  int_eq_self r.ctime_nsec,
  eq_refl r.sha256,
)

-- The derived `==` of two revisions holds exactly when they are one.
pub revision_eq_iff : (r s : Revision) → (revision_eq r s ≡ true) ↔ (r ≡ s)
unfolding revision_eq
revision_eq_iff r s = (
  λ h. ground (
    arith,
    (state_eq_lem r.state s.state).1,
    (kind_eq_lem r.kind s.kind).1,
    int_eq_iff r.mtime_sec s.mtime_sec,
    int_eq_iff r.mtime_nsec s.mtime_nsec,
    int_eq_iff r.ctime_sec s.ctime_sec,
    int_eq_iff r.ctime_nsec s.ctime_nsec,
    eq_iff r.sha256 s.sha256,
  ),
  λ h. subst (λ t. revision_eq r t ≡ true) h (revision_eq_self r),
)

metadata_equal_self : (m : Metadata) → metadata_equal m m ≡ true
unfolding metadata_equal
metadata_equal_self m = ground (
  arith,
  int_eq_self m.mtime,
  int_eq_self m.mtime_nsec,
  int_eq_self m.ctime,
  int_eq_self m.ctime_nsec,
)

-- `metadata_equal` holds exactly when all eleven compared fields agree.
pub metadata_equal_iff : (m n : Metadata) → (metadata_equal m n ≡ true) ↔ (m ≡ n)
unfolding metadata_equal
metadata_equal_iff m n = (
  λ h. ground (
    arith,
    int_eq_iff m.mtime n.mtime,
    int_eq_iff m.mtime_nsec n.mtime_nsec,
    int_eq_iff m.ctime n.ctime,
    int_eq_iff m.ctime_nsec n.ctime_nsec,
  ),
  λ h. subst (λ t. metadata_equal m t ≡ true) h (metadata_equal_self m),
)

-- A file is served exactly when it is a regular file with one name.
pub final_type-none_iff :
    (m : Metadata) → (final_type m ≡ none) ↔ ((is_file m ≡ true) × (m.nlink ≡ 1))
unfolding final_type
final_type-none_iff m = (λ h. ground arith, λ h. ground arith)
