-- ===== src/Tests/Revisions.antt =====
-- The theorems on revisions and on the hash at a sample.
use emacs_relay.Common.{◌≡◌, ◌↔◌, refl, true, arith}
use emacs_relay.Fs.{ok}
use emacs_relay.Json.Tree.{tree_json, tree_json-IsLawful}
use emacs_relay.Revision.{from_metadata, is_valid_file_revision, InRange}
use emacs_relay.Revision.Valid.{IsFileRevision, is_valid_file_revision_iff}
use emacs_relay.Revision.Digest.{from_metadata-is_valid}
use emacs_relay.Revision.Wire.{to_value, from_value}
use emacs_relay.Revision.Wire.RoundTrip.{from_value-to_value}
use emacs_relay.Sha256.{sha256}
use emacs_relay.Tests.Samples.{regular, abc, abc_revision}

abbrev J : emacs_relay.Json.Json
J = tree_json

abc_valid : is_valid_file_revision abc_revision ≡ true
unfolding is_valid_file_revision
abc_valid = refl

pub abc_range : InRange abc_revision
abc_range = record {
  schema = omega arith;
  dev = omega arith;
  ino = omega arith;
  size = omega arith;
  mtime_sec = omega arith;
  mtime_nsec = omega arith;
  ctime_sec = omega arith;
  ctime_nsec = omega arith;
  mode = omega arith;
}

from_value-to_value_example : from_value J (to_value J abc_revision) ≡ ok abc_revision
from_value-to_value_example =
    from_value-to_value J tree_json-IsLawful abc_revision abc_range abc_valid

from_metadata-is_valid_example : is_valid_file_revision (from_metadata regular (sha256 abc)) ≡ true
from_metadata-is_valid_example =
    from_metadata-is_valid regular abc (5, refl, omega arith) (6, refl, omega arith)

is_valid_file_revision_iff_example :
    (is_valid_file_revision abc_revision ≡ true) ↔ IsFileRevision abc_revision
is_valid_file_revision_iff_example = is_valid_file_revision_iff abc_revision
