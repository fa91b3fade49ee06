-- ===== src/Handlers/Expected.antt =====
-- The revision of a `read` reply, sent back as the `expected_revision` of a write: both ends are in
-- server/src/fs_handlers.rs.
use emacs_relay.Common.{◌≡◌, sym, ap, subst, ◌∙◌, Option, none, some, true}
use emacs_relay.Fs.{FilePath, World, ok}
use emacs_relay.Fs.Kept.{IsTimed}
use emacs_relay.Json.{Json, IsLawful}
use emacs_relay.Json.Object.{field, field-object}
use emacs_relay.Revision.{
  Revision, RevisionRead, ExpectedRevision, InRange, is_valid_file_revision, from_metadata,
}
use emacs_relay.Revision.Valid.{IsNsec}
use emacs_relay.Revision.Digest.{from_metadata-is_valid}
use emacs_relay.Revision.Wire.{and_then, from_value, to_value}
use emacs_relay.Revision.Wire.RoundTrip.{from_value-to_value}
use emacs_relay.Read.{read_with_revision}
use emacs_relay.Read.Stable.{read_with_revision-Describes}
use emacs_relay.Control.{Host}
use emacs_relay.Handlers.{Base64}
use emacs_relay.Handlers.Requests.{
  read_value, expected_present, expected_of_value, expected_by, expected_revision_from_request,
}

-- What the revision of a read passes, whichever metadata it was made of.
IsTimely : Revision → Type 0
IsTimely r = IsNsec r.mtime_nsec → IsNsec r.ctime_nsec → is_valid_file_revision r ≡ true

read-is_valid :
    (path : FilePath) (w : World) {read : RevisionRead} {v : World}
    → IsTimed w.env
    → read_with_revision path w ≡ (ok read, v)
    → IsTimely read.revision
unfolding IsTimely
read-is_valid path w {read} {v} timed h =
    let (fd, d) = read_with_revision-Describes path w timed h in
    subst IsTimely (sym d.2)
      (unfold from_metadata in from_metadata-is_valid (v.fs.inodes fd).metadata read.bytes)

module _ (J : Json) (L : IsLawful J) (host : Host) (B : Base64) where
  of_value :
      (req : J.Value) (r : Revision) (o : Option J.Value)
      → from_value J (to_value J r) ≡ ok r
      → o ≡ some (to_value J r)
      → expected_of_value J host B o ≡ ok (some (ExpectedRevision.present r))
  of_value req r o h e = ap (expected_of_value J host B) e ∙ ap (expected_present J host B) h

  -- If every change of a file moves its change time, and the kernel's numbers are within their widths with
  -- nanosecond counts below 10 ^ 9: a write that has no `expected_state` and sends back the revision of a
  -- `read` reply expects exactly the revision that was read.
  pub expected_revision-read_value :
      (path : FilePath) (w : World) {read : RevisionRead} {v : World} (req : J.Value)
      → IsTimed w.env
      → read_with_revision path w ≡ (ok read, v)
      → InRange read.revision
      → IsNsec read.revision.mtime_nsec
      → IsNsec read.revision.ctime_nsec
      → field J req "expected_state" ≡ none
      → field J req "expected_revision" ≡ field J (read_value J host B read) "revision"
      → expected_revision_from_request J host B req
        ≡ ok (some (ExpectedRevision.present read.revision))
  unfolding expected_revision_from_request IsTimely
  expected_revision-read_value path w {read} req timed h range hm hc state same =
      ap (λ s. expected_by J host B req (and_then s J.as_str)) state
      ∙ of_value req read.revision (field J req "expected_revision")
          (from_value-to_value J L read.revision range (read-is_valid path w timed h hm hc))
          (same ∙ field-object J L _ "revision")
