-- ===== src/Revision/Wire/RoundTrip.antt =====
-- A revision that `to_value` writes is read back by `from_value`.
use emacs_relay.Common.{ℕ, ◌<◌, ◌^◌, ◌≡◌, ◌∙◌, refl, ap, sym, String, true, some, arith, ℤ, IsI64}
use emacs_relay.Common.{lt→ltb}
use emacs_relay.Fs.{ok}
use emacs_relay.Json.{Json, IsLawful}
use emacs_relay.Json.Object.{insert_all, get-insert_all_empty}
use emacs_relay.Revision.{
  Revision, RevisionState, RevisionKind, InRange, is_valid_file_revision, present, file,
}
use emacs_relay.Revision.Wire.{
  revision_fields, kind_text, to_value, from_object, from_value, unsigned, signed, text, checked,
}

present_only : (s : RevisionState) → RevisionState.present ≡ s
present_only RevisionState.present = refl

file_only : (k : RevisionKind) → file ≡ k
file_only file = refl

module _ (J : Json) (L : IsLawful J) where
  unsigned_field :
      (m : J.Object) (k : String) (n : ℕ)
      → n < 2 ^ 64
      → J.get m k ≡ some (J.unsigned n)
      → unsigned J m k ≡ ok n
  unsigned_field m k n h e = rw (e, L.as_u64-unsigned n h)

  signed_field :
      (m : J.Object) (k : String) (z : ℤ)
      → IsI64 z
      → J.get m k ≡ some (J.signed z)
      → signed J m k ≡ ok z
  signed_field m k z h e = rw (e, L.as_i64-signed z h)

  text_field : (m : J.Object) (k s : String) → J.get m k ≡ some (J.text s) → text J m k ≡ ok s
  text_field m k s e = rw (e, L.as_str-text s)

  from_object_lem :
      (r : Revision)
      → InRange r
      → is_valid_file_revision r ≡ true
      → from_object J (insert_all J J.empty (revision_fields J r)) ≡ ok r
  unfolding from_object
  from_object_lem r range v =
      let m = insert_all J J.empty (revision_fields J r) in
      let at = get-insert_all_empty J L in
      let fs = revision_fields J r in
      let same : record r { state = present; kind = file } ≡ r =
        λ i. record r { state = present_only r.state i; kind = file_only r.kind i } in
      rw
        (
          text_field m "state" "present" (at "state" fs),
          text_field m "kind" "file"
              (at "kind" fs ∙ ap (λ k. some (J.text (kind_text k))) (sym (file_only r.kind))),
          unsigned_field m "schema" r.schema (omega arith) (at "schema" fs),
          unsigned_field m "dev" r.dev range.dev (at "dev" fs),
          unsigned_field m "ino" r.ino range.ino (at "ino" fs),
          unsigned_field m "size" r.size range.size (at "size" fs),
          signed_field m "mtime_sec" r.mtime_sec range.mtime_sec (at "mtime_sec" fs),
          signed_field m "mtime_nsec" r.mtime_nsec range.mtime_nsec (at "mtime_nsec" fs),
          signed_field m "ctime_sec" r.ctime_sec range.ctime_sec (at "ctime_sec" fs),
          signed_field m "ctime_nsec" r.ctime_nsec range.ctime_nsec (at "ctime_nsec" fs),
          unsigned_field m "mode" r.mode (omega arith) (at "mode" fs),
          text_field m "sha256" r.sha256 (at "sha256" fs),
          lt→ltb r.schema (2 ^ 8) range.schema,
          lt→ltb r.mode (2 ^ 32) range.mode,
        )
        (ap checked same ∙ rw v)

  -- A valid revision within the widths of its fields survives the trip through its JSON form.
  pub from_value-to_value :
      (r : Revision)
      → InRange r
      → is_valid_file_revision r ≡ true
      → from_value J (to_value J r) ≡ ok r
  unfolding to_value from_value
  from_value-to_value r range v =
      rw (L.as_object-of_object (insert_all J J.empty (revision_fields J r)))
        (from_object_lem r range v)
