-- ===== src/Tests/Saved.antt =====
-- A write request at a sample, from the request to the file.
use emacs_relay.Common.{List, ◌++◌, All}
use emacs_relay.Fs.{Effect}
use emacs_relay.Fs.Keeps.{Keeps-raise}
use emacs_relay.Control.{text_of}
use emacs_relay.Handlers.Requests.{path_of}
use emacs_relay.Handlers.Footprint.{Grew, Grew-IsPreorder}
use emacs_relay.Handlers.Footprint.Whole.{MayChange, handle_fs-MayChange}
use emacs_relay.Common.{◌≡◌, refl, some, [], ◌∷◌, pos, arith}
use emacs_relay.Fs.{FilePath, World, Result}
use emacs_relay.Json.Object.{object, field, insert_all}
use emacs_relay.Json.Tree.{tree_json-IsLawful}
use emacs_relay.Revision.{ExpectedRevision, ConditionalWrite, RevisionError}
use emacs_relay.Revision.Wire.{to_value}
use emacs_relay.Write.Calm.Refused.{refusal}
use emacs_relay.Write.Swap.Refines.{contents_of, swap, Agrees}
use emacs_relay.Framing.{expand_home, finish_revision}
use emacs_relay.Handlers.Dispatch.{handle_fs}
use emacs_relay.Handlers.Expected.{expected_revision-read_value}
use emacs_relay.Handlers.Saved.{IsWrite, answer_value, handle_fs-Refines}
use emacs_relay.Tests.Samples.{abc, abc_revision, start, start-IsTimed}
use emacs_relay.Tests.Revisions.{abc_range}
use emacs_relay.Tests.Reads.{read_ok}
use emacs_relay.Tests.Calm.{start-IsCalm, start-IsNumbered, apart_f, free_t}
use emacs_relay.Tests.Handlers.{J, host, coded, no_exec, listens, empty_channel}

abbrev write_f : J.Value
write_f = object J (
    ("id", J.signed (pos 5))
    ∷ ("op", J.text "write")
    ∷ ("path", J.text "/d/f")
    ∷ ("bytes_b64", J.text "YWJj")
    ∷ ("expected_revision", to_value J abc_revision)
    ∷ [])

write_f-IsWrite :
    IsWrite J host coded no_exec listens write_f "/d/f" (ExpectedRevision.present abc_revision) abc
unfolding object field insert_all expand_home
write_f-IsWrite = record {
  encoded = "YWJj";
  op = refl;
  at_path = refl;
  appends = refl;
  creates = refl;
  expects =
      expected_revision-read_value J tree_json-IsLawful host coded "/d/f" start write_f
        start-IsTimed read_ok abc_range (5, refl, omega arith) (6, refl, omega arith) refl refl;
  sends = refl;
  decodes = refl;
}

handle_fs-Refines_example :
    let allowed = refusal abc (ExpectedRevision.present abc_revision) start.fs (some 4) in
    (r : Result RevisionError ConditionalWrite) × (v : World) × (handle_fs J host coded no_exec
        listens write_f empty_channel start
      ≡ (finish_revision J empty_channel (pos 5) (answer_value J host coded no_exec listens r), v))
    × Agrees v.fs "/d/f" abc r allowed
    × ((q : FilePath) → contents_of v.fs q ≡ swap allowed "/d/f" abc (contents_of start.fs) q)
unfolding object field insert_all
handle_fs-Refines_example =
    handle_fs-Refines J host coded no_exec listens write_f "/d/f"
      (ExpectedRevision.present abc_revision) abc empty_channel start apart_f free_t
      start-IsNumbered start-IsCalm refl write_f-IsWrite

abbrev WriteChanges : Effect → Type 0
WriteChanges =
    MayChange J 42 write_f (text_of J host write_f "op") (path_of J host coded write_f "path")
      (path_of J host coded write_f "to")

handle_fs-MayChange_example :
    (new : List Effect) × ((handle_fs J host coded no_exec listens write_f empty_channel
        start).1.log
      ≡ new ++ [])
    × All WriteChanges new
handle_fs-MayChange_example =
    handle_fs-MayChange J host coded no_exec listens write_f empty_channel start
      (λ r. Keeps-raise (Grew WriteChanges) (Grew-IsPreorder WriteChanges) J.Value _) refl

abbrev read_f : J.Value
read_f = object J (("id", J.signed (pos 6)) ∷ ("op", J.text "read") ∷ ("path", J.text "/d/f") ∷ [])
