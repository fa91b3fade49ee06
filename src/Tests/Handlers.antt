-- ===== src/Tests/Handlers.antt =====
-- The handlers of requests at a sample.
use emacs_relay.Common.{
  ◌≡◌, refl, none, some, Option, String, [], ◌∷◌, true, pos, ℕ, if◌then◌else◌, str_eq, ◌==◌, arith,
}
use emacs_relay.Fs.{FilePath, Inode, World, ok, M, raise}
use emacs_relay.Fs.Keeps.{Keeps, Keeps-raise}
use emacs_relay.Json.{Json}
use emacs_relay.Json.Object.{object, field, insert_all}
use emacs_relay.Json.Tree.{tree_json, tree_json-IsLawful}
use emacs_relay.Revision.{ExpectedRevision}
use emacs_relay.Read.ReadOnly.{Untouched, Untouched-IsPreorder}
use emacs_relay.Framing.{Channel}
use emacs_relay.Control.{Host}
use emacs_relay.Handlers.{Base64}
use emacs_relay.Handlers.Requests.{read_value, expected_revision_from_request}
use emacs_relay.Handlers.Dispatch.{mutates, handle_fs}
use emacs_relay.Handlers.Guarded.{handle_fs-Untouched}
use emacs_relay.Handlers.Replied.{AtMostOne, handle_fs-AtMostOne}
use emacs_relay.Handlers.Expected.{expected_revision-read_value}
use emacs_relay.Common.{Bool}
use emacs_relay.Tests.Samples.{regular, abc, abc_file, start, start-IsTimed}
use emacs_relay.Tests.Revisions.{abc_range}
use emacs_relay.Tests.Reads.{abc_read, read_ok}
use emacs_relay.Tests.Server.{host_with, accept}

abbrev pub J : Json
J = tree_json

abbrev pub host : Host
host = host_with (some accept)

-- One text for all bytes.
abbrev pub coded : Base64
coded = record { encode = λ bytes. "YWJj"; decode = λ text. ok abc }

abbrev pub no_exec : J.Value → M String J.Value
no_exec req = raise "exec: missing or non-array \"command\""

no_exec-Keeps : (req : J.Value) → Keeps Untouched (no_exec req)
no_exec-Keeps req = Keeps-raise Untouched Untouched-IsPreorder J.Value _

abbrev pub listens : ℕ → Bool
listens n = true

abbrev pub empty_channel : Channel J
empty_channel = []

abbrev pub stat_of_f : J.Value
stat_of_f =
    object J (("id", J.signed (pos 3)) ∷ ("op", J.text "stat") ∷ ("path", J.text "/d/f") ∷ [])

handle_fs-Untouched_example :
    Untouched start (handle_fs J host coded no_exec listens stat_of_f empty_channel start).1
unfolding mutates object field insert_all
handle_fs-Untouched_example =
    handle_fs-Untouched J host coded no_exec listens no_exec-Keeps stat_of_f empty_channel start
      refl

abbrev delete_f : J.Value
delete_f =
    object J (("id", J.signed (pos 4)) ∷ ("op", J.text "delete") ∷ ("path", J.text "/d/f") ∷ [])

handle_fs-AtMostOne_example :
    AtMostOne J empty_channel
      (handle_fs J host coded no_exec listens delete_f empty_channel start).0
unfolding object field insert_all
handle_fs-AtMostOne_example =
    handle_fs-AtMostOne J host coded no_exec listens delete_f empty_channel start refl

abbrev names_with_d : FilePath → Option ℕ
names_with_d path = if str_eq path "/d" then some 5 else if str_eq path "/d/f" then some 4 else none

abbrev directory : Inode
directory = record { metadata = record (regular) { mode = 0o040755 }; bytes = []; target = "" }

abbrev inode_of : ℕ → Inode
inode_of i = if i == 5 then directory else abc_file

abbrev at_d : World
at_d = record (start) { fs = record { names = names_with_d; inodes = inode_of; next = 9 } }

abbrev pub or_null : Option J.Value → J.Value
or_null none = J.null
or_null (some v) = v

abbrev sent_back : J.Value
sent_back = object J (
    ("op", J.text "write")
    ∷ ("expected_revision", or_null (field J (read_value J host coded abc_read) "revision"))
    ∷ [])

expected_revision-read_value_example :
    expected_revision_from_request J host coded sent_back
    ≡ ok (some (ExpectedRevision.present abc_read.revision))
unfolding object field insert_all
expected_revision-read_value_example =
    expected_revision-read_value J tree_json-IsLawful host coded "/d/f" start sent_back
      start-IsTimed read_ok abc_range (5, refl, omega arith) (6, refl, omega arith) refl refl
