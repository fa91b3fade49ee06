-- ===== src/Tests/Server.antt =====
-- The theorems on replies and on the watch table at a sample.
use emacs_relay.Common.{◌≡◌, ◌≢◌, refl, none, some, Option, String, [], ◌∷◌, true, false, pos, join}
use emacs_relay.Fs.{Result, ok, err}
use emacs_relay.Json.{Json}
use emacs_relay.Json.Object.{Fields}
use emacs_relay.Json.Tree.{tree_json, tree_json-IsLawful}
use emacs_relay.Revision.{RevisionError, unstable_read}
use emacs_relay.Framing.{
  Channel, expand_home, finish, finish_revision, frame_size_allowed, max_frame_bytes,
}
use emacs_relay.Framing.Replies.{Sent, Tells, IsAnswer, finish-IsReply, finish_revision-IsAnswer}
use emacs_relay.Control.{Control, Host, watch, unwatch, handle_ctl}
use emacs_relay.Control.Requests.{IsKept, handle_ctl-IsKept}
use emacs_relay.Control.RoundTrip.{unwatch-watch}
use emacs_relay.Control.Failures.{watch-unwatched}

abbrev J : Json
J = tree_json

abbrev nothing : Fields J
nothing = []

home_examples :
    (expand_home (some "/home/u") "~" ≡ "/home/u")
    × (expand_home (some "/home/u") "~/project" ≡ "/home/u/project")
    × (expand_home (some "/home/u") "~other/project" ≡ "~other/project")
    × (expand_home none "~/project" ≡ "~/project")
unfolding expand_home join
home_examples = (refl, refl, refl, refl)

-- A second separator makes the rest absolute, and the home directory is lost.
home_lost : expand_home (some "/home/u") "~//etc/passwd" ≡ "/etc/passwd"
unfolding expand_home join
home_lost = refl

frame_examples : (frame_size_allowed max_frame_bytes ≡ true) × (frame_size_allowed 33554433 ≡ false)
unfolding frame_size_allowed
frame_examples = (refl, refl)

abbrev empty_channel : Channel J
empty_channel = []

abbrev failed : Result String (Fields J)
failed = err "unknown op"

abbrev unstable : Result RevisionError (Fields J)
unstable = err unstable_read

finish-IsReply_example :
    (v : J.Value) × Sent J empty_channel v (finish J empty_channel (pos 7) (err "unknown op"))
    × Tells J (pos 7) failed v
finish-IsReply_example = finish-IsReply J tree_json-IsLawful empty_channel (pos 7) failed

finish_revision-IsAnswer_example :
    (v : J.Value) × Sent J empty_channel v
      (finish_revision J empty_channel (pos 7) (err unstable_read))
    × IsAnswer J tree_json-IsLawful (pos 7) unstable v
finish_revision-IsAnswer_example =
    finish_revision-IsAnswer J tree_json-IsLawful empty_channel (pos 7) unstable

abbrev pub accept : String → Option String
accept path = none

abbrev refuse : String → Option String
refuse path = some "No such file or directory"

abbrev pub host_with : Option (String → Option String) → Host
host_with watcher = record {
  home = some "/home/u";
  canonicalize = λ path. none;
  watcher = watcher;
  version = "0.1.0";
  os = "linux";
  arch = "x86_64";
}

abbrev pub one : Control
one = record { watched = ("/a", "/a" ∷ []) ∷ []; registered = "/a" ∷ [] }

pub some_watcher : (host_with (some accept)).watcher ≢ none
some_watcher h = cc

unwatch-watch_example :
    unwatch (host_with (some accept)) "/b" (watch (host_with (some accept)) "/b" one).1 ≡ one
unfolding expand_home
unwatch-watch_example =
    unwatch-watch (host_with (some accept)) accept "/b" one refl refl refl refl refl

watch-unwatched_example :
    ((watch (host_with none) "/b" one).0 ≡ err "no watcher available")
    × ((watch (host_with none) "/b" (watch (host_with none) "/b" one).1).0 ≡ ok tt)
    × ((watch (host_with none) "/b" one).1.registered ≡ "/a" ∷ [])
unfolding expand_home
watch-unwatched_example = watch-unwatched (host_with none) "/b" one refl refl

abbrev request : J.Value
request = J.of_object (J.insert (J.insert J.empty "op" (J.text "watch")) "path" (J.text "/b"))

handle_ctl-IsKept_example :
    IsKept J (handle_ctl J (host_with (some accept)) request empty_channel one)
handle_ctl-IsKept_example =
    handle_ctl-IsKept J (host_with (some accept)) request empty_channel one some_watcher refl
      (tt, tt) tt
