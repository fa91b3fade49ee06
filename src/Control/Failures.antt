-- ===== src/Control/Failures.antt =====
-- "watch" of server/src/control.rs where the directory is not watched in the end.
use emacs_relay.Common.{
  ◌≡◌, refl, ◌<>◌, String, true, false, Option, none, some, [], ◌∷◌, eq_refl, arith,
}
use emacs_relay.Fs.{ok, err}
use emacs_relay.Control.{Table, Control, Host, contains_key, add_alias, watch}
use emacs_relay.Control.Table.{remove_key-add_alias}
use emacs_relay.Control.RoundTrip.{canonical}

contains_key-add_alias :
    (canon path : String) (t : Table) → contains_key canon (add_alias canon path t) ≡ true
contains_key-add_alias canon path [] = ground (arith, eq_refl canon)
contains_key-add_alias canon path ((k, aliases) ∷ rest) =
    ground (arith, contains_key-add_alias canon path rest)

-- A directory that the watcher does not take is reported as an error, and the table is as it was before.
pub watch-rejected :
    (host : Host) (accept : String → Option String) (path : String) (s : Control) (e : String)
    → host.watcher ≡ some accept
    → accept (canonical host path) ≡ some e
    → contains_key (canonical host path) s.watched ≡ false
    → watch host path s ≡ (err ("watch: " <> e), s)
unfolding watch
watch-rejected host accept path s e there refuses fresh =
    let canon = canonical host path in
    rw (fresh, there, refuses)
      (λ i. (
        err ("watch: " <> e),
        record {
          watched = remove_key-add_alias canon path s.watched fresh i;
          registered = s.registered;
        },
      ))

-- Without a watcher the first "watch" of a directory is an error, but it leaves the directory in the table,
-- so that the same request a second time is answered as a success although nothing watches.
pub watch-unwatched :
    (host : Host) (path : String) (s : Control)
    → host.watcher ≡ none
    → contains_key (canonical host path) s.watched ≡ false
    → ((watch host path s).0 ≡ err "no watcher available")
      × ((watch host path (watch host path s).1).0 ≡ ok tt)
      × ((watch host path s).1.registered ≡ s.registered)
unfolding watch
watch-unwatched host path s there fresh =
    let canon = canonical host path in
    let known = contains_key-add_alias canon path s.watched in
    (rw (fresh, there) refl, rw (fresh, there, known) refl, rw (fresh, there) refl)
