-- ===== src/Handlers/Footprint/Operations.antt =====
-- What the operations with one plain reply in `handle_fs` of server/src/fs_handlers.rs may change.
use emacs_relay.Common.{on_test, ℕ, ◌≡◌, String, Bool, true, false, str_eq, eq_iff}
use emacs_relay.Fs.{FilePath, Effect, World, M}
use emacs_relay.Fs.Keeps.{Keeps, Keeps-pure, Keeps-raise, Keeps->>=}
use emacs_relay.Json.{Json}
use emacs_relay.Control.{Host}
use emacs_relay.Handlers.{Base64}
use emacs_relay.Handlers.Requests.{path_of}
use emacs_relay.Handlers.Dispatch.{run_fs}
use emacs_relay.Handlers.Looks.{Keeps-stat_value, Keeps-resolve}
use emacs_relay.Handlers.Footprint.{
  Touches, write_creates, write_opens, write_empties, write_bytes, mkdir_makes, rmdir_removes,
  rmdir_tree, rmdir_link, delete_removes, rename_moves, copy_empties, copy_permits, copy_bytes,
  Grew, Grew-IsPreorder, Grew-step,
}
use emacs_relay.Handlers.Footprint.Requests.{
  Keeps-legacy_write, Keeps-mkdir_request, Keeps-rmdir_request, Keeps-delete_request,
  Keeps-rename_request, Keeps-copy_request,
}

pub is : (op name : String) → str_eq op name ≡ true → op ≡ name
is op name h = (eq_iff op name).0 h

pub is_not : (op name : String) → str_eq op name ≡ false → ¬ (op ≡ name)
is_not op name h e = let same = (eq_iff op name).1 e in cc

module _ (J : Json) (host : Host) (B : Base64) (exec : J.Value → M String J.Value)
    (listening : ℕ → Bool) (P : Effect → Type 0)
    (runs : (req : J.Value) → Keeps (Grew P) (exec req)) where
  abbrev R : World → World → Type 0
  R = Grew P

  pub Keeps-run_fs :
      (op : String) (req : J.Value) (path : FilePath)
      → ((e : Effect) → Touches op path (path_of J host B req "to") e → P e)
      → Keeps R (run_fs J host B exec listening op req path)
  unfolding run_fs
  Keeps-run_fs op req path may =
      let Q = Keeps {E = String} {A = J.Value} R in
      let O = Grew-IsPreorder P in
      on_test Q (str_eq op "stat") _ _
        (λ _.
          Keeps->>= R O _ _ (Keeps-stat_value R O (Grew-step P) J String path)
            λ attrs. Keeps-pure R O String _)
        λ _.
          on_test Q (str_eq op "resolve") _ _ (λ _. Keeps-resolve R O (Grew-step P) J path)
            λ _.
              on_test Q (str_eq op "exec") _ _ (λ _. runs req)
                λ _.
                  on_test Q (str_eq op "write") _ _
                    (λ h.
                      let w = is op "write" h in
                      Keeps-legacy_write P J host B req path (may _ (write_creates w))
                        (may _ (write_opens w)) (may _ (write_empties w)) (may _ (write_bytes w)))
                    λ _.
                      on_test Q (str_eq op "mkdir") _ _
                        (λ h.
                          Keeps-mkdir_request P J host B req path
                            λ p above. may _ (mkdir_makes (is op "mkdir" h) above))
                        λ _.
                          on_test Q (str_eq op "rmdir") _ _
                            (λ h.
                              let r = is op "rmdir" h in
                              Keeps-rmdir_request P J host B req path (may _ (rmdir_removes r))
                                (may _ (rmdir_tree r)) (may _ (rmdir_link r)))
                            λ _.
                              on_test Q (str_eq op "delete") _ _
                                (λ h.
                                  Keeps-delete_request P J host B path
                                    (may _ (delete_removes (is op "delete" h))))
                                λ _.
                                  on_test Q (str_eq op "rename") _ _
                                    (λ h.
                                      Keeps-rename_request P J host B req path
                                        (may _ (rename_moves (is op "rename" h))))
                                    λ _.
                                      on_test Q (str_eq op "copy") _ _
                                        (λ h.
                                          let c = is op "copy" h in
                                          Keeps-copy_request P J host B req path
                                            (may _ (copy_empties c)) (may _ (copy_permits c))
                                            (may _ (copy_bytes c)))
                                        λ _. Keeps-raise R O J.Value _
