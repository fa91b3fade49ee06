-- ===== src/Handlers/Footprint/Requests.antt =====
-- What the operations of server/src/fs_handlers.rs that take the mutation lock may change.
use emacs_relay.Common.{ℕ, String, Bool, true, false, List}
use emacs_relay.Fs.{
  FilePath, Effect, created, chmoded, wrote, made, opened, emptied, removed, removed_dir,
  removed_tree, renamed, IoError, World, Result, M, lift,
}
use emacs_relay.Fs.Keeps.{
  Keeps, Keeps-intro, Keeps-pure, Keeps-raise, Keeps->>=, Keeps-map_err, Keeps-if,
}
use emacs_relay.Json.{Json}
use emacs_relay.Control.{Host}
use emacs_relay.Handlers.{Base64}
use emacs_relay.Handlers.Requests.{
  told, refuse, taken, done, write_as, write_file, legacy_write, mkdir_request, rmdir_request,
  delete_request, rename_request, copy_request, path_of, flag_of,
}
use emacs_relay.Handlers.Footprint.{Above, here, Grew, Grew-IsPreorder}
use emacs_relay.Handlers.Footprint.Calls.{
  Keeps-exists, Keeps-create_new, Keeps-write_all, Keeps-append_all, Keeps-open_append,
  Keeps-write_file_at, Keeps-rename, Keeps-remove_file, Keeps-remove_dir, Keeps-create_dir,
  Keeps-remove_dir_all, Keeps-copy,
}
use emacs_relay.Handlers.Footprint.Directories.{Keeps-create_dir_all}

module _ (P : Effect → Type 0) where
  abbrev R : World → World → Type 0
  R = Grew P

  Keeps-told : {A : Type 0} (what : String) (m : M IoError A) → Keeps R m → Keeps R (told what m)
  Keeps-told what m h = Keeps-map_err R (Grew-IsPreorder P) _ m h

  Keeps-lift : {E A : Type 0} (r : Result E A) → Keeps R (lift r)
  Keeps-lift r = Keeps-intro R _ (λ w. (Grew-IsPreorder P).self w)

  Keeps-refuse : (message : String) (b : Bool) → Keeps R (refuse message b)
  Keeps-refuse message true = Keeps-raise R (Grew-IsPreorder P) (Unit {0}) message
  Keeps-refuse message false = Keeps-pure R (Grew-IsPreorder P) String tt

  module _ (J : Json) (host : Host) (B : Base64) where
    Keeps-done : (m : M String (Unit {0})) → Keeps R m → Keeps R (done J host B m)
    Keeps-done m h =
        Keeps->>= R (Grew-IsPreorder P) _ _ h λ _. Keeps-pure R (Grew-IsPreorder P) String _

    Keeps-taken : (b : Bool) (to : FilePath) → Keeps R (taken J host B b to)
    Keeps-taken b to =
        Keeps-if R (Grew-IsPreorder P) b _ _ (Keeps-pure R (Grew-IsPreorder P) String false)
          (Keeps-exists P String to)

    Keeps-write_as :
        (append must_be_new : Bool) (path : FilePath) (bytes : List ℕ)
        → P (created path)
        → P (opened path)
        → P (emptied path)
        → P (wrote path)
        → Keeps R (write_as J host B append must_be_new path bytes)
    Keeps-write_as append must_be_new path bytes creates opens empties writes =
        let Q = Grew-IsPreorder P in
        Keeps-if R Q must_be_new _ _
          (Keeps->>= R Q _ _ (Keeps-told _ _ (Keeps-create_new P path creates))
            λ fd. Keeps-told _ _ (Keeps-write_all P path fd bytes writes))
          (Keeps-if R Q append _ _
            (Keeps->>= R Q _ _ (Keeps-told _ _ (Keeps-open_append P path opens))
              λ fd. Keeps-told _ _ (Keeps-append_all P path fd bytes writes))
            (Keeps-told _ _ (Keeps-write_file_at P path bytes empties writes)))

    pub Keeps-legacy_write :
        (req : J.Value) (path : FilePath)
        → P (created path)
        → P (opened path)
        → P (emptied path)
        → P (wrote path)
        → Keeps R (legacy_write J host B req path)
    unfolding legacy_write write_file
    Keeps-legacy_write req path creates opens empties writes =
        let Q = Grew-IsPreorder P in
        Keeps->>= R Q _ _
          (Keeps->>= R Q _ _ (Keeps-lift _)
            λ bytes. Keeps-write_as _ _ path bytes creates opens empties writes)
          λ _. Keeps-pure R Q String _

    pub Keeps-mkdir_request :
        (req : J.Value) (path : FilePath)
        → ((p : FilePath) → Above path p → P (made p))
        → Keeps R (mkdir_request J host B req path)
    unfolding mkdir_request
    Keeps-mkdir_request req path may = Keeps-done _ (
        Keeps-told _ _ (
          Keeps-if R (Grew-IsPreorder P) (flag_of J host B req "parents" false) _ _
            (Keeps-create_dir_all P path may) (Keeps-create_dir P path (may path here))))

    pub Keeps-rmdir_request :
        (req : J.Value) (path : FilePath)
        → P (removed_dir path)
        → P (removed_tree path)
        → P (removed path)
        → Keeps R (rmdir_request J host B req path)
    unfolding rmdir_request
    Keeps-rmdir_request req path one tree link = Keeps-done _ (
        Keeps-told _ _ (
          Keeps-if R (Grew-IsPreorder P) (flag_of J host B req "recursive" false) _ _
            (Keeps-remove_dir_all P path link tree) (Keeps-remove_dir P path one)))

    pub Keeps-delete_request :
        (path : FilePath) → P (removed path) → Keeps R (delete_request J host B path)
    unfolding delete_request
    Keeps-delete_request path h = Keeps-done _ (Keeps-told _ _ (Keeps-remove_file P path h))

    pub Keeps-rename_request :
        (req : J.Value) (path : FilePath)
        → P (renamed path (path_of J host B req "to"))
        → Keeps R (rename_request J host B req path)
    unfolding rename_request
    Keeps-rename_request req path h =
        let Q = Grew-IsPreorder P in
        Keeps->>= R Q _ _ (Keeps->>= R Q _ _ (Keeps-taken _ _) (Keeps-refuse _))
          λ _. Keeps-done _ (Keeps-told _ _ (Keeps-rename P path (path_of J host B req "to") h))

    pub Keeps-copy_request :
        (req : J.Value) (path : FilePath)
        → P (emptied (path_of J host B req "to"))
        → P (chmoded (path_of J host B req "to"))
        → P (wrote (path_of J host B req "to"))
        → Keeps R (copy_request J host B req path)
    unfolding copy_request
    Keeps-copy_request req path empties permits bytes =
        let Q = Grew-IsPreorder P in
        Keeps->>= R Q _ _ (Keeps->>= R Q _ _ (Keeps-taken _ _) (Keeps-refuse _)) λ _.
          Keeps-done _
            (Keeps-told _ _ (Keeps-copy P path (path_of J host B req "to") empties permits bytes))
