-- ===== src/Handlers/Footprint/Directories.antt =====
-- What `create_dir_all` of std::fs, which `mkdir` of server/src/fs_handlers.rs calls, may change.
use emacs_relay.Common.{ℕ, zero, suc, ◌≡◌, refl, Option, none, some, parent, str_eq}
use emacs_relay.Fs.{
  FilePath, ErrorKind, not_found, already_exists, other, Effect, made, IoError, World, Result, ok,
  err, M, outcome,
}
use emacs_relay.Fs.Directories.{
  unless_dir, settled, settled_or, made_or, parent_or, create_dirs, create_dir_all,
}
use emacs_relay.Fs.Files.{}
use emacs_relay.Fs.Keeps.{
  Keeps, Keeps-intro, Keeps-apply, Keeps-pure, Keeps-raise, Keeps->>=, Keeps-if,
}
use emacs_relay.Handlers.Footprint.{Above, here, up, Grew, Grew-IsPreorder}
use emacs_relay.Handlers.Footprint.Calls.{Keeps-is_dir_at, Keeps-require, Keeps-create_dir}

module _ (P : Effect → Type 0) where
  abbrev R : World → World → Type 0
  R = Grew P

  Keeps-outcome : (F : Type 0) {E A : Type 0} (m : M E A) → Keeps R m → Keeps R (outcome {F = F} m)
  unfolding outcome
  Keeps-outcome F m h = Keeps-intro R _ (Keeps-apply R m h)

  -- The directories above a path.
  Keeps-unless_dir : (path : FilePath) (e : IoError) → Keeps R (unless_dir path e)
  Keeps-unless_dir path e =
      Keeps->>= R (Grew-IsPreorder P) _ _ (Keeps-is_dir_at P path) λ there. Keeps-require P there e

  Keeps-settled : (path : FilePath) (r : Result IoError (Unit {0})) → Keeps R (settled path r)
  Keeps-settled path (ok _) = Keeps-pure R (Grew-IsPreorder P) IoError tt
  Keeps-settled path (err e) = Keeps-unless_dir path e

  Keeps-settled_or :
      (climb : M IoError (Unit {0})) (path : FilePath) (e : IoError) (kind : ErrorKind)
      → Keeps R climb
      → Keeps R (settled_or climb path e kind)
  Keeps-settled_or climb path e not_found h = h
  Keeps-settled_or climb path e already_exists h = Keeps-unless_dir path e
  Keeps-settled_or climb path e other h = Keeps-unless_dir path e

  Keeps-made_or :
      (climb : M IoError (Unit {0})) (path : FilePath) (r : Result IoError (Unit {0}))
      → Keeps R climb
      → Keeps R (made_or climb path r)
  Keeps-made_or climb path (ok _) h = Keeps-pure R (Grew-IsPreorder P) IoError tt
  Keeps-made_or climb path (err e) h = Keeps-settled_or climb path e e.kind h

  module _ (root : FilePath) (may : (p : FilePath) → Above root p → P (made p)) where
    Keeps-parent_or :
        (make : FilePath → M IoError (Unit {0})) (path : FilePath)
        → ((q : FilePath) → Above root q → Keeps R (make q))
        → Above root path
        → (o : Option FilePath) → parent path ≡ o
        → Keeps R (parent_or make o)
    Keeps-parent_or make path h a none e = Keeps-raise R (Grew-IsPreorder P) (Unit {0}) _
    Keeps-parent_or make path h a (some q) e = h q (up a e)

    Keeps-create_dirs :
        (rounds : ℕ) (path : FilePath) → Above root path → Keeps R (create_dirs rounds path)
    unfolding create_dirs
    Keeps-create_dirs zero path a = Keeps-pure R (Grew-IsPreorder P) IoError tt
    Keeps-create_dirs (suc rounds) path a =
        let Q = Grew-IsPreorder P in
        let make = Keeps-outcome IoError _ (Keeps-create_dir P path (may path a)) in
        Keeps-if R Q (str_eq path "") _ _ (Keeps-pure R Q IoError tt) (
          Keeps->>= R Q _ _ make λ r. Keeps-made_or _ path r (
            Keeps->>= R Q _ _
              (Keeps-parent_or (create_dirs rounds) path (λ q b. Keeps-create_dirs rounds q b) a
                (parent path) refl)
              λ _. Keeps->>= R Q _ _ make λ r. Keeps-settled path r))

    pub Keeps-create_dir_all : Keeps R (create_dir_all root)
    unfolding create_dir_all
    Keeps-create_dir_all = Keeps-create_dirs _ root here
