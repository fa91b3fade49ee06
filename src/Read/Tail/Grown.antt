-- ===== src/Read/Tail/Grown.antt =====
-- A file to which others only append while `tail_read` of server/src/revisions/read.rs runs.
use emacs_relay.Common.{
  ℕ, ◌≤◌, ◌≡◌, refl, ap, sym, subst, ◌∙◌, arith, List, [], some, ◌++◌, append-nil, append_assoc,
  length, length-append, StandsAt, StandsAt-append,
}
use emacs_relay.Fs.{FilePath, FileSystem, Tick, World, Result, ok, err}
use emacs_relay.Fs.Calls.{step}
use emacs_relay.Fs.Keeps.{Relation, IsPreorder}

module _ {E A : Type 0} where
  abbrev OnOk : (A → World → Type 0) → Result E A × World → Type 0
  OnOk P (ok a, v) = P a v
  OnOk P (err e, v) = Unit {0}

  -- What holds of a computation that returns what it has.
  pub at_end :
      (P : A → World → Type 0) (a b : A) (w v : World)
      → P a w
      → ◌≡◌ {A = Result E A × World} (ok a, w) (ok b, v)
      → P b v
  at_end P a b w v h e = subst (OnOk P) e h

module _ (path : FilePath) (i : ℕ) where
  -- The path keeps its file, which keeps its identity and its bytes and has more behind them.
  pub record Grown (fs fs' : FileSystem) : Type 0 where
    pub named : fs.names path ≡ some i → fs'.names path ≡ some i
    pub more : List ℕ
    pub grows : (fs'.inodes i).bytes ≡ (fs.inodes i).bytes ++ more
    pub dev : (fs'.inodes i).metadata.dev ≡ (fs.inodes i).metadata.dev
    pub ino : (fs'.inodes i).metadata.ino ≡ (fs.inodes i).metadata.ino
    pub sized :
        (fs.inodes i).metadata.size ≡ length (fs.inodes i).bytes
        → (fs'.inodes i).metadata.size ≡ length (fs'.inodes i).bytes

  -- Whatever others do between two calls, to that file they only append.
  pub record IsAppending (env : ℕ → Tick) : Type 0 where
    pub appends : (n : ℕ) (fs : FileSystem) → Grown fs ((env n).change fs)

  pub Grown-refl : (fs : FileSystem) → Grown fs fs
  Grown-refl fs = record {
    named = λ e. e;
    more = [];
    grows = sym (append-nil (fs.inodes i).bytes);
    dev = refl;
    ino = refl;
    sized = λ e. e;
  }

  pub Grown-trans : (f g h : FileSystem) → Grown f g → Grown g h → Grown f h
  Grown-trans f g h a b = record {
    named = λ e. b.named (a.named e);
    more = a.more ++ b.more;
    grows = b.grows ∙ ap (λ x. x ++ b.more) a.grows ∙ append_assoc (f.inodes i).bytes a.more b.more;
    dev = b.dev ∙ a.dev;
    ino = b.ino ∙ a.ino;
    sized = λ e. b.sized (a.sized e);
  }

  -- What a run of calls that only look does to the file.
  abbrev pub Appended : Relation
  Appended u v = (v.env ≡ u.env) × (IsAppending u.env → Grown u.fs v.fs)

  pub Appended-IsPreorder : IsPreorder Appended
  Appended-IsPreorder = record {
    self = λ w. (refl, λ h. Grown-refl w.fs);
    chain = λ u v w a b.
        (b.0 ∙ a.0, λ h. Grown-trans u.fs v.fs w.fs (a.1 h) (b.1 (subst IsAppending (sym a.0) h)));
  }

  pub Appended-step : (w : World) → Appended w (step w)
  Appended-step w = (refl, λ h. h.appends w.now w.fs)

  -- A piece stays where it was read.
  pub StandsAt-Grown :
      (piece : List ℕ) (offset : ℕ) (fs fs' : FileSystem)
      → Grown fs fs'
      → StandsAt piece offset (fs.inodes i).bytes
      → StandsAt piece offset (fs'.inodes i).bytes
  StandsAt-Grown piece offset fs fs' g h =
      subst (StandsAt piece offset) (sym g.grows)
        (StandsAt-append piece offset (fs.inodes i).bytes g.more h)

  pub length-Grown :
      (fs fs' : FileSystem)
      → Grown fs fs'
      → length (fs.inodes i).bytes ≤ length (fs'.inodes i).bytes
  length-Grown fs fs' g = omega (arith, ap length g.grows, length-append (fs.inodes i).bytes g.more)
