-- ===== src/Fs/Keeps.antt =====
-- Relations between the world before a computation and the world after it, on every outcome: what
-- holds of each system call holds of whatever is chained from them.
use emacs_relay.Common.{
  ℕ, zero, suc, ◌+◌, ◌-◌, ◌==◌, length, ◌++◌, ◌≡◌, refl, ap, subst, Option, none, some, Bool, true,
  false, if◌then◌else◌, List, [], ◌∷◌,
}
use emacs_relay.Fs.{
  IoError, FileSystem, FilePath, Tick, Effect, World, Result, ok, err, M, pure, raise, ◌>>=◌,
  map_err, continue,
}
use emacs_relay.Fs.Calls.{
  seen, step, answer, settle, query, mutate, symlink_metadata, open_nofollow, file_metadata,
  read_some, read_on, read_rounds, read_to_end,
}

abbrev pub Relation : Type 1
Relation = World → World → Type 0

pub record IsPreorder (R : Relation) : Type 0 where
  pub self : (w : World) → R w w
  pub chain : (u v w : World) → R u v → R v w → R u w

-- Whatever `m` returns, and from whatever world it starts.
unfoldable pub Keeps : {E A : Type 0} → Relation → M E A → Type 0
Keeps R m = (w : World) → R w (m w).1

module _ {E A : Type 0} (R : Relation) (m : M E A) where
  pub Keeps-intro : ((w : World) → R w (m w).1) → Keeps R m
  unfolding Keeps
  Keeps-intro h = h

  pub Keeps-apply : Keeps R m → (w : World) → R w (m w).1
  unfolding Keeps
  Keeps-apply h = h

  pub Keeps_result : Keeps R m → (w : World) {r : Result E A} {v : World} → m w ≡ (r, v) → R w v
  unfolding Keeps
  Keeps_result h w e = subst (R w) (ap (λ p. p.1) e) (h w)

module _ (R : Relation) (P : IsPreorder R) where
  pub Keeps-pure : (E : Type 0) {A : Type 0} (a : A) → Keeps {E = E} R (pure a)
  unfolding Keeps
  Keeps-pure E a w = P.self w

  pub Keeps-raise : (A : Type 0) {E : Type 0} (e : E) → Keeps {A = A} R (raise e)
  unfolding Keeps
  Keeps-raise A e w = P.self w

  Keeps-continue :
      {E A B : Type 0} (r : Result E A) (f : A → M E B)
      → ((a : A) → Keeps R (f a))
      → Keeps R (continue r f)
  unfolding Keeps
  Keeps-continue (ok a) f h w = h a w
  Keeps-continue (err e) f h w = P.self w

  pub Keeps->>= :
      {E A B : Type 0} (m : M E A) (f : A → M E B)
      → Keeps R m
      → ((a : A) → Keeps R (f a))
      → Keeps R (m >>= f)
  unfolding ◌>>=◌ Keeps
  Keeps->>= m f hm hf w =
      P.chain w (m w).1 (continue (m w).0 f (m w).1).1 (hm w) (Keeps-continue (m w).0 f hf (m w).1)

  pub Keeps-map_err : {E F A : Type 0} (f : E → F) (m : M E A) → Keeps R m → Keeps R (map_err f m)
  unfolding map_err Keeps
  Keeps-map_err f m h = h

  pub Keeps-if :
      {E A : Type 0} (b : Bool) (m n : M E A) → Keeps R m → Keeps R n → Keeps R (if b then m else n)
  Keeps-if true m n hm hn = hm
  Keeps-if false m n hm hn = hn

  -- A call that changes the file system, when it fails and when it succeeds.
  pub Keeps-mutate :
      {A : Type 0} (effect : Effect) (f : Tick → FileSystem → Result IoError (A × FileSystem))
      → ((w : World) → R w (step w))
      → ((w : World) (a : A) (fs : FileSystem)
          → f (w.env w.now) (seen w) ≡ ok (a, fs)
          → R w (record (step w) { fs = fs; log = effect ∷ w.log }))
      → Keeps R (mutate effect f)
  unfolding mutate Keeps
  Keeps-mutate {A} effect f others own w = go (w.env w.now).fault (f (w.env w.now) (seen w)) refl
    where
      go :
          (fault : Option IoError) (r : Result IoError (A × FileSystem))
          → f (w.env w.now) (seen w) ≡ r
          → R w (settle effect (answer fault r) (step w)).1
      go (some e) r h = others w
      go none (err e) h = others w
      go none (ok (a, fs)) h = own w a fs h

-- A relation that holds across a step in which only the others act.
module _ (R : Relation) (P : IsPreorder R) (others : (w : World) → R w (step w)) where
  pub Keeps-query : {A : Type 0} (f : Tick → FileSystem → Result IoError A) → Keeps R (query f)
  unfolding query Keeps
  Keeps-query f = others

  pub Keeps-symlink_metadata : (path : FilePath) → Keeps R (symlink_metadata path)
  unfolding symlink_metadata Keeps
  Keeps-symlink_metadata path = others

  pub Keeps-open_nofollow : (path : FilePath) → Keeps R (open_nofollow path)
  unfolding open_nofollow Keeps
  Keeps-open_nofollow path = others

  pub Keeps-file_metadata : (fd : ℕ) → Keeps R (file_metadata fd)
  unfolding file_metadata Keeps
  Keeps-file_metadata fd = others

  Keeps-read_some : (fd offset limit : ℕ) → Keeps R (read_some fd offset limit)
  unfolding read_some Keeps
  Keeps-read_some fd offset limit = others

  Keeps-read_on :
      (more : List ℕ → M IoError (List ℕ)) (acc piece : List ℕ)
      → ((p : List ℕ) → Keeps R (more p))
      → Keeps R (read_on more acc piece)
  Keeps-read_on more acc [] h = Keeps-pure R P IoError acc
  Keeps-read_on more acc (b ∷ piece) h = h (b ∷ piece)

  pub Keeps-read_rounds :
      (fuel fd offset limit : ℕ) (acc : List ℕ) → Keeps R (read_rounds fuel fd offset limit acc)
  unfolding read_rounds
  Keeps-read_rounds zero fd offset limit acc = Keeps-pure R P IoError acc
  Keeps-read_rounds (suc fuel) fd offset limit acc =
      Keeps-if R P (limit == 0) _ _ (Keeps-pure R P IoError acc) (
        Keeps->>= R P _ _ (Keeps-read_some fd offset limit) (λ piece.
          Keeps-read_on _ acc piece
            (λ p. Keeps-read_rounds fuel fd (offset + length p) (limit - length p) (acc ++ p))))

  pub Keeps-read_to_end : (fd offset limit : ℕ) → Keeps R (read_to_end fd offset limit)
  unfolding read_to_end
  Keeps-read_to_end fd offset limit = Keeps-read_rounds limit fd offset limit []
