-- ===== src/Fs/Calm.antt =====
-- A calm environment: nobody else acts and no call fails. In it a computation has one outcome, which the
-- lemmas here follow step by step; only the count of the calls goes on.
use emacs_relay.Common.{
  ℕ, zero, suc, ◌+◌, ◌-◌, ◌==◌, ◌≡◌, refl, ap, ◌∙◌, Bool, true, false, inl, none, List, [], ◌∷◌,
  ◌++◌, length, take, drop, min, if◌then◌else◌,
}
use emacs_relay.Fs.{
  FileSystem, Tick, IoError, World, Result, ok, err, M, pure, raise, ◌>>=◌, >>=_ok, >>=_err,
  map_err, map_err_ok,
}
use emacs_relay.Fs.Calls.{answer, query, file_metadata, read_some, read_on, read_rounds}
use emacs_relay.Fs.Kept.{IsTimed}

pub record IsCalm (env : ℕ → Tick) : Type 0 where
  pub unchanged : (n : ℕ) (fs : FileSystem) → (env n).change fs ≡ fs
  pub no_fault : (n : ℕ) → (env n).fault ≡ none

pub IsCalm-IsTimed : (env : ℕ → Tick) → IsCalm env → IsTimed env
IsCalm-IsTimed env calm = record {
  kept = λ n i fs. inl (ap (λ x. x.inodes i) (calm.unchanged n fs));
}

-- From `w`, `m` answers `r`, and has changed nothing but the count.
abbrev pub Answers : {E A : Type 0} → M E A → World → Result E A → Type 0
Answers m w r = (n : ℕ) × (m w ≡ (r, record w { now = n }))

module _ {E A : Type 0} where
  pub Answers-pure : (a : A) (w : World) → Answers (pure {E = E} a) w (ok a)
  Answers-pure a w = (w.now, refl)

  pub Answers-raise : (e : E) (w : World) → Answers (raise {A = A} e) w (err e)
  Answers-raise e w = (w.now, refl)

module _ {E A B : Type 0} (m : M E A) (f : A → M E B) (w : World) where
  pub Answers->>=_ok :
      (a : A) (r : Result E B)
      → Answers m w (ok a)
      → ((n : ℕ) → Answers (f a) (record w { now = n }) r)
      → Answers (m >>= f) w r
  Answers->>=_ok a r (n, h) k = let (n', h') = k n in (n', >>=_ok m f w h ∙ h')

  pub Answers->>=_err : (e : E) → Answers m w (err e) → Answers (m >>= f) w (err e)
  Answers->>=_err e (n, h) = (n, >>=_err m f w h)

module _ {E F A : Type 0} (f : E → F) (m : M E A) (w : World) where
  pub Answers-map_err_ok : (a : A) → Answers m w (ok a) → Answers (map_err f m) w (ok a)
  Answers-map_err_ok a (n, h) = (n, map_err_ok f m w h)

module _ (w : World) (calm : IsCalm w.env) where
  pub Answers-query :
      {A : Type 0} (f : Tick → FileSystem → Result IoError A)
      → Answers (query f) w (f (w.env w.now) w.fs)
  unfolding query
  Answers-query f = (
    suc w.now,
    λ i. (
      answer (calm.no_fault w.now i) (f (w.env w.now) (calm.unchanged w.now w.fs i)),
      record w { fs = calm.unchanged w.now w.fs i; now = suc w.now },
    ),
  )

  pub Answers-file_metadata : (fd : ℕ) → Answers (file_metadata fd) w (ok (w.fs.inodes fd).metadata)
  unfolding file_metadata query
  Answers-file_metadata fd = Answers-query (λ t fs. ok (fs.inodes fd).metadata)

-- The loop of `read_to_end` comes to an end.
abbrev pub Ends : M IoError (List ℕ) → World → Type 0
Ends m w = (out : List ℕ) × Answers m w (ok out)

Ends-if :
    (b : Bool) (m n : M IoError (List ℕ)) (w : World)
    → Ends m w
    → Ends n w
    → Ends (if b then m else n) w
Ends-if true m n w h k = h
Ends-if false m n w h k = k

Ends-read_on :
    (more : List ℕ → M IoError (List ℕ)) (acc piece : List ℕ) (w : World)
    → ((p : List ℕ) → Ends (more p) w)
    → Ends (read_on more acc piece) w
Ends-read_on more acc [] w h = (acc, Answers-pure acc w)
Ends-read_on more acc (b ∷ piece) w h = h (b ∷ piece)

pub read_rounds-Ends :
    (fuel fd offset limit : ℕ) (acc : List ℕ) (w : World)
    → IsCalm w.env
    → Ends (read_rounds fuel fd offset limit acc) w
unfolding read_rounds read_some
read_rounds-Ends zero fd offset limit acc w calm = (acc, Answers-pure acc w)
read_rounds-Ends (suc fuel) fd offset limit acc w calm =
    let more : List ℕ → M IoError (List ℕ) =
      λ p. read_rounds fuel fd (offset + length p) (limit - length p) (acc ++ p) in
    let piece = take (min limit (suc (w.env w.now).chunk)) (drop offset (w.fs.inodes fd).bytes) in
    let (n, e) =
      Answers-query w calm
        (λ t fs. ok (take (min limit (suc t.chunk)) (drop offset (fs.inodes fd).bytes))) in
    let (out, (n', e')) =
      Ends-read_on more acc piece (record w { now = n })
        λ p.
          read_rounds-Ends fuel fd (offset + length p) (limit - length p) (acc ++ p)
            (record w { now = n }) calm in
    Ends-if (limit == 0) (pure acc) (read_some fd offset limit >>= read_on more acc) w
      (acc, Answers-pure acc w)
      (out, (n', >>=_ok (read_some fd offset limit) (read_on more acc) w e ∙ e'))
