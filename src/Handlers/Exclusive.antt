-- ===== src/Handlers/Exclusive.antt =====
-- A write that must make a new file, and a rename or a copy that must not replace one: `write_file` and
-- `handle_fs` of server/src/fs_handlers.rs.
use emacs_relay.Common.{
  ℕ, ◌≡◌, refl, ap, ◌∙◌, ◌⊎◌, inl, inr, String, ◌<>◌, Bool, true, Option, none, some, List, ◌∷◌,
}
use emacs_relay.Fs.{
  FilePath, FileSystem, Tick, Effect, created, wrote, IoError, World, Result, ok, err, ◌>>=◌,
  map_err, result_map_err, continue,
}
use emacs_relay.Fs.Calls.{seen, step, answer, settle, mutate, create_new, file_exists}
use emacs_relay.Fs.Names.{write_all}
use emacs_relay.Json.{Json}
use emacs_relay.Control.{Host}
use emacs_relay.Handlers.{Base64}
use emacs_relay.Handlers.Requests.{write_new, write_as, write_file}

abbrev Failed : {E A : Type 0} → Result E A → Type 0
Failed (ok a) = ⊥
Failed (err e) = Unit {0}

-- What a run from `w` did: nothing, or it made the file where nothing had the name, and wrote to it.
abbrev pub Exclusive : FilePath → World → Result String (Unit {0}) × World → Type 0
Exclusive path w (r, v) =
    ((v.log ≡ w.log) × Failed r)
    ⊎ (((seen w).names path ≡ none)
        × (((v.log ≡ created path ∷ w.log) × Failed r)
            ⊎ ((v.log ≡ wrote path ∷ created path ∷ w.log) × (r ≡ ok tt))))

-- A call that changes the file system fails and leaves it alone, or succeeds and is logged.
mutate_elim :
    {A : Type 0} (P : Result IoError A × World → Type 0) (effect : Effect)
    (f : Tick → FileSystem → Result IoError (A × FileSystem)) (w : World)
    → ((e : IoError) → P (err e, step w))
    → ((a : A) (fs : FileSystem)
        → f (w.env w.now) (seen w) ≡ ok (a, fs)
        → P (ok a, record (step w) { fs = fs; log = effect ∷ w.log }))
    → P (mutate effect f w)
unfolding mutate
mutate_elim {A} P effect f w on_err on_ok = go (w.env w.now).fault (f (w.env w.now) (seen w)) refl
  where
    go :
        (fault : Option IoError) (r : Result IoError (A × FileSystem))
        → f (w.env w.now) (seen w) ≡ r
        → P (settle effect (answer fault r) (step w))
    go (some e) r h = on_err e
    go none (err e) h = on_err e
    go none (ok (a, fs)) h = on_ok a fs h

free_name :
    {A : Type 0} (o : Option ℕ) (r : Result IoError A) (a : A)
    → elim o as (λ _. Result IoError A) [ some i ↦ err file_exists | none ↦ r ] ≡ ok a
    → o ≡ none
free_name none r a h = refl
free_name (some i) r a h = cc

-- The outcome of the creation, and of the write after it.
abbrev Created : FilePath → World → Result IoError ℕ × World → Type 0
Created path w (err e, v) = v.log ≡ w.log
Created path w (ok fd, v) = (v.log ≡ created path ∷ w.log) × ((seen w).names path ≡ none)

create_new-Created : (path : FilePath) (w : World) → Created path w (create_new path w)
unfolding create_new
create_new-Created path w =
    mutate_elim (Created path w) (created path) _ w (λ e. refl)
      λ fd fs made. (refl, free_name ((seen w).names path) _ (fd, fs) made)

abbrev Wrote : FilePath → World → Result IoError (Unit {0}) × World → Type 0
Wrote path w (err e, v) = v.log ≡ w.log
Wrote path w (ok _, v) = v.log ≡ wrote path ∷ w.log

write_all-Wrote :
    (path : FilePath) (fd : ℕ) (bytes : List ℕ) (w : World)
    → Wrote path w (write_all path fd bytes w)
unfolding write_all
write_all-Wrote path fd bytes w =
    mutate_elim (Wrote path w) (wrote path) _ w (λ e. refl) λ a fs made. refl

module _ (path : FilePath) (w : World) (f : IoError → String) where
  written :
      (r : Result IoError (Unit {0})) (u v : World)
      → u.log ≡ created path ∷ w.log
      → (seen w).names path ≡ none
      → Wrote path u (r, v)
      → Exclusive path w (result_map_err f r, v)
  written (ok _) u v made free h = inr (free, inr (h ∙ ap (λ l. wrote path ∷ l) made, refl))
  written (err e) u v made free h = inr (free, inl (h ∙ made, tt))

  made_first :
      (bytes : List ℕ) (r : Result IoError ℕ) (v : World)
      → Created path w (r, v)
      → Exclusive path w
          (continue (result_map_err f r) (λ fd. map_err f (write_all path fd bytes)) v)
  unfolding map_err
  made_first bytes (ok fd) v h =
      written (write_all path fd bytes v).0 v (write_all path fd bytes v).1 h.0 h.1
        (write_all-Wrote path fd bytes v)
  made_first bytes (err e) v h = inl (h, tt)

module _ (J : Json) (host : Host) (B : Base64) where
  write_new-Exclusive :
      (path : FilePath) (bytes : List ℕ) (w : World)
      → Exclusive path w (write_new J host B path bytes w)
  unfolding ◌>>=◌ map_err
  write_new-Exclusive path bytes w =
      made_first path w (λ e. "write(create new): " <> e.shown) bytes (create_new path w).0
        (create_new path w).1 (create_new-Created path w)

  -- Whatever fails and whatever others do meanwhile: a write that must make a new file makes no change of
  -- its own where the path had a name already when it came to create the file; and where it makes one,
  -- it has created the file under a name that was free, and then at most written to it once. It
  -- succeeds only when it has done both.
  pub write_file-Exclusive :
      (path : FilePath) (b64 : String) (append : Bool) (w : World)
      → Exclusive path w (write_file J host B path b64 append true w)
  unfolding write_file ◌>>=◌
  write_file-Exclusive path b64 append w = go (B.decode b64)
    where
      go :
          (r : Result String (List ℕ))
          → Exclusive path w (
              continue
                (result_map_err (λ e. "write decode: " <> e) r)
                (λ bytes. write_as J host B append true path bytes)
                w)
      go (ok bytes) = write_new-Exclusive path bytes w
      go (err e) = inl (refl, tt)
