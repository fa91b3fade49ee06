-- ===== src/Read/Stable.antt =====
-- A successful read describes one state of the file, whatever others did meanwhile.
use emacs_relay.Common.{
  ℕ, zero, suc, ◌+◌, ◌≤◌, ◌≡◌, refl, ap, sym, subst, ◌∙◌, String, Bool, true, false, Option, none,
  some, List, length, take, drop, ◌<◌, take-length_le, length-take, is_utf8, ltb, ltb→le, arith,
}
use emacs_relay.Fs.{
  Metadata, FilePath, World, Result, ok, err, M, >>=-elim, map_err, map_err-eq-ok, ◌>>=◌, ◌>>◌,
}
use emacs_relay.Fs.Calls.{step, file_metadata, read_to_end}
use emacs_relay.Fs.Kept.{Onward-between, IsTimed}
use emacs_relay.Revision.{
  RevisionRead, RevisionError, read_attempts, max_read_bytes, too_large, from_metadata, io_error,
  final_type,
}
use emacs_relay.Revision.Facts.{metadata_equal_iff}
use emacs_relay.Read.{
  refuse_type, refuse_if, compare_samples, sample, open_checked, read_attempt, attempts, or_again,
  read_with_revision,
}
use emacs_relay.Read.ReadOnly.{
  Untouched, Untouched-IsPreorder, Untouched-step, Keeps-open_checked, Keeps-read_attempt,
}
use emacs_relay.Fs.Keeps.{Keeps, Keeps_result}
use emacs_relay.Read.Rounds.{Runs, Runs-step, Runs-IsTimed, file_metadata_ok, read_to_end_ok}
use emacs_relay.Sha256.{sha256}

pub refuse_type_ok :
    (t : Option String) (w : World) {x : Unit {0}} {v : World}
    → refuse_type t w ≡ (ok x, v)
    → (t ≡ none) × (v ≡ w)
refuse_type_ok none w h = (refl, sym (ap (λ p. p.1) h))
refuse_type_ok (some k) w h = cc

pub refuse_if_ok :
    (b : Bool) (e : RevisionError) (w : World) {x : Unit {0}} {v : World}
    → refuse_if b e w ≡ (ok x, v)
    → (b ≡ false) × (v ≡ w)
refuse_if_ok false e w h = (refl, sym (ap (λ p. p.1) h))
refuse_if_ok true e w h = cc

-- What a read claims of an inode: it is a regular file with one name, its content is the bytes, which
-- are text of the allowed size, and the revision holds its metadata and the hash of the bytes.
abbrev pub Describes : RevisionRead → ℕ → World → Type 0
Describes r fd v =
    (final_type (v.fs.inodes fd).metadata ≡ none)
    × (r.bytes ≡ (v.fs.inodes fd).bytes)
    × (r.revision ≡ from_metadata (v.fs.inodes fd).metadata (sha256 r.bytes))
    × (is_utf8 r.bytes ≡ true)
    × (length r.bytes ≤ max_read_bytes)

compare_samples_ok :
    (before after : Metadata) (bytes : List ℕ) (w : World) {r : RevisionRead} {v : World}
    → compare_samples before after bytes w ≡ (ok (some r), v)
    → (after ≡ before)
      × (is_utf8 bytes ≡ true)
      × (r.bytes ≡ bytes)
      × (r.revision ≡ from_metadata after (sha256 bytes))
      × (v ≡ w)
compare_samples_ok before after bytes w h = ground (arith, metadata_equal_iff before after)

-- A read that stopped short of its limit got the whole file.
take_whole :
    (n : ℕ) (content bytes : List ℕ) → length bytes < n → bytes ≡ take n content → bytes ≡ content
take_whole n content bytes h e =
    e ∙ take-length_le n content (omega (arith, length-take n content, ap length e))

-- Where both samples are the same, nothing happened to the inode between them.
samples_agree :
    (fd : ℕ) (before : Metadata) (bytes : List ℕ) (after : Metadata) (w u1 u2 u3 u4 v : World)
    {r : RevisionRead}
    → IsTimed w.env
    → before ≡ (w.fs.inodes fd).metadata
    → final_type before ≡ none
    → Runs fd w u1
      × (u1.fs.inodes fd ≡ w.fs.inodes fd
          → bytes ≡ take (max_read_bytes + 1) (drop 0 (w.fs.inodes fd).bytes))
    → (ltb max_read_bytes (length bytes) ≡ false) × (u2 ≡ u1)
    → (after ≡ (u3.fs.inodes fd).metadata) × (u3 ≡ step u2)
    → (final_type after ≡ none) × (u4 ≡ u3)
    → (after ≡ before)
      × (is_utf8 bytes ≡ true)
      × (r.bytes ≡ bytes)
      × (r.revision ≡ from_metadata after (sha256 bytes))
      × (v ≡ u4)
    → Describes r fd v
samples_agree fd before bytes after w u1 u2 u3 u4 v {r} timed first regular read small second
      regular' same =
    let at : v ≡ step u1 = same.4 ∙ regular'.1 ∙ second.1 ∙ ap step small.1 in
    let last : after ≡ ((step u1).fs.inodes fd).metadata =
      second.0 ∙ ap (λ u. (u.fs.inodes fd).metadata) (second.1 ∙ ap step small.1) in
    let x = w.fs.inodes fd in
    let y = (step u1).fs.inodes fd in
    let still : (u1.fs.inodes fd ≡ x) × (y ≡ u1.fs.inodes fd) =
      Onward-between x (u1.fs.inodes fd) y read.0.1
        (Runs-step fd u1 (Runs-IsTimed fd w u1 read.0 timed)).1 (sym last ∙ same.0 ∙ first) in
    let fits : length bytes ≤ max_read_bytes = ltb→le max_read_bytes (length bytes) small.0 in
    let whole : bytes ≡ x.bytes =
      take_whole (max_read_bytes + 1) x.bytes bytes (omega (arith, fits)) (read.1 still.0) in
    subst (Describes r fd) (sym at) (
      subst (λ m. final_type m ≡ none) last regular'.0,
      same.2 ∙ whole ∙ ap (λ z. z.bytes) (sym (still.1 ∙ still.0)),
      cc (same.3, last, same.2),
      cc (same.1, same.2),
      subst (λ t. length t ≤ max_read_bytes) (sym same.2) fits,
    )

-- The second half of an attempt: the file is read, and its metadata sampled again.
second_sample :
    (fd : ℕ) (before : Metadata) (w : World) {r : RevisionRead} {v : World}
    → IsTimed w.env
    → before ≡ (w.fs.inodes fd).metadata
    → final_type before ≡ none
    → (map_err (io_error "read") (read_to_end fd 0 (max_read_bytes + 1)) >>= λ bytes.
          refuse_if (ltb max_read_bytes (length bytes)) too_large
          >> (map_err (io_error "read") (file_metadata fd) >>= λ after.
              refuse_type (final_type after) >> compare_samples before after bytes))
        w
      ≡ (ok (some r), v)
    → Describes r fd v
second_sample fd before w {r} {v} timed first regular h = >>=-elim _ _ w h λ bytes u1 e1 h1.
    >>=-elim _ _ u1 h1 λ _ u2 e2 h2. >>=-elim _ _ u2 h2 λ after u3 e3 h3.
      >>=-elim _ _ u3 h3 λ _ u4 e4 h4.
        samples_agree fd before bytes after w u1 u2 u3 u4 v timed first regular
          (read_to_end_ok fd 0 (max_read_bytes + 1) w timed (map_err-eq-ok _ _ w e1))
          (refuse_if_ok _ _ u1 e2) (file_metadata_ok fd u2 (map_err-eq-ok _ _ u2 e3))
          (refuse_type_ok _ u3 e4) (compare_samples_ok before after bytes u4 h4)

sample-Describes :
    (fd : ℕ) (w : World) {r : RevisionRead} {v : World}
    → IsTimed w.env
    → sample fd w ≡ (ok (some r), v)
    → Describes r fd v
unfolding sample
sample-Describes fd w timed h = >>=-elim _ _ w h λ before u1 e1 h1. >>=-elim _ _ u1 h1 λ _ u2 e2 h2.
    >>=-elim _ _ u2 h2 λ _ u3 e3 h3.
      let (first, s1) = file_metadata_ok fd w (map_err-eq-ok _ _ w e1) in
      let (regular, s2) = refuse_type_ok _ u1 e2 in
      let (_, s3) = refuse_if_ok _ _ u2 e3 in
      let back : u3 ≡ u1 = s3 ∙ s2 in
      second_sample fd before u3 (subst (λ u. IsTimed u.env) (sym (back ∙ s1)) timed)
        (first ∙ ap (λ u. (u.fs.inodes fd).metadata) (sym back)) regular h3

pub IsTimed-later :
    {E A : Type 0} (m : M E A) (w : World) {r : Result E A} {v : World}
    → Keeps Untouched m
    → IsTimed w.env
    → m w ≡ (r, v)
    → IsTimed v.env
IsTimed-later m w keeps timed e = subst IsTimed (sym (Keeps_result Untouched m keeps w e).env) timed

abbrev ok_some : {A : Type 0} → Result RevisionError A → Result RevisionError (Option A)
ok_some (ok a) = ok (some a)
ok_some (err e) = err e

-- One attempt came back with `a`; `ih` is what holds of the attempts behind it.
again_ok :
    {A : Type 0} (Q : A → World → Type 0) (attempt : M RevisionError (Option A))
    (again : M RevisionError A) (w : World) (r : A) (v : World)
    → (attempt w ≡ (ok (some r), v) → Q r v)
    → ((u : World) → IsTimed u.env → again u ≡ (ok r, v) → Q r v)
    → (a : Option A) (u : World) → IsTimed u.env
    → attempt w ≡ (ok a, u)
    → or_again again a u ≡ (ok r, v)
    → Q r v
again_ok Q attempt again w r v each ih none u timed e rest = ih u timed rest
again_ok Q attempt again w r v each ih (some a) u timed e rest =
    each (e ∙ ap (λ p. (ok_some p.0, p.1)) rest)

-- Of a loop that succeeds, one attempt did.
pub attempts_ok :
    {A : Type 0} (Q : A → World → Type 0) (attempt : M RevisionError (Option A))
    → Keeps Untouched attempt
    → ((w : World) (r : A) (v : World) → IsTimed w.env → attempt w ≡ (ok (some r), v) → Q r v)
    → (n : ℕ) (w : World) (r : A) (v : World) → IsTimed w.env
    → attempts n attempt w ≡ (ok r, v)
    → Q r v
unfolding attempts
attempts_ok Q attempt keeps each zero w r v timed h = cc
attempts_ok Q attempt keeps each (suc n) w r v timed h =
    >>=-elim attempt (or_again (attempts n attempt)) w h λ a u e rest.
      again_ok Q attempt (attempts n attempt) w r v (each w r v timed)
        (λ u' timed'. attempts_ok Q attempt keeps each n u' r v timed') a u
        (IsTimed-later attempt w keeps timed e) e rest

-- If every change of a file moves its change time, then a revision read that succeeds describes one
-- regular file exactly as it was when it was sampled last: all its bytes, its metadata and its hash.
pub read_with_revision-Describes :
    (path : FilePath) (w : World) {r : RevisionRead} {v : World}
    → IsTimed w.env
    → read_with_revision path w ≡ (ok r, v)
    → (fd : ℕ) × Describes r fd v
unfolding read_with_revision read_attempt
read_with_revision-Describes path w {r} {v} timed h =
    attempts_ok (λ r' v'. (fd : ℕ) × Describes r' fd v') (read_attempt path)
      (Keeps-read_attempt Untouched Untouched-IsPreorder Untouched-step path)
      (λ w' r' v' timed' e. >>=-elim (open_checked path) sample w' e λ fd u opened sampled. (
        fd,
        sample-Describes fd u
            (IsTimed-later (open_checked path) w'
              (Keeps-open_checked Untouched Untouched-IsPreorder Untouched-step path) timed' opened)
            sampled,
      ))
      read_attempts w r v timed h
