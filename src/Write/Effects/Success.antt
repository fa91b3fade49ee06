-- ===== src/Write/Effects/Success.antt =====
-- What a successful conditional write of server/src/revisions/write.rs has seen and left behind.
use emacs_relay.Common.{ℕ, ◌≡◌, refl, ap, sym, subst, Option, none, List}
use emacs_relay.Fs.{
  Metadata, FilePath, World, Result, ok, err, M, >>=-elim, map_err-eq-ok, raise, IoError, ErrorKind,
  not_found, already_exists, other,
}
use emacs_relay.Fs.Calls.{seen}
use emacs_relay.Fs.Names.{hard_link, sync_all, write_all}
use emacs_relay.Fs.Kept.{IsTimed}
use emacs_relay.Fs.Keeps.{Keeps, Keeps-apply}
use emacs_relay.Revision.{Revision, ExpectedRevision, missing}
use emacs_relay.Write.{
  conflict_for_existing, publish, stage, set_pending, linked_or, collided,
  missing_appearance_conflict, preserve_metadata,
}
use emacs_relay.Fs.{outcome}
use emacs_relay.Write.Effects.{Confined, Gives, OkIs}
use emacs_relay.Write.Effects.Steps.{Own, Keeps-preserve_metadata, Keeps-write_all, Keeps-sync_all}
use emacs_relay.Write.Effects.Checked.{Found, conflict_for_existing-Found, hard_link_ok}

collided-fails :
    (path : FilePath) (e : IoError) (kind : ErrorKind) (w : World) {x : Unit {0}} {v : World}
    → collided path e kind w ≡ (ok x, v)
    → ⊥
collided-fails path e not_found w h = cc
collided-fails path e other w h = cc
collided-fails path e already_exists w h =
    >>=-elim _ _ w h
      λ m u1 e1 h1. >>=-elim (missing_appearance_conflict path m) raise u1 h1 λ error u2 e2 h2. cc

linked_or_ok :
    (temp path : FilePath) (r : Result IoError (Unit {0})) (w : World) {x : Unit {0}} {v : World}
    → linked_or temp path r w ≡ (ok x, v)
    → (r ≡ ok tt) × (v.pending ≡ none)
unfolding set_pending
linked_or_ok temp path (ok _) w {x} {v} h =
    >>=-elim _ _ w h λ _ u1 e1 h1. (refl, ap (λ p. p.1.pending) (sym h1))
linked_or_ok temp path (err e) w h = absurd (collided-fails path e e.kind w h)

-- What held of the path when a temporary file took it over.
abbrev pub Agreed : ExpectedRevision → FilePath → World → Type 0
Agreed (ExpectedRevision.present e) path u = Found e u
Agreed missing path u = (seen u).names path ≡ none

abbrev value_or : {E A : Type 0} → A → Result E A → A
value_or a (ok b) = b
value_or a (err e) = a

outcome_ok :
    {E F A : Type 0} (m : M E A) (w : World) {r : Result E A} {v : World}
    → outcome {F = F} m w ≡ (ok r, v)
    → m w ≡ (r, v)
unfolding outcome
outcome_ok m w h = ap (λ p. (value_or (m w).0 p.0, p.1)) h

-- A successful publication keeps no temporary file, and puts nothing over a file that is not expected.
publish_missing_ok :
    (temp path : FilePath) (w : World) {x : Unit {0}} {v : World}
    → publish missing temp path w ≡ (ok x, v)
    → ((seen w).names path ≡ none) × (v.pending ≡ none)
unfolding publish
publish_missing_ok temp path w h =
    >>=-elim (outcome (hard_link temp path)) (linked_or temp path) w h λ r u1 e1 h1.
      let (linked, clear) = linked_or_ok temp path r u1 h1 in
      (
        hard_link_ok temp path w (
            subst (λ q. hard_link temp path w ≡ (q, u1)) linked
              (outcome_ok (hard_link temp path) w e1)),
        clear,
      )

publish_present_ok :
    (e : Revision) (temp path : FilePath) (w : World) {x : Unit {0}} {v : World}
    → publish (ExpectedRevision.present e) temp path w ≡ (ok x, v)
    → v.pending ≡ none
unfolding publish set_pending
publish_present_ok e temp path w {x} {v} h =
    >>=-elim _ _ w h λ _ u1 e1 h1. ap (λ p. p.1.pending) (sym h1)

pub publish_ok :
    (expected : ExpectedRevision) (temp path : FilePath) (u w : World) {x y : Unit {0}} {v : World}
    → IsTimed u.env
    → conflict_for_existing expected path u ≡ (ok x, w)
    → publish expected temp path w ≡ (ok y, v)
    → Agreed expected path w × (v.pending ≡ none)
publish_ok (ExpectedRevision.present e) temp path u w timed check h =
    (conflict_for_existing-Found e path u timed check, publish_present_ok e temp path w h)
publish_ok missing temp path u w timed check h = publish_missing_ok temp path w h

module _ (pid : ℕ) (path : FilePath) (expected : ExpectedRevision) where
  abbrev pub Sound : World → Type 0
  Sound w = (w.pid ≡ pid) × IsTimed w.env

  pub Sound-later :
      {E A : Type 0} (m : M E A) (w : World) {r : Result E A} {v : World}
      → Keeps (Confined pid path expected) m
      → m w ≡ (r, v)
      → Sound w
      → Sound v
  Sound-later m w h e (same, timed) =
      let k = Keeps-apply (Confined pid path expected) m h w same in
      subst Sound (ap (λ p. p.1) e) (k.pid_kept, subst IsTimed (sym k.env_kept) timed)

  pub given_ok :
      {E A : Type 0} (Q : A → Type 0) (m : M E A) (w : World) {a : A} {v : World}
      → Gives pid path expected Q m
      → m w ≡ (ok a, v)
      → w.pid ≡ pid
      → Q a
  given_ok Q m w h e same = subst (OkIs pid path expected Q) (ap (λ p. p.0) e) (h w same).1

  -- The second check is the last thing before publication.
  pub stage_ok :
      (bytes : List ℕ) (original : Option Metadata) (temp : FilePath × ℕ) (w : World) {x : Unit {0}}
      {v : World}
      → Own pid path expected temp
      → Sound w
      → stage path bytes expected original temp w ≡ (ok x, v)
      → (u : World) × Sound u × (conflict_for_existing expected path u ≡ (ok x, v))
  unfolding stage
  stage_ok bytes original (temp, fd) w own sound h = >>=-elim _ _ w h λ _ u1 e1 h1.
      >>=-elim _ _ u1 h1 λ _ u2 e2 h2. >>=-elim _ _ u2 h2 λ _ u3 e3 h3. (
        u3,
        Sound-later (sync_all fd) u2 (Keeps-sync_all pid path expected temp own fd)
            (map_err-eq-ok _ _ u2 e3)
            (Sound-later (write_all temp fd bytes) u1
              (Keeps-write_all pid path expected temp own fd bytes) (map_err-eq-ok _ _ u1 e2)
              (Sound-later (preserve_metadata temp fd original) w
                (Keeps-preserve_metadata pid path expected temp own fd original) e1 sound)),
        h3,
      )
