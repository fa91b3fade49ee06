-- ===== src/Read/ReadOnly.antt =====
-- The read path of server/src/revisions/read.rs only looks.
use emacs_relay.Common.{
  ℕ, zero, suc, ◌≡◌, refl, ◌∙◌, String, Bool, true, false, Option, none, some, List,
}
use emacs_relay.Fs.{Metadata, FilePath, World, M}
use emacs_relay.Fs.Calls.{step}
use emacs_relay.Fs.Keeps.{
  Relation, IsPreorder, Keeps, Keeps-intro, Keeps-apply, Keeps-pure, Keeps-raise, Keeps->>=,
  Keeps-map_err, Keeps-if, Keeps-symlink_metadata, Keeps-open_nofollow, Keeps-file_metadata,
  Keeps-read_to_end,
}
use emacs_relay.Revision.{RevisionError, RevisionRead, final_type, read_attempts}
use emacs_relay.Read.{
  checked_lstat, refuse_type, refuse_if, found_or, open_checked, compare_samples, sample,
  read_attempt, or_again, attempts, read_with_revision, range_body, range_attempt, read_range,
}

module _ (R : Relation) (P : IsPreorder R) (others : (w : World) → R w (step w)) where
  pub Keeps-checked_lstat : (path : FilePath) → Keeps R (checked_lstat path)
  unfolding checked_lstat
  Keeps-checked_lstat path =
      Keeps-intro R _ (Keeps-apply R _ (Keeps-symlink_metadata R P others path))

  pub Keeps-refuse_type : (t : Option String) → Keeps R (refuse_type t)
  Keeps-refuse_type none = Keeps-pure R P RevisionError tt
  Keeps-refuse_type (some kind) = Keeps-raise R P (Unit {0}) _

  pub Keeps-refuse_if : (b : Bool) (e : RevisionError) → Keeps R (refuse_if b e)
  Keeps-refuse_if true e = Keeps-raise R P (Unit {0}) e
  Keeps-refuse_if false e = Keeps-pure R P RevisionError tt

  pub Keeps-found_or : (e : RevisionError) (m : Option Metadata) → Keeps R (found_or e m)
  Keeps-found_or e none = Keeps-raise R P Metadata e
  Keeps-found_or e (some m) = Keeps-pure R P RevisionError m

  pub Keeps-open_checked : (path : FilePath) → Keeps R (open_checked path)
  unfolding open_checked
  Keeps-open_checked path =
      Keeps->>= R P _ _ (Keeps->>= R P _ _ (Keeps-checked_lstat path) (Keeps-found_or _)) λ m.
        Keeps->>= R P _ _ (Keeps-refuse_type (final_type m))
          λ _. Keeps-map_err R P _ _ (Keeps-open_nofollow R P others path)

  Keeps-compare_samples :
      (before after : Metadata) (bytes : List ℕ) → Keeps R (compare_samples before after bytes)
  Keeps-compare_samples before after bytes =
      Keeps-if R P _ _ _
        (Keeps-if R P _ _ _ (Keeps-pure R P RevisionError _)
          (Keeps-raise R P (Option RevisionRead) _))
        (Keeps-pure R P RevisionError none)

  Keeps-sample : (fd : ℕ) → Keeps R (sample fd)
  unfolding sample
  Keeps-sample fd =
      let looks = Keeps-file_metadata R P others fd in
      Keeps->>= R P _ _ (Keeps-map_err R P _ _ looks) λ before.
        Keeps->>= R P _ _ (Keeps-refuse_type (final_type before)) λ _.
          Keeps->>= R P _ _ (Keeps-refuse_if _ _) λ _.
            Keeps->>= R P _ _ (Keeps-map_err R P _ _ (Keeps-read_to_end R P others fd _ _)) λ bytes.
              Keeps->>= R P _ _ (Keeps-refuse_if _ _) λ _.
                Keeps->>= R P _ _ (Keeps-map_err R P _ _ looks) λ after.
                  Keeps->>= R P _ _ (Keeps-refuse_type (final_type after))
                    λ _. Keeps-compare_samples before after bytes

  pub Keeps-read_attempt : (path : FilePath) → Keeps R (read_attempt path)
  unfolding read_attempt
  Keeps-read_attempt path = Keeps->>= R P _ _ (Keeps-open_checked path) Keeps-sample

  Keeps-or_again :
      {A : Type 0} (again : M RevisionError A)
      → Keeps R again
      → (r : Option A) → Keeps R (or_again again r)
  Keeps-or_again again h none = h
  Keeps-or_again again h (some a) = Keeps-pure R P RevisionError a

  pub Keeps-attempts :
      {A : Type 0} (n : ℕ) (attempt : M RevisionError (Option A))
      → Keeps R attempt
      → Keeps R (attempts n attempt)
  unfolding attempts
  Keeps-attempts {A} zero attempt h = Keeps-raise R P A _
  Keeps-attempts (suc n) attempt h =
      Keeps->>= R P _ _ h (Keeps-or_again (attempts n attempt) (Keeps-attempts n attempt h))

  pub Keeps-read_with_revision : (path : FilePath) → Keeps R (read_with_revision path)
  unfolding read_with_revision
  Keeps-read_with_revision path = Keeps-attempts read_attempts _ (Keeps-read_attempt path)

  Keeps-range_body :
      (start end fd : ℕ) (before : Metadata) → Keeps R (range_body start end fd before)
  unfolding range_body
  Keeps-range_body start end fd before = Keeps-if R P _ _ _ (Keeps-pure R P RevisionError _) (
      Keeps->>= R P _ _ (Keeps-map_err R P _ _ (Keeps-read_to_end R P others fd _ _)) λ bytes.
        Keeps->>= R P _ _ (Keeps-map_err R P _ _ (Keeps-file_metadata R P others fd)) λ after.
          Keeps-if R P _ _ _ (Keeps-pure R P RevisionError _) (Keeps-pure R P RevisionError none))

  pub Keeps-range_attempt :
      (path : FilePath) (start end : ℕ) → Keeps R (range_attempt path start end)
  unfolding range_attempt
  Keeps-range_attempt path start end = Keeps->>= R P _ _ (Keeps-open_checked path) λ fd.
      Keeps->>= R P _ _ (Keeps-map_err R P _ _ (Keeps-file_metadata R P others fd)) λ before.
        Keeps->>= R P _ _ (Keeps-refuse_type (final_type before))
          λ _. Keeps-range_body start end fd before

  pub Keeps-read_range : (path : FilePath) (start end : ℕ) → Keeps R (read_range path start end)
  unfolding read_range
  Keeps-read_range path start end =
      Keeps->>= R P _ _ (Keeps-refuse_if _ _)
        λ _. Keeps-attempts read_attempts _ (Keeps-range_attempt path start end)

-- The world of the server as it was: no effect of its own, the same pending file and counter.
pub record Untouched (w v : World) : Type 0 where
  pub env : v.env ≡ w.env
  pub log : v.log ≡ w.log
  pub pending : v.pending ≡ w.pending
  pub serial : v.serial ≡ w.serial
  pub pid : v.pid ≡ w.pid

pub Untouched-IsPreorder : IsPreorder Untouched
Untouched-IsPreorder = record {
  self = λ w. record { env = refl; log = refl; pending = refl; serial = refl; pid = refl };
  chain = λ u v w h k. record {
    env = k.env ∙ h.env;
    log = k.log ∙ h.log;
    pending = k.pending ∙ h.pending;
    serial = k.serial ∙ h.serial;
    pid = k.pid ∙ h.pid;
  };
}

pub Untouched-step : (w : World) → Untouched w (step w)
Untouched-step w = record { env = refl; log = refl; pending = refl; serial = refl; pid = refl }

-- Whatever the outcome and whatever others do, a revision read and a range read make no change of their
-- own to any file and leave the server's state alone.
pub reads-Untouched :
    (path : FilePath) (start end : ℕ) (w : World)
    → Untouched w (read_with_revision path w).1 × Untouched w (read_range path start end w).1
reads-Untouched path start end w =
    let P = Untouched-IsPreorder in
    (
      Keeps-apply Untouched _ (Keeps-read_with_revision Untouched P Untouched-step path) w,
      Keeps-apply Untouched _ (Keeps-read_range Untouched P Untouched-step path start end) w,
    )
