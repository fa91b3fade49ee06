-- ===== src/Read/Tail/Laws.antt =====
-- What every successful `tail_read` reply says, whatever others do to the file meanwhile.
use emacs_relay.Common.{
  ℕ, ◌+◌, ◌-◌, ◌≤◌, ◌<◌, ◌≡◌, ◌↔◌, ◌⊎◌, refl, ap, sym, subst, ◌∙◌, true, false, Option, none, some,
  ltb→lt, ==_iff, List, length, Bool-cases, inl, inr, ◌==◌, arith,
}
use emacs_relay.Fs.{Metadata, FilePath, World, ok, ◌>>=◌, >>=-elim, map_err-eq-ok}
use emacs_relay.Fs.Calls.{open_nofollow}
use emacs_relay.Read.Rounds.{file_metadata_ok}
use emacs_relay.Read.{checked_lstat, found_or, refuse_type, open_checked}
use emacs_relay.Read.Tail.Moments.{
  Reached, at_once, Reached-IsPreorder, Reached-step, Moment, Gathered, tail_bytes-Gathered,
  open_nofollow_names,
}
use emacs_relay.Read.Tail.ReadOnly.{Keeps-tail_bytes}
use emacs_relay.Read.Tail.Grown.{at_end}
use emacs_relay.Read.ReadOnly.{Keeps-open_checked}
use emacs_relay.Read.Stable.{refuse_type_ok}
use emacs_relay.Fs.Keeps.{Keeps_result}
use emacs_relay.Revision.{final_type}
use emacs_relay.Read.Tail.{
  TailRead, Known, truncated_or_rotated, tail_start, tail_end, tail_bytes, tail_reply, tail_of,
  tail_read, differs,
}
use emacs_relay.Read.Tail.Lengths.{length-tail_bytes}

abbrev value_of : ℕ → Option ℕ → ℕ
value_of n none = n
value_of n (some m) = m

-- The client knows another number than this one.
abbrev pub IsOther : Option ℕ → ℕ → Type 0
IsOther known actual = (k : ℕ) × (known ≡ some k) × ¬ (k ≡ actual)

-- The file is not the one that the client knows, or is shorter than the client's offset.
abbrev pub Restarted : Known → Metadata → Type 0
Restarted known m = IsOther known.dev m.dev ⊎ (IsOther known.ino m.ino ⊎ (m.size < known.offset))

-- What a reply says of itself and of the file's metadata.
pub record IsReplyTo (known : Known) (max_bytes : ℕ) (m : Metadata) (t : TailRead) : Type 0 where
  pub size : t.file_size ≡ m.size
  pub dev : t.dev ≡ m.dev
  pub ino : t.ino ≡ m.ino
  pub ends : t.actual_end ≡ t.start + length t.bytes
  pub in_file : t.actual_end ≤ m.size
  pub asked : length t.bytes ≤ max_bytes
  pub capped : length t.bytes ≤ 1_048_576
  pub restart :
      (Restarted known m × (t.truncated_or_rotated ≡ true) × (t.start ≡ 0))
      ⊎ ((¬ Restarted known m) × (t.truncated_or_rotated ≡ false) × (t.start ≡ known.offset))
  pub more : (t.more_available ≡ true) ↔ (t.actual_end < m.size)

-- A reply in a run from `w` to `v` to a client that knows `known` and asks for at most `max_bytes`.
pub record IsTail (path : FilePath) (known : Known) (max_bytes : ℕ) (w v : World) (t : TailRead)
    : Type 0 where
  pub file : ℕ
  pub opened : World
  pub opened_then : Moment w v opened
  pub named : opened.fs.names path ≡ some file
  pub stated : World
  pub stated_then : Moment opened v stated
  pub reply : IsReplyTo known max_bytes (stated.fs.inodes file).metadata t
  pub gathered : Gathered file stated v t.start t.bytes

differs_iff : (known : Option ℕ) (actual : ℕ) → (differs known actual ≡ true) ↔ IsOther known actual
differs_iff none actual = (λ h. cc, λ h. cc)
differs_iff (some k) actual = (
  λ h. (k, refl, λ e. ground (arith, e)),
  λ (j, known, other). elim (Bool-cases (k == actual)) [
    | inl same ↦ absurd (other (omega (arith, ap (value_of 0) known, (==_iff k actual).0 same)))
    | inr differ ↦ rw differ refl
  ],
)

truncated_or_rotated_iff :
    (known : Known) (m : Metadata) → (truncated_or_rotated known m ≡ true) ↔ Restarted known m
unfolding truncated_or_rotated
truncated_or_rotated_iff known m =
    ground (arith, differs_iff known.dev m.dev, differs_iff known.ino m.ino)

tail_in_file :
    (known : Known) (max_bytes : ℕ) (m : Metadata) (n : ℕ)
    → n ≤ tail_end known m max_bytes - tail_start known m
    → tail_start known m + n ≤ m.size
unfolding truncated_or_rotated
tail_in_file known max_bytes m n h = ground arith

tail_reply-IsReplyTo :
    (known : Known) (max_bytes : ℕ) (m : Metadata) (bytes : List ℕ)
    → length bytes ≤ tail_end known m max_bytes - tail_start known m
    → IsReplyTo known max_bytes m (tail_reply known m bytes)
tail_reply-IsReplyTo known max_bytes m bytes h =
    let restarted = truncated_or_rotated_iff known m in
    record {
      size = refl;
      dev = refl;
      ino = refl;
      ends = refl;
      in_file = tail_in_file known max_bytes m (length bytes) h;
      asked = ground arith;
      capped = ground arith;
      restart = elim (Bool-cases (truncated_or_rotated known m)) [
        | inl again ↦ inl (restarted.0 again, again, rw again refl)
        | inr same ↦ inr (λ r. let again = restarted.1 r in cc, same, rw same refl)
      ];
      more = (λ k. ltb→lt _ _ k, λ k. ground arith);
    }

open_checked_opened :
    (path : FilePath) (w : World) {fd : ℕ} {v : World}
    → open_checked path w ≡ (ok fd, v)
    → Reached w v × (v.fs.names path ≡ some fd)
unfolding open_checked
open_checked_opened path w {fd} {v} h = (
  Keeps_result Reached _ (Keeps-open_checked Reached Reached-IsPreorder Reached-step path) w h,
  >>=-elim (checked_lstat path >>= found_or _) _ w h λ m u e h1.
      >>=-elim (refuse_type (final_type m)) _ u h1
        λ _ u2 e2 h2. (open_nofollow_names path u2 (map_err-eq-ok _ (open_nofollow path) u2 h2)).0,
)

-- The rest of the read, from the descriptor on.
tail_of-IsTail :
    (path : FilePath) (known : Known) (max_bytes fd : ℕ) (w u : World) {t : TailRead} {v : World}
    → Reached w u
    → u.fs.names path ≡ some fd
    → tail_of known max_bytes fd u ≡ (ok t, v)
    → IsTail path known max_bytes w v t
unfolding tail_of
tail_of-IsTail path known max_bytes fd w u {t} {v} before named h = >>=-elim _ _ u h λ m u1 e1 h1.
    >>=-elim (refuse_type (final_type m)) _ u1 h1 λ _ u2 e2 h2.
      >>=-elim (tail_bytes fd (tail_start known m) (tail_end known m max_bytes)) _ u2 h2
        λ bytes u3 e3 h3.
          let (at, now) = file_metadata_ok fd u (map_err-eq-ok _ _ u e1) in
          let (regular, same) = refuse_type_ok (final_type m) u1 e2 in
          let start = tail_start known m in
          let want_end = tail_end known m max_bytes in
          let first : Reached u u2 = subst (Reached u) (sym (same ∙ now)) (Reached-step u) in
          let second : Reached u2 u3 =
            Keeps_result Reached _
              (Keeps-tail_bytes Reached Reached-IsPreorder Reached-step fd start want_end) u2 e3 in
          let here : m ≡ (u2.fs.inodes fd).metadata =
            at ∙ ap (λ x. (x.fs.inodes fd).metadata) (sym same) in
          at_end (λ t v. IsTail path known max_bytes w v t) (tail_reply known m bytes) t u3 v
            (record {
              file = fd;
              opened = u;
              opened_then = (before, Reached-IsPreorder.chain u u2 u3 first second);
              named = named;
              stated = u2;
              stated_then = (first, second);
              reply =
                  subst (λ n. IsReplyTo known max_bytes n (tail_reply known m bytes)) here
                    (tail_reply-IsReplyTo known max_bytes m bytes
                      (length-tail_bytes fd start want_end u2 bytes u3 e3));
              gathered = tail_bytes-Gathered fd u2 start want_end u2 bytes u3 at_once e3;
            })
            h3

-- On any world, whatever others do to the file meanwhile: a tail read that succeeds is of a file that the
-- path named when it was opened, and of its metadata as they were stated then. Its bytes are at most
-- as many as were asked for and at most a megabyte, all before the stated end. They are pieces one
-- behind the other, each as the file had it at a moment of the read, from the known offset on or,
-- exactly if the identity that the client knows is another or the file is shorter than that offset,
-- from its start; and the reply says which, and whether more is there.
pub tail_read-IsTail :
    (path : FilePath) (known : Known) (max_bytes : ℕ) (w : World) {t : TailRead} {v : World}
    → tail_read path known max_bytes w ≡ (ok t, v)
    → IsTail path known max_bytes w v t
unfolding tail_read
tail_read-IsTail path known max_bytes w {t} {v} h =
    >>=-elim (open_checked path) (tail_of known max_bytes) w h λ fd u1 e1 h1.
      let (reached, named) = open_checked_opened path w e1 in
      tail_of-IsTail path known max_bytes fd w u1 reached named h1
