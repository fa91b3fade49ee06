-- ===== src/Read/Tail/Follow.antt =====
-- A client that follows a growing file by one `tail_read` of server/src/revisions/read.rs after another,
-- each from where the last one ended, while others append.
use emacs_relay.Common.{
  ℕ, ◌+◌, ◌^◌, ◌≤◌, ◌<◌, min, ◌≡◌, refl, ap, sym, subst, ◌∙◌, false, some, List, [], ◌∷◌, ◌++◌,
  arith, length, length-append, ltb, StandsAt, StandsAt-chain,
}
use emacs_relay.Fs.{FilePath, World, FileSystem, ok, M, pure, ◌>>=◌, >>=-elim}
use emacs_relay.Fs.Keeps.{Keeps, Keeps-pure, Keeps->>=, Keeps_result}
use emacs_relay.Revision.{RevisionError}
use emacs_relay.Read.Tail.{TailRead, Known, max_tail_bytes, differs, tail_read}
use emacs_relay.Read.Tail.ReadOnly.{Keeps-tail_read}
use emacs_relay.Read.Tail.Grown.{
  Grown, IsAppending, Appended, Appended-IsPreorder, Appended-step, StandsAt-Grown, length-Grown,
  at_end,
}
use emacs_relay.Read.Tail.Taken.{IsTaken, tail_read-IsTaken}

-- What the client knows after a reply.
abbrev pub known_after : TailRead → Known
known_after t = record { offset = t.actual_end; dev = some t.dev; ino = some t.ino }

-- The bytes of a chain of replies, for at most as many bytes each as the list says.
unfoldable pub follow : FilePath → Known → List ℕ → M RevisionError (Known × List ℕ)
follow path known [] = pure (known, [])
follow path known (n ∷ ns) = do
  t ← tail_read path known n
  rest ← follow path (known_after t) ns
  pure (rest.0, t.bytes ++ rest.1)

-- What all the replies may hold.
abbrev pub asked : List ℕ → ℕ
asked [] = 0
asked (n ∷ ns) = min n max_tail_bytes + asked ns

module _ (path : FilePath) (i : ℕ) where
  abbrev content : World → List ℕ
  content w = (w.fs.inodes i).bytes

  -- The client's offset lies in the file, and it knows no other file's identity.
  pub record IsSynced (known : Known) (fs : FileSystem) : Type 0 where
    pub named : fs.names path ≡ some i
    pub sized : (fs.inodes i).metadata.size ≡ length (fs.inodes i).bytes
    pub within : known.offset ≤ length (fs.inodes i).bytes
    pub dev : differs known.dev (fs.inodes i).metadata.dev ≡ false
    pub ino : differs known.ino (fs.inodes i).metadata.ino ≡ false

  -- The bytes stand in the file from the client's offset on, and reach as far as was asked for or as the file
  -- was long.
  pub record IsFollowed (known k : Known) (ns out : List ℕ) (w v : World) : Type 0 where
    pub stands : StandsAt out known.offset (content v)
    pub ends : k.offset ≡ known.offset + length out
    pub reach : min (known.offset + asked ns) (length (content w)) ≤ k.offset
    pub most : length out ≤ asked ns
    pub synced : IsSynced k v.fs

  differs_self : (n m : ℕ) → n ≡ m → differs (some n) m ≡ false
  differs_self n m e = ground arith

  -- A reply from a file that only grew is no restart.
  taken_start :
      (known : Known) (n : ℕ) (w : World) (t : TailRead) (v : World)
      → IsAppending path i w.env
      → IsSynced known w.fs
      → IsTaken path i known n w t v
      → t.start ≡ known.offset
  taken_start known n w t v appending s h =
      let g = h.grown.1 appending in
      let dev = ap (differs known.dev) (h.dev ∙ g.dev) ∙ s.dev in
      let ino = ap (differs known.ino) (h.ino ∙ g.ino) ∙ s.ino in
      let long : ltb t.file_size known.offset ≡ false = ground (arith, s.within, h.as_long) in
      let calm : t.truncated_or_rotated ≡ false = h.flagged ∙ rw (dev, ino, long) refl in
      h.anchored ∙ rw calm refl

  Keeps-follow : (known : Known) (ns : List ℕ) → Keeps (Appended path i) (follow path known ns)
  unfolding follow
  Keeps-follow known [] =
      Keeps-pure (Appended path i) (Appended-IsPreorder path i) RevisionError (known, [])
  Keeps-follow known (n ∷ ns) =
      let R = Appended path i in
      let P = Appended-IsPreorder path i in
      Keeps->>= R P _ _ (Keeps-tail_read R P (Appended-step path i) path known n) λ t.
        Keeps->>= R P _ _ (Keeps-follow (known_after t) ns)
          λ rest. Keeps-pure R P RevisionError (rest.0, t.bytes ++ rest.1)

  -- After a reply the client is still with the file.
  taken-IsSynced :
      (known : Known) (n : ℕ) (w : World) (t : TailRead) (v : World)
      → IsAppending path i w.env
      → IsSynced known w.fs
      → IsTaken path i known n w t v
      → IsSynced (known_after t) v.fs
  taken-IsSynced known n w t v appending s h =
      let g = h.grown.1 appending in
      record {
        named = g.named s.named;
        sized = g.sized s.sized;
        within = omega (arith, h.reach, h.inside);
        dev = differs_self t.dev (v.fs.inodes i).metadata.dev h.dev;
        ino = differs_self t.ino (v.fs.inodes i).metadata.ino h.ino;
      }

  joined :
      (known k : Known) (n : ℕ) (ns out : List ℕ) (t : TailRead) (w u v : World)
      → IsAppending path i w.env
      → IsSynced known w.fs
      → IsTaken path i known n w t u
      → Grown path i u.fs v.fs
      → IsFollowed (known_after t) k ns out u v
      → IsFollowed known k (n ∷ ns) (t.bytes ++ out) w v
  joined known k n ns out t w u v appending s h g rest =
      let start = taken_start known n w t u appending s h in
      let here : StandsAt t.bytes known.offset (content v) =
        StandsAt-Grown path i t.bytes known.offset u.fs v.fs g
          (subst (λ o. StandsAt t.bytes o (content u)) start h.stands) in
      let behind : StandsAt out (known.offset + length t.bytes) (content v) =
        subst (λ o. StandsAt out o (content v)) (omega (arith, h.ends, start)) rest.stands in
      let grown = length-Grown path i w.fs u.fs (h.grown.1 appending) in
      record {
        stands = StandsAt-chain t.bytes out known.offset (content v) here behind;
        ends = omega (arith, rest.ends, h.ends, start, length-append t.bytes out);
        reach = omega (arith, rest.reach, h.reach, h.as_long, start, s.within, grown);
        most = omega (arith, rest.most, h.reach, h.ends, start, length-append t.bytes out);
        synced = rest.synced;
      }

  nothing_asked :
      (known : Known) (w : World) → IsSynced known w.fs → IsFollowed known known [] [] w w
  nothing_asked known w s = record {
    stands = refl;
    ends = omega arith;
    reach = omega arith;
    most = omega arith;
    synced = s;
  }

  -- If others only append to the file of a path, which stays below 2 ^ 64 bytes, and the client's offset
  -- lies in it and the identity that it knows, if any, is the file's: the bytes of any chain of tail
  -- reads that succeed, each from where the last one ended, stand one behind the other in the file
  -- from that offset on, with none missing and none twice, although bytes are appended between any two
  -- calls. They are no more than was asked for, by at most a megabyte each, and reach that far or as
  -- far as the file was long at the start; and the client can go on from there.
  pub follow-IsFollowed :
      (known k : Known) (ns out : List ℕ) (w v : World)
      → IsAppending path i w.env
      → IsSynced known w.fs
      → length (content v) < 2 ^ 64
      → follow path known ns w ≡ (ok (k, out), v)
      → IsFollowed known k ns out w v
  unfolding follow
  follow-IsFollowed known k [] out w v appending s small h =
      at_end (λ r v. IsFollowed known r.0 [] r.1 w v) (known, []) (k, out) w v
        (nothing_asked known w s) h
  follow-IsFollowed known k (n ∷ ns) out w v appending s small h =
      >>=-elim (tail_read path known n) _ w h λ t u e h1.
        >>=-elim (follow path (known_after t) ns) _ u h1 λ rest v' e' h2.
          at_end (λ r v. length (content v) < 2 ^ 64 → IsFollowed known r.0 (n ∷ ns) r.1 w v)
            (rest.0, t.bytes ++ rest.1) (k, out) v' v
            (λ small'.
              let P = Appended-IsPreorder path i in
              let first =
                Keeps_result (Appended path i) _
                  (Keeps-tail_read (Appended path i) P (Appended-step path i) path known n) w e in
              let appending' = subst (IsAppending path i) (sym first.0) appending in
              let g =
                (Keeps_result (Appended path i) _ (Keeps-follow (known_after t) ns) u e').1
                  appending' in
              let taken =
                tail_read-IsTaken path i w appending s.named s.sized known n t u
                  (omega (arith, length-Grown path i u.fs v'.fs g)) e in
              joined known rest.0 n ns rest.1 t w u v' appending s taken g (
                follow-IsFollowed (known_after t) rest.0 ns rest.1 u v' appending'
                  (taken-IsSynced known n w t u appending s taken) small' e'))
            h2 small
