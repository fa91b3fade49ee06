-- ===== src/Handlers/Looks.antt =====
-- The handlers of server/src/fs_handlers.rs that take no mutation lock only look.
use emacs_relay.Common.{ℕ, String, Bool, true, false, Option, none, some, List, [], ◌∷◌, ℤ}
use emacs_relay.Fs.{Metadata, FilePath, IoError, World, Result, ok, err, M, outcome}
use emacs_relay.Fs.Calls.{step}
use emacs_relay.Fs.Keeps.{
  Relation, IsPreorder, Keeps, Keeps-intro, Keeps-apply, Keeps-pure, Keeps->>=, Keeps-map_err,
  Keeps-symlink_metadata,
}
use emacs_relay.Fs.Directories.{read_link, canonicalize, read_dir}
use emacs_relay.Json.{Json}
use emacs_relay.Revision.{RevisionError}
use emacs_relay.Read.ReadOnly.{Keeps-read_with_revision, Keeps-read_range}
use emacs_relay.Read.Tail.ReadOnly.{Keeps-tail_read}
use emacs_relay.Framing.{Channel}
use emacs_relay.Control.{Host}
use emacs_relay.Handlers.{Base64}
use emacs_relay.Handlers.Attributes.{link_target, described, stat_value, dir_entry_value, resolve}
use emacs_relay.Handlers.Listing.{entry_at, self_at, go_on, stream, listed, readdir_stream}
use emacs_relay.Handlers.Requests.{read_request, range_request, tail_request}

-- What a handler does to the world, whatever it finds in the channel.
unfoldable pub Leaves : (J : Json) → Relation → (Channel J → World → Channel J × World) → Type 0
Leaves J R f = (tx : Channel J) (w : World) → R w (f tx w).1

module _ (R : Relation) (P : IsPreorder R) (others : (w : World) → R w (step w)) where
  Keeps-told_apart :
      (F : Type 0) {E A : Type 0} (m : M E A) → Keeps R m → Keeps R (outcome {F = F} m)
  unfolding outcome
  Keeps-told_apart F m h = Keeps-intro R _ (Keeps-apply R m h)

  Keeps-read_link : (path : FilePath) → Keeps R (read_link path)
  unfolding read_link Keeps
  Keeps-read_link path = others

  Keeps-canonicalize : (path : FilePath) → Keeps R (canonicalize path)
  unfolding canonicalize Keeps
  Keeps-canonicalize path = others

  Keeps-read_dir : (path : FilePath) → Keeps R (read_dir path)
  unfolding read_dir Keeps
  Keeps-read_dir path = others

  module _ (J : Json) where
    Keeps-link_target :
        (E : Type 0) (path : FilePath) (b : Bool) → Keeps R (link_target J {E = E} path b)
    Keeps-link_target E path true =
        Keeps->>= R P _ _ (Keeps-told_apart E _ (Keeps-read_link path)) λ r. Keeps-pure R P E _
    Keeps-link_target E path false = Keeps-pure R P E _

    Keeps-described :
        (E : Type 0) (path : FilePath) (r : Result IoError Metadata)
        → Keeps R (described J {E = E} path r)
    Keeps-described E path (ok m) =
        Keeps->>= R P _ _ (Keeps-link_target E path _) λ target. Keeps-pure R P E _
    Keeps-described E path (err e) = Keeps-pure R P E _

    pub Keeps-stat_value : (E : Type 0) (path : FilePath) → Keeps R (stat_value J {E = E} path)
    unfolding stat_value
    Keeps-stat_value E path =
        Keeps->>= R P _ _ (Keeps-told_apart E _ (Keeps-symlink_metadata R P others path))
          (Keeps-described E path)

    Keeps-entry_at : (path : FilePath) (name : String) → Keeps R (entry_at J path name)
    unfolding dir_entry_value
    Keeps-entry_at path name = Keeps->>= R P _ _ (Keeps-stat_value ⊥ _) λ v. Keeps-pure R P ⊥ _

    pub Keeps-resolve : (path : FilePath) → Keeps R (resolve J path)
    unfolding resolve
    Keeps-resolve path =
        Keeps->>= R P _ _ (Keeps-map_err R P _ _ (Keeps-canonicalize path))
          λ real. Keeps->>= R P _ _ (Keeps-stat_value String real) λ attrs. Keeps-pure R P String _

    module _ (listening : ℕ → Bool) (id : ℤ) (path : FilePath) where
      go_on-keeps :
          (more : List J.Value → Channel J → Channel J × World) (tx : Channel J) (w : World)
          (s : Option (List J.Value × Channel J))
          → ((b : List J.Value) (t : Channel J) → R w (more b t).1)
          → R w (go_on J listening id path more (tx, w) s).1
      go_on-keeps more tx w none h = P.self w
      go_on-keeps more tx w (some (b, t)) h = h b t

      stream-keeps :
          (entries : List (Option String)) (attrs : J.Value) (batch : List J.Value) (tx : Channel J)
          (w : World)
          → R w (stream J listening id path entries attrs batch tx w).1
      unfolding stream
      stream-keeps [] attrs batch tx w = P.self w
      stream-keeps (none ∷ entries) attrs batch tx w = stream-keeps entries attrs batch tx w
      stream-keeps (some name ∷ entries) attrs batch tx w =
          let v = (entry_at J path name w).1 in
          P.chain w v _ (Keeps-apply R _ (Keeps-entry_at path name) w)
            (go_on-keeps _ tx v _ (λ b t. stream-keeps entries attrs b t v))

      listed-keeps :
          (r : Result IoError (List (Option String))) (tx : Channel J) (w : World)
          → R w (listed J listening id path r tx w).1
      listed-keeps (ok entries) tx w =
          P.chain w (self_at J path w).1 _ (Keeps-apply R _ (Keeps-stat_value ⊥ path) w)
            (stream-keeps entries _ [] tx _)
      listed-keeps (err e) tx w = P.self w

      pub readdir-Leaves : Leaves J R (readdir_stream J listening id path)
      unfolding readdir_stream Leaves
      readdir-Leaves tx w =
          P.chain w (read_dir path w).1 _ (Keeps-apply R _ (Keeps-read_dir path) w)
            (listed-keeps _ tx _)

  module _ (J : Json) (host : Host) (B : Base64) where
    pub Keeps-read_request : (path : FilePath) → Keeps R (read_request J host B path)
    unfolding read_request
    Keeps-read_request path =
        Keeps->>= R P _ _ (Keeps-read_with_revision R P others path)
          λ read. Keeps-pure R P RevisionError _

    pub Keeps-range_request :
        (req : J.Value) (path : FilePath) → Keeps R (range_request J host B req path)
    unfolding range_request
    Keeps-range_request req path = Keeps-map_err R P _ _ (
        Keeps->>= R P _ _ (Keeps-read_range R P others path _ _)
          λ bytes. Keeps-pure R P RevisionError _)

    pub Keeps-tail_request :
        (req : J.Value) (path : FilePath) → Keeps R (tail_request J host B req path)
    unfolding tail_request
    Keeps-tail_request req path = Keeps-map_err R P _ _ (
        Keeps->>= R P _ _ (Keeps-tail_read R P others path _ _)
          λ tail. Keeps-pure R P RevisionError _)
