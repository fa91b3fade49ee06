-- ===== src/Handlers/Chunks.antt =====
-- What `readdir_stream` of server/src/fs_handlers.rs sends for a directory.
use emacs_relay.Common.{
  ◌<◌, ◌≡◌, String, Option, none, some, List, [], ◌∷◌, ◌++◌, map, ℤ, length, All,
}
use emacs_relay.Fs.{FilePath, World}
use emacs_relay.Json.{Json}
use emacs_relay.Framing.{Channel, send}
use emacs_relay.Handlers.Listing.{
  readdir_chunk_size, always, chunk_message, final_message, entry_at,
}

module _ {A : Type 0} where
  abbrev pub joined : List (List A) → List A
  joined [] = []
  joined (xs ∷ xss) = xs ++ joined xss

module _ (J : Json) where
  -- The values of the entries that could be read, each as its lstat finds it in its turn.
  unfoldable pub entry_values : FilePath → List (Option String) → World → List J.Value
  entry_values path [] w = []
  entry_values path (none ∷ entries) w = entry_values path entries w
  entry_values path (some name ∷ entries) w =
      always (entry_at J path name w).0 ∷ entry_values path entries (entry_at J path name w).1

  -- Full chunks that are marked as incomplete, then the rest, fewer than a chunk, with the attributes of
  -- the directory; together they are the values in their order.
  pub record IsStreamed (id : ℤ) (attrs : J.Value) (values : List J.Value) (tx tx' : Channel J)
      : Type 0 where
    pub chunks : List (List J.Value)
    pub rest : List J.Value
    pub complete : joined chunks ++ rest ≡ values
    pub full : All (λ chunk. length chunk ≡ readdir_chunk_size) chunks
    pub short : length rest < readdir_chunk_size
    pub sent :
        tx'
        ≡ send J
            (tx ++ map (λ chunk. J.to_bytes (chunk_message J id chunk)) chunks)
            (final_message J id rest attrs)
