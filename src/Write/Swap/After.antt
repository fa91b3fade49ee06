-- ===== src/Write/Swap/After.antt =====
-- What a publication of server/src/revisions/write.rs leaves of the names and of the new file.
use emacs_relay.Common.{
  ℕ, ◌-◌, ◌≡◌, refl, ap, sym, subst, ◌∙◌, Bool, true, false, Option, none, some, List, length,
  str_eq, eq_iff, ◌==◌, ==_iff, Bool-cases, inl, inr, if◌then◌else◌, arith,
}
use emacs_relay.Fs.{Metadata, type_bits, is_dir, FilePath, Inode, FileSystem, Tick, World}
use emacs_relay.Fs.Calls.{assign, store, set_metadata, touch}
use emacs_relay.Fs.Names.{drop_target}
use emacs_relay.Write.Swap.{Temp, store_same, store_other}

-- The names of a file system reached in a write from `w`, and the new inode with its bytes and the number
-- of its names; every other file has the bytes that it had.
pub record After (w : World) (names' : FilePath → Option ℕ) (count : ℕ) (bytes : List ℕ)
    (fs : FileSystem) : Type 0 where
  pub names : (q : FilePath) → fs.names q ≡ names' q
  pub kept : (j : ℕ) → (j == w.fs.next) ≡ false → (fs.inodes j).bytes ≡ (w.fs.inodes j).bytes
  pub regular : type_bits (fs.inodes w.fs.next).metadata.mode ≡ 0o100000
  pub nlink : (fs.inodes w.fs.next).metadata.nlink ≡ count
  pub content : (fs.inodes w.fs.next).bytes ≡ bytes
  pub size : (fs.inodes w.fs.next).metadata.size ≡ length bytes

set_metadata-bytes :
    (fs : FileSystem) (i : ℕ) (m : Metadata) (j : ℕ)
    → ((set_metadata fs i m).inodes j).bytes ≡ (fs.inodes j).bytes
set_metadata-bytes fs i m j = go (j == i) refl
  where
    go :
        (b : Bool)
        → (j == i) ≡ b
        → (if b then record (fs.inodes i) { metadata = m } else fs.inodes j).bytes
          ≡ (fs.inodes j).bytes
    go true e = ap (λ n. (fs.inodes n).bytes) (sym ((==_iff j i).0 e))
    go false e = refl

other_way : (i j : ℕ) → (i == j) ≡ false → (j == i) ≡ false
other_way i j h = ground arith

module _ (w : World) (bytes : List ℕ) where
  pub Temp-After :
      (t : FilePath) (v : World)
      → Temp w t bytes v
      → After w (assign w.fs.names t (some w.fs.next)) 1 bytes v.fs
  Temp-After t v h = record {
    names = h.names;
    kept = λ j d. ap (λ x. x.bytes) (h.others j d);
    regular = h.regular;
    nlink = h.nlink;
    content = h.content;
    size = h.size;
  }

  -- Other metadata and other names.
  pub After-set :
      (fs : FileSystem) (names' names'' : FilePath → Option ℕ) (count count' : ℕ) (m : Metadata)
      (g : FilePath → Option ℕ)
      → After w names' count bytes fs
      → type_bits m.mode ≡ 0o100000
      → m.nlink ≡ count'
      → m.size ≡ length bytes
      → ((q : FilePath) → g q ≡ names'' q)
      → After w names'' count' bytes (record (set_metadata fs w.fs.next m) { names = g })
  After-set fs names' names'' count count' m g h regular nlink size names =
      let at =
        sym (store_same fs.inodes w.fs.next (record (fs.inodes w.fs.next) { metadata = m })) in
      record {
        names = names;
        kept = λ j d. set_metadata-bytes fs w.fs.next m j ∙ h.kept j d;
        regular = subst (λ x. type_bits x.metadata.mode ≡ 0o100000) at regular;
        nlink = subst (λ x. x.metadata.nlink ≡ count') at nlink;
        content = subst (λ x. x.bytes ≡ bytes) at h.content;
        size = subst (λ x. x.metadata.size ≡ length bytes) at size;
      }

  -- The old file loses its name.
  pub After-drop :
      (fs : FileSystem) (tick : Tick) (names' : FilePath → Option ℕ) (count : ℕ) (o : Option ℕ)
      → After w names' count bytes fs
      → ((j : ℕ) → o ≡ some j → (j == w.fs.next) ≡ false)
      → After w names' count bytes (drop_target tick fs o)
  After-drop fs tick names' count none h d = h
  After-drop fs tick names' count (some j) h d =
      let m = (fs.inodes j).metadata in
      let node : Inode = record (fs.inodes j) {
        metadata = record (touch tick m) { nlink = m.nlink - 1 };
      } in
      let at : fs.inodes w.fs.next ≡ store fs.inodes j node w.fs.next =
        sym (store_other fs.inodes j node w.fs.next (other_way j w.fs.next (d j refl))) in
      record {
        names = h.names;
        kept = λ i e. set_metadata-bytes fs j node.metadata i ∙ h.kept i e;
        regular = subst (λ x. type_bits x.metadata.mode ≡ 0o100000) at h.regular;
        nlink = subst (λ x. x.metadata.nlink ≡ count) at h.nlink;
        content = subst (λ x. x.bytes ≡ bytes) at h.content;
        size = subst (λ x. x.metadata.size ≡ length bytes) at h.size;
      }

  pub not_a_dir :
      (fs : FileSystem) (names' : FilePath → Option ℕ) (count : ℕ)
      → After w names' count bytes fs
      → is_dir (fs.inodes w.fs.next).metadata ≡ false
  not_a_dir fs names' count h = rw h.regular refl

module _ (w : World) (t path : FilePath) (apart : str_eq path t ≡ false) where
  pub apart' : str_eq t path ≡ false
  apart' = elim (Bool-cases (str_eq t path)) [
    | inl e ↦ cc (apart, (eq_iff path t).1 (sym ((eq_iff t path).0 e)))
    | inr e ↦ e
  ]

  module _ (free : w.fs.names t ≡ none) where
    free_at : (q : FilePath) → str_eq q t ≡ true → w.fs.names q ≡ none
    free_at q e = ap w.fs.names ((eq_iff q t).0 e) ∙ free

    -- The path has the new file, and the temporary name is as free as before: after a rename, and after
    -- a link whose temporary name is then removed.
    pub renamed_names :
        (q : FilePath)
        → assign (assign (assign w.fs.names t (some w.fs.next)) t none) path (some w.fs.next) q
          ≡ assign w.fs.names path (some w.fs.next) q
    renamed_names q = go (str_eq q t) refl
      where
        go :
            (b : Bool)
            → str_eq q t ≡ b
            → (if str_eq q path
                then some w.fs.next
                else if b
                then none
                else if b
                then some w.fs.next
                else w.fs.names q)
              ≡ (if str_eq q path then some w.fs.next else w.fs.names q)
        go true e = ap (λ o. if str_eq q path then some w.fs.next else o) (sym (free_at q e))
        go false e = refl

    pub linked_names :
        (q : FilePath)
        → assign (assign (assign w.fs.names t (some w.fs.next)) path (some w.fs.next)) t none q
          ≡ assign w.fs.names path (some w.fs.next) q
    linked_names q = go (str_eq q t) refl
      where
        go :
            (b : Bool)
            → str_eq q t ≡ b
            → (if b
                then none
                else if str_eq q path
                then some w.fs.next
                else if b
                then some w.fs.next
                else w.fs.names q)
              ≡ (if str_eq q path then some w.fs.next else w.fs.names q)
        go true e =
            let elsewhere : str_eq q path ≡ false =
              ap (λ x. str_eq x path) ((eq_iff q t).0 e) ∙ apart' in
            rw elsewhere (sym (free_at q e))
        go false e = refl
