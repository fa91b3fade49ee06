-- ===== src/Sha256/Runs.antt =====
-- `sha256` of server/src/revisions/types.rs on two FIPS 180-4 test vectors.
use emacs_relay.Common.{◌≡◌, refl, [], ◌∷◌}
use emacs_relay.Sha256.{sha256}

sha256_empty : sha256 [] ≡ "e3b0c44298fc1c149afbf4c8996fb92427ae41e4649b934ca495991b7852b855"
unfolding sha256
sha256_empty = refl

sha256_abc :
    sha256 (b'a' ∷ b'b' ∷ b'c' ∷ [])
    ≡ "ba7816bf8f01cfea414140de5dae2223b00361a396177a9cb410ff61f20015ad"
unfolding sha256
sha256_abc = refl
