-- ===== src/Common/Parents.antt =====
-- The parent of a path has fewer characters than the path.
use Prim.Native.Nat.{ℕ, suc, ◌+◌, ◌≤◌, ◌<◌}
use Prim.Native.Char.{Char, code}
use Prim.Native.String.{String}
use Prim.Native.String.append
use mathlib.Core.Path.{◌≡◌, refl, ap, sym, subst, ◌∙◌}
use mathlib.Core.Bool.{Bool, true, false}
use mathlib.Core.Option.{Option, none, some}
use mathlib.Core.List.{List, [], ◌∷◌}
use native.Mathlib.Omega.{arith}
use text.Mathlib.Text.{starts_with}
use text.Mathlib.TextEquality.{starts_with_iff}
use emacs_relay.Common.Lists.{length}
use emacs_relay.Common.Tests.{◌==◌, if◌then◌else◌, on_both}
use emacs_relay.Common.Paths.{
  characters, backwards, forwards, trim_back, drop_name, root_or_empty, parent_of, parent,
}

length-backwards :
    (s : String) (acc : List Char) → length (backwards s acc) ≡ characters s + length acc
length-backwards String.[] acc = omega arith
length-backwards (String.◌∷◌ c s) acc = omega (arith, length-backwards s (c ∷ acc))

characters-forwards :
    (cs : List Char) (acc : String) → characters (forwards cs acc) ≡ length cs + characters acc
characters-forwards [] acc = omega arith
characters-forwards (c ∷ cs) acc = omega (arith, characters-forwards cs (String.◌∷◌ c acc))

abbrev or_empty : Option String → String
or_empty none = ""
or_empty (some s) = s

-- Nothing, or a last character that is no separator.
abbrev IsTrimmed : List Char → Type 0
IsTrimmed [] = Unit
IsTrimmed (c ∷ cs) = (code c == b'/') ≡ false

abbrev IsCut : ℕ → List Char → Type 0
IsCut n cs = IsTrimmed cs × (length cs ≤ n)

longer-IsCut : (n : ℕ) (cs : List Char) → IsCut n cs → IsCut (suc n) cs
longer-IsCut n cs (h, l) = (h, omega arith)

trim_back-IsCut : (cs : List Char) → IsCut (length cs) (trim_back cs)
trim_back-IsCut [] = (tt, omega arith)
trim_back-IsCut (c ∷ []) = go (code c == b'/') refl
  where
    go : (b : Bool) → (code c == b'/') ≡ b → IsCut 1 (if b then [] else c ∷ [])
    go true e = (tt, omega arith)
    go false e = (e, omega arith)
trim_back-IsCut (c ∷ d ∷ cs) =
    go (code c == b'/') refl
      (longer-IsCut (suc (length cs)) (trim_back (d ∷ cs)) (trim_back-IsCut (d ∷ cs)))
  where
    go :
        (b : Bool)
        → (code c == b'/') ≡ b
        → IsCut (suc (suc (length cs))) (trim_back (d ∷ cs))
        → IsCut (suc (suc (length cs))) (
            if b
            then trim_back (d ∷ cs)
            else if code c == b'.'
            then if code d == b'/' then trim_back (d ∷ cs) else c ∷ d ∷ cs
            else c ∷ d ∷ cs)
    go true e h = h
    go false e h =
        let Q = IsCut (suc (suc (length cs))) in
        let same : Q (c ∷ d ∷ cs) = (e, omega arith) in
        on_both Q (code c == b'.') _ _ (on_both Q (code d == b'/') _ _ h same) same

length-drop_name : (cs : List Char) → length (drop_name cs) ≤ length cs
length-drop_name [] = omega arith
length-drop_name (c ∷ cs) =
    on_both (λ (t : List Char). length t ≤ suc (length cs)) (code c == b'/') _ _ (omega arith)
      (omega (arith, length-drop_name cs))

-- With a name at the end something is dropped.
drop_name-shorter :
    (c : Char) (cs : List Char) → IsTrimmed (c ∷ cs) → length (drop_name (c ∷ cs)) ≤ length cs
drop_name-shorter c cs h = rw h (length-drop_name cs)

abbrev first_code : String → ℕ
first_code String.[] = 0
first_code (String.◌∷◌ c s) = code c

-- A text of one character is the root or is not absolute.
one_character : (ch : Char) → starts_with (String.◌∷◌ ch "") "/" ≡ true → (code ch == b'/') ≡ true
one_character ch h =
    let (u, e) = (starts_with_iff (String.◌∷◌ ch "") "/").0 h in
    subst (λ n. (n == b'/') ≡ true) (ap first_code (sym (append.cons "/" "" u) ∙ e)) refl

shorter_root :
    (path : String) (c : Char) (cs : List Char)
    → trim_back (backwards path []) ≡ c ∷ cs
    → starts_with path "/" ≡ true
    → 1 < characters path
shorter_root String.[] c cs e h = cc
shorter_root (String.◌∷◌ ch String.[]) c cs e h =
    cc (e, ap (λ b. if b then [] else ch ∷ []) (one_character ch h))
shorter_root (String.◌∷◌ ch (String.◌∷◌ d s)) c cs e h = omega arith

shorter :
    (path : String) (rest : List Char) (c : Char) (cs : List Char)
    → trim_back (backwards path []) ≡ c ∷ cs
    → length rest ≤ length cs
    → characters (root_or_empty path rest) < characters path
shorter path rest c cs e h = go rest h
  where
    all : suc (length cs) ≤ characters path
    all =
        omega
          (arith, ap length e, (trim_back-IsCut (backwards path [])).1, length-backwards path [])

    root :
        (b : Bool) → starts_with path "/" ≡ b → characters (if b then "/" else "") < characters path
    root true s = shorter_root path c cs e s
    root false s = omega (arith, all)

    go :
        (rest : List Char)
        → length rest ≤ length cs
        → characters (root_or_empty path rest) < characters path
    go [] l = root (starts_with path "/") refl
    go (d ∷ ds) l = omega (arith, all, characters-forwards (d ∷ ds) "")

pub characters-parent : (path p : String) → parent path ≡ some p → characters p < characters path
unfolding parent
characters-parent path p h = go (trim_back (backwards path [])) refl h
  where
    go :
        (cs : List Char)
        → trim_back (backwards path []) ≡ cs
        → parent_of path cs ≡ some p
        → characters p < characters path
    go [] e q = cc
    go (c ∷ cs) e q =
        let cut : IsTrimmed (c ∷ cs) = subst IsTrimmed e (trim_back-IsCut (backwards path [])).0 in
        let less =
          shorter path (trim_back (drop_name (c ∷ cs))) c cs e
            (omega (arith, (trim_back-IsCut (drop_name (c ∷ cs))).1, drop_name-shorter c cs cut)) in
        subst (λ o. characters (or_empty o) < characters path) q less
