-- ===== src/Common/Paths.antt =====
-- The parts of std::path and of number formatting that the server uses, on texts.
use Prim.Native.Nat.{ℕ, zero, suc, ◌/◌, ◌%◌}
use Prim.Native.Char.{Char, code}
use Prim.Native.String.{String, ◌++◌ as ◌<>◌}
use mathlib.Core.Path.{◌≡◌, refl}
use mathlib.Core.Bool.{Bool, false}
use mathlib.Core.Option.{Option, none, some}
use mathlib.Core.List.{List, [], ◌∷◌}
use text.Mathlib.Text.{starts_with, ◌==◌ as str_eq}
use emacs_relay.Common.Lists.{get_or}
use emacs_relay.Common.Tests.{ltb, ◌==◌, if◌then◌else◌}

-- `format!("{n}")` of a number with at most `digits` decimal digits.
abbrev decimal_chars : List Char
decimal_chars = "0" ∷ "1" ∷ "2" ∷ "3" ∷ "4" ∷ "5" ∷ "6" ∷ "7" ∷ "8" ∷ "9" ∷ []

unfoldable pub decimal_from : ℕ → ℕ → String → String
decimal_from zero n rest = rest
decimal_from (suc digits) n rest =
    let longer = String.◌∷◌ (get_or decimal_chars (n % 10) "0") rest in
    let more = decimal_from digits (n / 10) longer in if ltb n 10 then longer else more

-- A u64 has at most 20 digits.
unfoldable pub decimal : ℕ → String
unfolding decimal_from
decimal n = decimal_from 20 n ""

-- How many characters a text has.
abbrev pub characters : String → ℕ
characters String.[] = 0
characters (String.◌∷◌ c s) = suc (characters s)

-- The characters of a text, the last one first, in front of `acc`.
abbrev pub backwards : String → List Char → List Char
backwards String.[] acc = acc
backwards (String.◌∷◌ c s) acc = backwards s (c ∷ acc)

-- The text of such a list, in front of `acc`.
abbrev pub forwards : List Char → String → String
forwards [] acc = acc
forwards (c ∷ cs) acc = forwards cs (String.◌∷◌ c acc)

-- Behind the last component stand separators and `.` components, which do not count.
abbrev pub trim_back : List Char → List Char
trim_back [] = []
trim_back (c ∷ []) = if code c == b'/' then [] else c ∷ []
trim_back (c ∷ d ∷ cs) =
    let rest = trim_back (d ∷ cs) in
    if code c == b'/'
    then rest
    else if code c == b'.'
    then if code d == b'/' then rest else c ∷ d ∷ cs
    else c ∷ d ∷ cs

abbrev pub drop_name : List Char → List Char
drop_name [] = []
drop_name (c ∷ cs) = let rest = drop_name cs in if code c == b'/' then c ∷ cs else rest

abbrev pub root_or_empty : String → List Char → String
root_or_empty path [] = if starts_with path "/" then "/" else ""
root_or_empty path (c ∷ cs) = forwards (c ∷ cs) ""

abbrev pub parent_of : String → List Char → Option String
parent_of path [] = none
parent_of path (c ∷ cs) = some (root_or_empty path (trim_back (drop_name (c ∷ cs))))

-- `Path::parent`: none for the root and for the empty path.
unfoldable pub parent : String → Option String
parent path = parent_of path (trim_back (backwards path []))

abbrev pub ends_with_slash : List Char → Bool
ends_with_slash [] = false
ends_with_slash (c ∷ cs) = code c == b'/'

-- `Path::join`: a separator is put between unless there is one or the first part is empty, and an
-- absolute second part takes the whole place.
unfoldable pub join : String → String → String
join dir name =
    if starts_with name "/"
    then name
    else if str_eq dir ""
    then name
    else if ends_with_slash (backwards dir [])
    then dir <> name
    else dir <> ("/" <> name)

parent_examples :
    (parent "/a/b" ≡ some "/a")
    × (parent "/a" ≡ some "/")
    × (parent "a" ≡ some "")
    × (parent "/" ≡ none)
    × (parent "a/./b//" ≡ some "a")
    × (parent "./a" ≡ some ".")
unfolding parent
parent_examples = (refl, refl, refl, refl, refl, refl)

decimal_examples : (decimal 0 ≡ "0") × (decimal 1205 ≡ "1205")
unfolding decimal
decimal_examples = (refl, refl)
