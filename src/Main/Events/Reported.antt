-- ===== src/Main/Events/Reported.antt =====
-- Events of server/src/main.rs reach the client that watches.
use emacs_relay.Common.{◌≡◌, ◌⊎◌, Option, none, some, List, [], ◌∷◌, String}
use emacs_relay.Json.{Json}
use emacs_relay.Control.{Control}

abbrev pub Occurs : {A : Type 0} → A → List A → Type 0
Occurs x [] = ⊥
Occurs x (y ∷ ys) = (x ≡ y) ⊎ Occurs x ys

-- An entry of the table that has the path for an alias.
abbrev Aliased : String → Option (List String) → Type 0
Aliased path none = ⊥
Aliased path (some aliases) = Occurs path aliases
