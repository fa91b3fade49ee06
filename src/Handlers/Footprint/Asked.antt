-- ===== src/Handlers/Footprint/Asked.antt =====
-- What a write request to `handle_fs` of server/src/fs_handlers.rs asks for, read off its fields.
use emacs_relay.Common.{
  ℕ, ◌≡◌, refl, ap, subst, arith, ◌<>◌, ◌∙◌, ◌⊎◌, inl, inr, String, Bool, true, false, not, ◌&&◌,
  Option, none, some, str_eq, eq_iff, if◌then◌else◌,
}
use emacs_relay.Fs.{Result, ok, err, M}
use emacs_relay.Json.{Json}
use emacs_relay.Json.Object.{field}
use emacs_relay.Revision.{Revision, ExpectedRevision, missing}
use emacs_relay.Revision.Wire.{and_then, from_value}
use emacs_relay.Control.{Host}
use emacs_relay.Handlers.{Base64}
use emacs_relay.Handlers.Requests.{
  or_default, expected_of_state, expected_present, expected_of_value, expected_by,
  expected_revision_from_request,
}
use emacs_relay.Handlers.Dispatch.{plain_write}

abbrev expectation : Result String (Option ExpectedRevision) → ExpectedRevision
expectation (ok (some e)) = e
expectation (ok none) = missing
expectation (err m) = missing

module _ (J : Json) (req : J.Value) where
  abbrev pub HasFlag : String → Type 0
  HasFlag name = and_then (field J req name) J.as_bool ≡ some true

  -- A write that does not overwrite.
  abbrev pub IsSpecial : Type 0
  IsSpecial = HasFlag "append" ⊎ HasFlag "must_be_new"

  abbrev pub state_named : Option String
  state_named = and_then (field J req "expected_state") J.as_str

  -- What the request expects to find: nothing, or a file of the revision that it gives.
  pub data Expects : ExpectedRevision → Type 0 where
    expects_missing : state_named ≡ some "missing" → Expects missing
    expects_present :
        {value : J.Value} {r : Revision}
        → state_named ≡ none
        → field J req "expected_revision" ≡ some value
        → from_value J value ≡ ok r
        → Expects (ExpectedRevision.present r)

  abbrev pub ExpectsNothing : Type 0
  ExpectsNothing = (state_named ≡ none) × (field J req "expected_revision" ≡ none)

  module _ (host : Host) (B : Base64) where
    by_value :
        (o : Option J.Value) {e : ExpectedRevision}
        → state_named ≡ none
        → field J req "expected_revision" ≡ o
        → expected_of_value J host B o ≡ ok (some e)
        → Expects e
    by_value none no_state is h = cc
    by_value (some value) {e} no_state is h = go (from_value J value) refl h
      where
        go :
            (r : Result String Revision)
            → from_value J value ≡ r
            → expected_present J host B r ≡ ok (some e)
            → Expects e
        go (ok r) q h = subst Expects (ap expectation h) (expects_present no_state is q)
        go (err m) q h = cc

    by_state :
        (state : String) {e : ExpectedRevision}
        → state_named ≡ some state
        → expected_of_state J host B state ≡ ok (some e)
        → Expects e
    by_state state {e} named h = go (str_eq state "missing") refl (str_eq state "present") h
      where
        go :
            (b : Bool)
            → str_eq state "missing" ≡ b
            → (c : Bool)
            → (if b
                then ok (some missing)
                else if c
                then err "write: expected_state present requires expected_revision"
                else err ("write: invalid expected_state: " <> state))
              ≡ ok (some e)
            → Expects e
        go true q c h =
            subst Expects (ap expectation h)
              (expects_missing (named ∙ ap some ((eq_iff state "missing").0 q)))
        go false q true h = cc
        go false q false h = cc

    parsed :
        (o : Option String) {e : ExpectedRevision}
        → state_named ≡ o
        → expected_by J host B req o ≡ ok (some e)
        → Expects e
    parsed none named h = by_value (field J req "expected_revision") named refl h
    parsed (some state) named h = by_state state named h

    pub parsed-Expects :
        {e : ExpectedRevision}
        → expected_revision_from_request J host B req ≡ ok (some e)
        → Expects e
    unfolding expected_revision_from_request
    parsed-Expects h = parsed state_named refl h

    no_state : (state : String) → expected_of_state J host B state ≡ ok none → ⊥
    no_state state h = go (str_eq state "missing") (str_eq state "present") h
      where
        go :
            (b c : Bool)
            → (if b
                then ok (some missing)
                else if c
                then err "write: expected_state present requires expected_revision"
                else err ("write: invalid expected_state: " <> state))
              ≡ ok none
            → ⊥
        go true c h = cc
        go false true h = cc
        go false false h = cc

    no_revision : (r : Result String Revision) → expected_present J host B r ≡ ok none → ⊥
    no_revision (ok r) h = cc
    no_revision (err m) h = cc

    parsed_none :
        (o : Option String) (v : Option J.Value)
        → state_named ≡ o
        → field J req "expected_revision" ≡ v
        → expected_by J host B req o ≡ ok none
        → expected_of_value J host B v
          ≡ expected_of_value J host B (field J req "expected_revision")
        → ExpectsNothing
    parsed_none (some state) v named is h same = absurd (no_state state h)
    parsed_none none none named is h same = (named, is)
    parsed_none none (some value) named is h same =
        absurd (no_revision (from_value J value) (same ∙ h))

    pub parsed-ExpectsNothing :
        expected_revision_from_request J host B req ≡ ok none → ExpectsNothing
    unfolding expected_revision_from_request
    parsed-ExpectsNothing h =
        parsed_none state_named (field J req "expected_revision") refl refl h refl

    pub overwrites :
        (exec : J.Value → M String J.Value) (listening : ℕ → Bool)
        → plain_write J host B exec listening req ≡ true
        → ¬ IsSpecial
    overwrites exec listening h (inl s) = ground (arith, s)
    overwrites exec listening h (inr s) = ground (arith, s)

    pub special :
        (exec : J.Value → M String J.Value) (listening : ℕ → Bool)
        → plain_write J host B exec listening req ≡ false
        → IsSpecial
    special exec listening h =
        go (and_then (field J req "append") J.as_bool) refl
          (and_then (field J req "must_be_new") J.as_bool) refl h
      where
        go :
            (a : Option Bool)
            → and_then (field J req "append") J.as_bool ≡ a
            → (n : Option Bool) → and_then (field J req "must_be_new") J.as_bool ≡ n
            → (not (or_default false a) && not (or_default false n)) ≡ false
            → IsSpecial
        go (some true) p n q h = inl p
        go a p (some true) q h = inr q
        go none p none q h = cc
        go none p (some false) q h = cc
        go (some false) p none q h = cc
        go (some false) p (some false) q h = cc
