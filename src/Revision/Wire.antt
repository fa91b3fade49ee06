-- ===== src/Revision/Wire.antt =====
-- `Revision::to_value` and `Revision::from_value` of server/src/revisions/types.rs, and `wire_error`
-- of server/src/revisions/mod.rs.
pub mod RoundTrip
pub mod Accepts
use emacs_relay.Common.{ℕ, ◌^◌, ◌<>◌, String, Bool, true, false, Option, none, some, [], ◌∷◌, ℤ}
use emacs_relay.Common.{ltb, if◌then◌else◌, str_eq}
use emacs_relay.Fs.{Result, ok, err}
use emacs_relay.Json.{Json}
use emacs_relay.Json.Object.{Fields, object}
use emacs_relay.Revision.{
  Revision, RevisionState, RevisionKind, RevisionError, present, file, conflict, unstable_read,
  unsupported_final_type, unsupported_encoding, too_large, io, is_valid_file_revision, wire_name,
  readable,
}

-- `?` on a `Result<_, String>`
infixl 5 ◌>>=◌
abbrev pub ◌>>=◌ : {A B : Type 0} → Result String A → (A → Result String B) → Result String B
ok a >>= f = f a
err e >>= f = err e

-- `.ok_or_else(|| message)`
abbrev pub ok_or : {A : Type 0} → String → Option A → Result String A
ok_or message none = err message
ok_or message (some a) = ok a

abbrev pub and_then {ℓ κ} : {A : Type ℓ} {B : Type κ} → Option A → (A → Option B) → Option B
and_then none f = none
and_then (some a) f = f a

-- `match self.kind { RevisionKind::File => "file" }`
abbrev pub kind_text : RevisionKind → String
kind_text file = "file"

abbrev pub parse_state : String → Result String RevisionState
parse_state s = if str_eq s "present" then ok present else err "invalid state (expected present)"

abbrev pub parse_kind : String → Result String RevisionKind
parse_kind s = if str_eq s "file" then ok file else err "invalid kind"

-- `u8::try_from` and `u32::try_from`
abbrev pub narrow : ℕ → String → ℕ → Result String ℕ
narrow width message n = if ltb n (2 ^ width) then ok n else err message

abbrev pub checked : Revision → Result String Revision
checked r =
    if is_valid_file_revision r then ok r else err "invalid revision schema, metadata, or sha256"

module _ (J : Json) where
  abbrev pub revision_fields : Revision → Fields J
  revision_fields r =
      (("schema", J.unsigned r.schema)
        ∷ ("state", J.text "present")
        ∷ ("kind", J.text (kind_text r.kind))
        ∷ ("dev", J.unsigned r.dev)
        ∷ ("ino", J.unsigned r.ino)
        ∷ ("size", J.unsigned r.size)
        ∷ ("mtime_sec", J.signed r.mtime_sec)
        ∷ ("mtime_nsec", J.signed r.mtime_nsec)
        ∷ ("ctime_sec", J.signed r.ctime_sec)
        ∷ ("ctime_nsec", J.signed r.ctime_nsec)
        ∷ ("mode", J.unsigned r.mode)
        ∷ ("sha256", J.text r.sha256)
        ∷ [])

  unfoldable pub to_value : Revision → J.Value
  unfolding object
  to_value r = object J (revision_fields r)

  -- The closures `unsigned`, `signed` and `text` of `from_value`.
  abbrev pub unsigned : J.Object → String → Result String ℕ
  unsigned m name = ok_or ("missing or invalid " <> name) (and_then (J.get m name) J.as_u64)

  abbrev pub signed : J.Object → String → Result String ℤ
  signed m name = ok_or ("missing or invalid " <> name) (and_then (J.get m name) J.as_i64)

  abbrev pub text : J.Object → String → Result String String
  text m name = ok_or ("missing or invalid " <> name) (and_then (J.get m name) J.as_str)

  unfoldable pub from_object : J.Object → Result String Revision
  from_object m = do
    state ← text m "state" >>= parse_state
    kind ← text m "kind" >>= parse_kind
    schema ← unsigned m "schema" >>= narrow 8 "invalid schema"
    dev ← unsigned m "dev"
    ino ← unsigned m "ino"
    size ← unsigned m "size"
    mtime_sec ← signed m "mtime_sec"
    mtime_nsec ← signed m "mtime_nsec"
    ctime_sec ← signed m "ctime_sec"
    ctime_nsec ← signed m "ctime_nsec"
    mode ← unsigned m "mode" >>= narrow 32 "invalid mode"
    sha256 ← text m "sha256"
    checked (record {
      schema = schema;
      state = state;
      kind = kind;
      dev = dev;
      ino = ino;
      size = size;
      mtime_sec = mtime_sec;
      mtime_nsec = mtime_nsec;
      ctime_sec = ctime_sec;
      ctime_nsec = ctime_nsec;
      mode = mode;
      sha256 = sha256;
    })

  unfoldable pub from_value : J.Value → Result String Revision
  unfolding from_object
  from_value value = ok_or "expected an object" (J.as_object value) >>= from_object

  -- `current_revision.as_ref().map(Revision::to_value)` in `json!`: null where there is none.
  abbrev pub option_value : Option Revision → J.Value
  option_value none = J.null
  option_value (some r) = to_value r

  abbrev failure : String → RevisionError → J.Value
  failure code error = object J (
      ("ok", J.boolean false)
      ∷ ("error_code", J.text code)
      ∷ ("error", J.text (readable error))
      ∷ [])

  unfoldable pub wire_error : RevisionError → J.Value
  wire_error (conflict kind current) = object J (
      ("ok", J.boolean false)
      ∷ ("error_code", J.text "conflict")
      ∷ ("error", J.text (readable (conflict kind current)))
      ∷ (
        "conflict",
        object J
            (("kind", J.text (wire_name kind)) ∷ ("current_revision", option_value current) ∷ []),
      )
      ∷ [])
  wire_error unstable_read = failure "unstable_read" unstable_read
  wire_error (unsupported_final_type kind) =
      failure "unsupported_file_type" (unsupported_final_type kind)
  wire_error unsupported_encoding = failure "unsupported_encoding" unsupported_encoding
  wire_error too_large = failure "file_too_large" too_large
  wire_error (io message) = failure "io" (io message)
