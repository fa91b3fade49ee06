-- ===== src/Framing/Replies.antt =====
-- What server/src/framing.rs puts into the channel.
use emacs_relay.Common.{
  ℕ, ◌≤◌, ◌≡◌, ◌≢◌, refl, sym, ◌∙◌, inl, inr, Bool-cases, eq_iff, str_eq, String, Bool, true, false,
  none, some, List, [], ◌∷◌, ◌++◌, ℤ, leb, leb→le, if◌then◌else◌, length, All,
}
use emacs_relay.Fs.{Result, ok, err}
use emacs_relay.Json.{Json, IsLawful}
use emacs_relay.Json.Object.{
  Fields, object, add_fields, field, found, field-object, field-add_fields,
}
use emacs_relay.Revision.{
  RevisionError, conflict, unstable_read, unsupported_final_type, unsupported_encoding, too_large,
  io, readable,
}
use emacs_relay.Revision.Wire.{wire_error}
use emacs_relay.Framing.{max_frame_bytes, Channel, send, finish, finish_revision}

module _ (J : Json) where
  -- The fields by which a client matches a reply to its request.
  pub record IsReply (id : ℤ) (flag : Bool) (v : J.Value) : Type 0 where
    pub id_field : field J v "id" ≡ some (J.signed id)
    pub ok_field : field J v "ok" ≡ some (J.boolean flag)

  -- One payload more, or none where it is too large for a frame.
  abbrev pub Sent : Channel J → J.Value → Channel J → Type 0
  Sent tx v tx' =
      tx' ≡ (if leb (length (J.to_bytes v)) max_frame_bytes then tx ++ (J.to_bytes v ∷ []) else tx)

  -- What a plain reply says of the outcome: the answer's own fields, or the text of the error.
  abbrev pub Tells : ℤ → Result String (Fields J) → J.Value → Type 0
  Tells id (ok fs) v =
      IsReply id true v × ((k : String) → k ≢ "id" → k ≢ "ok" → field J v k ≡ found J none k fs)
  Tells id (err e) v = IsReply id false v × (field J v "error" ≡ some (J.text e))

  -- The handlers' answers are object literals.
  abbrev pub literal : {E : Type 0} → Result E (Fields J) → Result E J.Value
  literal (ok fs) = ok (object J fs)
  literal (err e) = err e

  -- What a client is told of an error, besides its text.
  abbrev pub error_code : RevisionError → String
  error_code (conflict kind current) = "conflict"
  error_code unstable_read = "unstable_read"
  error_code (unsupported_final_type kind) = "unsupported_file_type"
  error_code unsupported_encoding = "unsupported_encoding"
  error_code too_large = "file_too_large"
  error_code (io message) = "io"

  abbrev pub IsErrorOf : RevisionError → J.Value → Type 0
  IsErrorOf e v =
      (field J v "error_code" ≡ some (J.text (error_code e)))
      × (field J v "error" ≡ some (J.text (readable e)))

  module _ (L : IsLawful J) where
    added-IsReply :
        (id : ℤ) (fs : Fields J)
        → IsReply id true
            (add_fields J (object J fs) (("id", J.signed id) ∷ ("ok", J.boolean true) ∷ []))
    added-IsReply id fs =
        let gs : Fields J = ("id", J.signed id) ∷ ("ok", J.boolean true) ∷ [] in
        record {
          id_field = field-add_fields J L fs gs "id";
          ok_field = field-add_fields J L fs gs "ok";
        }

    other_key : (k j : String) → k ≢ j → str_eq j k ≡ false
    other_key k j h = elim (Bool-cases (str_eq j k)) [
      | inl same ↦ absurd (h (sym ((eq_iff j k).0 same)))
      | inr differ ↦ differ
    ]

    -- The answer's own fields stay under their names.
    added-found :
        (id : ℤ) (fs : Fields J) (k : String)
        → k ≢ "id"
        → k ≢ "ok"
        → field J (add_fields J (object J fs) (("id", J.signed id) ∷ ("ok", J.boolean true) ∷ [])) k
          ≡ found J none k fs
    added-found id fs k h g =
        let gs : Fields J = ("id", J.signed id) ∷ ("ok", J.boolean true) ∷ [] in
        field-add_fields J L fs gs k ∙ rw (other_key k "id" h, other_key k "ok" g) refl

    -- `finish` sends one reply, which has the request's id and says whether it went well, with the fields of
    -- the answer, or with an error its text; but a reply that is too large for a frame is not sent at
    -- all.
    pub finish-IsReply :
        (tx : Channel J) (id : ℤ) (r : Result String (Fields J))
        → (v : J.Value) × Sent tx v (finish J tx id (literal r)) × Tells id r v
    unfolding finish send
    finish-IsReply tx id (ok fs) = (_, refl, (added-IsReply id fs, added-found id fs))
    finish-IsReply tx id (err e) =
        let gs : Fields J =
          ("id", J.signed id) ∷ ("ok", J.boolean false) ∷ ("error", J.text e) ∷ [] in
        (
          object J gs,
          refl,
          (
            record { id_field = field-object J L gs "id"; ok_field = field-object J L gs "ok" },
            field-object J L gs "error",
          ),
        )

    error-IsReply :
        (id : ℤ) (e : RevisionError) (fs : Fields J)
        → found J none "ok" fs ≡ some (J.boolean false)
        → found J none "error_code" fs ≡ some (J.text (error_code e))
        → found J none "error" fs ≡ some (J.text (readable e))
        → let v = add_fields J (object J fs) (("id", J.signed id) ∷ []) in
          IsReply id false v × IsErrorOf e v
    error-IsReply id e fs flag code text =
        let gs : Fields J = ("id", J.signed id) ∷ [] in
        (
          record {
            id_field = field-add_fields J L fs gs "id";
            ok_field = field-add_fields J L fs gs "ok" ∙ flag;
          },
          (
            field-add_fields J L fs gs "error_code" ∙ code,
            field-add_fields J L fs gs "error" ∙ text,
          ),
        )

    failed-IsReply :
        (id : ℤ) (e : RevisionError)
        → let v = add_fields J (wire_error J e) (("id", J.signed id) ∷ []) in
          IsReply id false v × IsErrorOf e v
    unfolding wire_error
    failed-IsReply id (conflict kind current) =
        error-IsReply id (conflict kind current) _ refl refl refl
    failed-IsReply id unstable_read = error-IsReply id unstable_read _ refl refl refl
    failed-IsReply id (unsupported_final_type kind) =
        error-IsReply id (unsupported_final_type kind) _ refl refl refl
    failed-IsReply id unsupported_encoding = error-IsReply id unsupported_encoding _ refl refl refl
    failed-IsReply id too_large = error-IsReply id too_large _ refl refl refl
    failed-IsReply id (io message) = error-IsReply id (io message) _ refl refl refl

    abbrev pub IsAnswer : ℤ → Result RevisionError (Fields J) → J.Value → Type 0
    IsAnswer id (ok fs) v = IsReply id true v
    IsAnswer id (err e) v = IsReply id false v × IsErrorOf e v

    -- `finish_revision` sends one reply, which has the request's id and says whether it went well, and with an
    -- error its code and its text; but a reply that is too large for a frame is not sent at all.
    pub finish_revision-IsAnswer :
        (tx : Channel J) (id : ℤ) (r : Result RevisionError (Fields J))
        → (v : J.Value) × Sent tx v (finish_revision J tx id (literal r)) × IsAnswer id r v
    unfolding finish_revision send
    finish_revision-IsAnswer tx id (ok fs) = (_, refl, added-IsReply id fs)
    finish_revision-IsAnswer tx id (err e) = (_, refl, failed-IsReply id e)

  -- A payload that fits a frame.
  abbrev pub Fits : List ℕ → Type 0
  Fits payload = length payload ≤ max_frame_bytes

  All-snoc : (xs : List (List ℕ)) (x : List ℕ) → All Fits xs → Fits x → All Fits (xs ++ (x ∷ []))
  All-snoc [] x h k = (k, tt)
  All-snoc (y ∷ ys) x h k = (h.0, All-snoc ys x h.1 k)

  send-Fits : (tx : Channel J) (v : J.Value) → All Fits tx → All Fits (send J tx v)
  unfolding send
  send-Fits tx v h = go (leb (length (J.to_bytes v)) max_frame_bytes) refl
    where
      go :
          (b : Bool)
          → leb (length (J.to_bytes v)) max_frame_bytes ≡ b
          → All Fits (if b then tx ++ (J.to_bytes v ∷ []) else tx)
      go true e = All-snoc tx (J.to_bytes v) h (leb→le (length (J.to_bytes v)) max_frame_bytes e)
      go false e = h

  -- Whatever a handler answers, no payload that it puts into the channel is larger than a frame may be.
  pub finish-Fits :
      (tx : Channel J) (id : ℤ) (r : Result String J.Value) (q : Result RevisionError J.Value)
      → All Fits tx
      → All Fits (finish J tx id r) × All Fits (finish_revision J tx id q)
  unfolding finish finish_revision
  finish-Fits tx id r q h = (plain r, revision q)
    where
      plain : (r : Result String J.Value) → All Fits (finish J tx id r)
      plain (ok v) = send-Fits tx _ h
      plain (err e) = send-Fits tx _ h

      revision : (q : Result RevisionError J.Value) → All Fits (finish_revision J tx id q)
      revision (ok v) = send-Fits tx _ h
      revision (err e) = send-Fits tx _ h
