-- ===== src/Main/Served.antt =====
-- What becomes of the requests in the main loop of server/src/main.rs.
use emacs_relay.Common.{
  inl, inr, ℕ, ◌≤◌, ◌≡◌, ◌↔◌, ◌⊎◌, refl, ap, sym, subst, ◌∙◌, eq_iff, on_test, arith, append-nil,
  append_assoc, ◌++◌, leb, str_eq, All, ℤ, pos, String, Bool, true, false, Option, none, some, List,
  [], ◌∷◌, length, if◌then◌else◌,
}
use emacs_relay.Json.{Json, IsLawful}
use emacs_relay.Json.Object.{Fields, field}
use emacs_relay.Fs.{Result, ok, err}
use emacs_relay.Revision.Wire.{and_then}
use emacs_relay.Framing.{Channel, max_frame_bytes, finish}
use emacs_relay.Framing.Replies.{Tells, literal, finish-IsReply}
use emacs_relay.Main.Frames.{read_frames-append}
use emacs_relay.Control.{Control, Host, i64_or, watch, nothing_more, run_op, text_of, handle_ctl}
use emacs_relay.Main.{Server, is_control, dispatch, serve, next_frame, write_frames, run}

module _ (J : Json) (host : Host) where
  -- The requests that the main loop answers itself.
  abbrev pub IsControl : J.Value → Type 0
  IsControl req =
      let op = text_of J host req "op" in (op ≡ "hello") ⊎ ((op ≡ "watch") ⊎ (op ≡ "unwatch"))

  is_control_iff :
      (req : J.Value) → (is_control J host (text_of J host req "op") ≡ true) ↔ IsControl req
  is_control_iff req =
      let op = text_of J host req "op" in
      ground (arith, eq_iff op "hello", eq_iff op "watch", eq_iff op "unwatch")

  -- A reply with the request's own id, unless it is too large for a frame.
  pub record Answers (req : J.Value) (one : Channel J) : Type 0 where
    pub id : ℤ
    pub id_lem :
        (and_then (field J req "id") J.as_i64 ≡ some id)
        ⊎ ((and_then (field J req "id") J.as_i64 ≡ none) × (id ≡ pos 0))
    pub outcome : Result String (Fields J)
    pub reply : J.Value
    pub tells : Tells J id outcome reply
    pub sent :
        one
        ≡ (if leb (length (J.to_bytes reply)) max_frame_bytes then J.to_bytes reply ∷ [] else [])

  -- What becomes of the requests: those of one kind are answered at once, all others are handed to the
  -- workers, both in the order in which they came.
  pub data Served : List J.Value → List J.Value → Channel J → Type 0 where
    all_served : Served [] [] []
    handed_over :
        {reqs jobs : List J.Value} {sent : Channel J} (req : J.Value)
        → ¬ IsControl req
        → Served reqs jobs sent
        → Served (req ∷ reqs) (req ∷ jobs) sent
    answered :
        {reqs jobs : List J.Value} {sent : Channel J} (req : J.Value) (one : Channel J)
        → IsControl req
        → Answers req one
        → Served reqs jobs sent
        → Served (req ∷ reqs) jobs (one ++ sent)

  abbrev pub if_any : Option J.Value → List J.Value → List J.Value
  if_any none reqs = reqs
  if_any (some req) reqs = req ∷ reqs

  -- The payloads that are JSON.
  abbrev pub requests : List (List ℕ) → List J.Value
  requests [] = []
  requests (payload ∷ rest) = if_any (J.from_slice payload) (requests rest)

  pub record IsServed (s v : Server J host) (reqs : List J.Value) : Type 0 where
    pub jobs : List J.Value
    pub sent : Channel J
    pub jobs_lem : v.jobs ≡ s.jobs ++ jobs
    pub replies_lem : v.replies ≡ s.replies ++ sent
    pub served : Served reqs jobs sent

  module _ (L : IsLawful J) where
    literal_if :
        (b : Bool) (p q : Result String J.Value × Control)
        → ((r : Result String (Fields J)) × (p.0 ≡ literal J r))
        → ((r : Result String (Fields J)) × (q.0 ≡ literal J r))
        → (r : Result String (Fields J)) × ((if b then p else q).0 ≡ literal J r)
    literal_if true p q h k = h
    literal_if false p q h k = k

    literal_nothing :
        (r : Result String (Unit {0}))
        → (fs : Result String (Fields J)) × (nothing_more J host r ≡ literal J fs)
    literal_nothing (ok _) = (ok [], refl)
    literal_nothing (err e) = (err e, refl)

    literal_answer :
        (op path : String) (s : Control)
        → (r : Result String (Fields J)) × ((run_op J host op path s).0 ≡ literal J r)
    literal_answer op path s =
        literal_if (str_eq op "hello") _ _ (ok _, refl)
          (literal_if (str_eq op "watch") _ _ (literal_nothing (watch host path s).0)
            (literal_if (str_eq op "unwatch") _ _ (ok [], refl) (err _, refl)))

    own_id :
        (o : Option ℤ)
        → (o ≡ some (i64_or J host (pos 0) o)) ⊎ ((o ≡ none) × (i64_or J host (pos 0) o ≡ pos 0))
    own_id none = inr (refl, refl)
    own_id (some n) = inl refl

    sent_one :
        (b : Bool) (tx : Channel J) (payload : List ℕ)
        → (if b then tx ++ (payload ∷ []) else tx) ≡ tx ++ (if b then payload ∷ [] else [])
    sent_one true tx payload = refl
    sent_one false tx payload = sym (append-nil tx)

    handle_ctl-Answers :
        (req : J.Value) (tx : Channel J) (s : Control)
        → (one : Channel J) × ((handle_ctl J host req tx s).0 ≡ tx ++ one) × Answers req one
    unfolding handle_ctl
    handle_ctl-Answers req tx s =
        let id = i64_or J host (pos 0) (and_then (field J req "id") J.as_i64) in
        let (r, e) = literal_answer (text_of J host req "op") (text_of J host req "path") s in
        let (v, sent, tells) = finish-IsReply J L tx id r in
        (
          _,
          ap (finish J tx id) e ∙ sent ∙ sent_one _ tx (J.to_bytes v),
          record {
            id = id;
            id_lem = own_id (and_then (field J req "id") J.as_i64);
            outcome = r;
            reply = v;
            tells = tells;
            sent = refl;
          },
        )

    -- The request before the others.
    handed_first :
        (req : J.Value) (s v : Server J host) (reqs : List J.Value)
        → ¬ IsControl req
        → IsServed (record s { jobs = s.jobs ++ (req ∷ []) }) v reqs
        → IsServed s v (req ∷ reqs)
    handed_first req s v reqs other h = record {
      jobs = req ∷ h.jobs;
      sent = h.sent;
      jobs_lem = h.jobs_lem ∙ append_assoc s.jobs (req ∷ []) h.jobs;
      replies_lem = h.replies_lem;
      served = handed_over req other h.served;
    }

    answered_first :
        (req : J.Value) (s v : Server J host) (reqs : List J.Value)
        → IsControl req
        → IsServed
            (record s {
              replies = (handle_ctl J host req s.replies s.control).0;
              control = (handle_ctl J host req s.replies s.control).1;
            })
            v
            reqs
        → IsServed s v (req ∷ reqs)
    answered_first req s v reqs control h =
        let (one, sent, answers) = handle_ctl-Answers req s.replies s.control in
        record {
          jobs = h.jobs;
          sent = one ++ h.sent;
          jobs_lem = h.jobs_lem;
          replies_lem =
              h.replies_lem ∙ ap (λ r. r ++ h.sent) sent ∙ append_assoc s.replies one h.sent;
          served = answered req one control answers h.served;
        }

    dispatched :
        (o : Option J.Value) (s v : Server J host) (reqs : List J.Value)
        → IsServed (dispatch J host o s) v reqs
        → IsServed s v (if_any o reqs)
    dispatched none s v reqs h = h
    dispatched (some req) s v reqs h =
        let op = text_of J host req "op" in
        on_test (λ s'. IsServed s' v reqs → IsServed s v (req ∷ reqs)) (is_control J host op) _ _
          (λ control. answered_first req s v reqs ((is_control_iff req).0 control))
          (λ other. handed_first req s v reqs (λ c. let control = (is_control_iff req).1 c in cc)) h

    serve-IsServed :
        (payloads : List (List ℕ)) (s : Server J host)
        → IsServed s (serve J host payloads s) (requests payloads)
    unfolding serve
    serve-IsServed [] s = record {
      jobs = [];
      sent = [];
      jobs_lem = sym (append-nil s.jobs);
      replies_lem = sym (append-nil s.replies);
      served = all_served;
    }
    serve-IsServed (payload ∷ rest) s =
        dispatched (J.from_slice payload) s _ (requests rest)
          (serve-IsServed rest (dispatch J host (J.from_slice payload) s))

  -- Where the client sends frames, whatever is in them, and behind them nothing, the start of a frame or one
  -- that is too large: every request to say hello, to watch or to unwatch is answered by a reply with
  -- its id, or 0 where it has none, unless that reply is too large for a frame, and every other request
  -- is handed to the workers, both in order and with none left out; what is no JSON is passed over.
  pub run-IsServed :
      (payloads : List (List ℕ)) (rest : List ℕ) (s : Server J host)
      → IsLawful J
      → All (λ p. length p ≤ max_frame_bytes) payloads
      → next_frame rest ≡ none
      → IsServed s (run J host (write_frames payloads ++ rest) s) (requests payloads)
  unfolding run
  run-IsServed payloads rest s L fits over =
      subst (λ read. IsServed s (serve J host read s) (requests payloads))
        (sym (read_frames-append payloads rest fits over)) (serve-IsServed L payloads s)
