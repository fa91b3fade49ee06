-- ===== src/Control/Requests.antt =====
-- `handle_ctl` of server/src/control.rs for any request.
use emacs_relay.Common.{◌≢◌, String, Bool, true, false, none, if◌then◌else◌, str_eq, All}
use emacs_relay.Fs.{Result, err}
use emacs_relay.Json.{Json}
use emacs_relay.Framing.{Channel}
use emacs_relay.Framing.Replies.{Fits, finish-Fits}
use emacs_relay.Revision.{too_large}
use emacs_relay.Control.{Control, Host, run_op, text_of, handle_ctl}
use emacs_relay.Control.Table.{InStep, watch-InStep}
use emacs_relay.Control.Aliases.{IsUsed, watch-IsUsed}

module _ (J : Json) where
  -- The table is in step with the watcher and has no unused entry, and every payload fits a frame.
  abbrev pub IsKept : Channel J × Control → Type 0
  IsKept r = InStep r.1 × IsUsed r.1.watched × All (Fits J) r.0

  abbrev Tidy : Control → Type 0
  Tidy s = InStep s × IsUsed s.watched

  Tidy-if :
      (b : Bool) (r q : Result String J.Value × Control)
      → Tidy r.1
      → Tidy q.1
      → Tidy (if b then r else q).1
  Tidy-if true r q h k = h
  Tidy-if false r q h k = k

  module _ (host : Host) (there : host.watcher ≢ none) where
    run_op-Tidy : (op path : String) (s : Control) → Tidy s → Tidy (run_op J host op path s).1
    run_op-Tidy op path s (h, k) =
        let step = watch-InStep host path s there h in
        let used = watch-IsUsed host path s k in
        Tidy-if (str_eq op "hello") _ _ (h, k)
          (Tidy-if (str_eq op "watch") _ _ (step.0, used.0)
            (Tidy-if (str_eq op "unwatch") _ _ (step.1, used.1) (h, k)))

  -- Where the server has a watcher, any request to `handle_ctl` keeps the table in step with the watched
  -- directories and every entry asked for by some path, and no payload that it sends is too large.
  pub handle_ctl-IsKept :
      (host : Host) (req : J.Value) (tx : Channel J) (s : Control)
      → host.watcher ≢ none
      → InStep s
      → IsUsed s.watched
      → All (Fits J) tx
      → IsKept (handle_ctl J host req tx s)
  unfolding handle_ctl
  handle_ctl-IsKept host req tx s there h k fits =
      let (step, used) =
        run_op-Tidy host there (text_of J host req "op") (text_of J host req "path") s (h, k) in
      (step, used, (finish-Fits J tx _ _ (err too_large) fits).0)
