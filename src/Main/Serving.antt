-- ===== src/Main/Serving.antt =====
-- The main loop of server/src/main.rs over any input.
use emacs_relay.Common.{
  length, ℕ, ◌≢◌, Bool, true, false, Option, none, some, List, [], ◌∷◌, if◌then◌else◌,
}
use emacs_relay.Json.{Json}
use emacs_relay.Control.{Host, text_of}
use emacs_relay.Control.Requests.{IsKept, handle_ctl-IsKept}
use emacs_relay.Main.{Server, is_control, dispatch, serve, read_frames, run}

module _ (J : Json) (host : Host) where
  -- The table is in step and used, and every reply fits a frame.
  abbrev pub IsSound : Server J host → Type 0
  IsSound s = IsKept J (s.replies, s.control)

  IsSound-if :
      (b : Bool) (r q : Server J host) → IsSound r → IsSound q → IsSound (if b then r else q)
  IsSound-if true r q h k = h
  IsSound-if false r q h k = k

  module _ (there : host.watcher ≢ none) where
    dispatch-IsSound :
        (req : Option J.Value) (s : Server J host) → IsSound s → IsSound (dispatch J host req s)
    dispatch-IsSound none s h = h
    dispatch-IsSound (some req) s h =
        IsSound-if (is_control J host (text_of J host req "op")) _ _
          (handle_ctl-IsKept J host req s.replies s.control there h.0 h.1 h.2) h

    serve-IsSound :
        (payloads : List (List ℕ)) (s : Server J host)
        → IsSound s
        → IsSound (serve J host payloads s)
    unfolding serve
    serve-IsSound [] s h = h
    serve-IsSound (payload ∷ rest) s h =
        serve-IsSound rest (dispatch J host (J.from_slice payload) s)
          (dispatch-IsSound (J.from_slice payload) s h)

  -- Whatever bytes a client sends, be they frames or not: behind them the watch table is in step with the
  -- watcher, every entry is asked for, and every reply fits a frame, if this was so before and the server
  -- has a watcher.
  pub run-IsSound :
      (input : List ℕ) (s : Server J host)
      → host.watcher ≢ none
      → IsSound s
      → IsSound (run J host input s)
  unfolding run
  run-IsSound input s there h = serve-IsSound there (read_frames (length input) input) s h
