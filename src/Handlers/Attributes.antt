-- ===== src/Handlers/Attributes.antt =====
-- The attributes of a file as a client gets them: `stat_value`, `dir_entry_value` and `resolve` of
-- server/src/fs_handlers.rs.
use emacs_relay.Common.{Bool, true, false, String, ◌<>◌, [], ◌∷◌, pos, if◌then◌else◌}
use emacs_relay.Fs.{
  Metadata, is_symlink, is_dir, FilePath, IoError, Result, ok, err, M, pure, ◌>>=◌, map_err,
  outcome,
}
use emacs_relay.Fs.Calls.{symlink_metadata}
use emacs_relay.Fs.Directories.{read_link, canonicalize}
use emacs_relay.Json.{Json}
use emacs_relay.Json.Object.{object, add_fields}

abbrev pub kind_of : Metadata → String
kind_of m = if is_dir m then "dir" else if is_symlink m then "symlink" else "file"

module _ (J : Json) where
  -- `Option<String>` in `json!`, of a link that was read.
  abbrev pub target_value : Result IoError FilePath → J.Value
  target_value (ok t) = J.text t
  target_value (err e) = J.null

  abbrev pub link_target : {E : Type 0} → FilePath → Bool → M E J.Value
  link_target path true = outcome (read_link path) >>= λ r. pure (target_value r)
  link_target path false = pure J.null

  abbrev pub attributes : Metadata → J.Value → J.Value
  attributes m target = object J (
      ("kind", J.text (kind_of m))
      ∷ ("size", J.unsigned m.size)
      ∷ ("mtime", J.signed m.mtime)
      ∷ ("mtime_nsec", J.signed m.mtime_nsec)
      ∷ ("mode", J.unsigned m.mode)
      ∷ ("symlink", J.boolean (is_symlink m))
      ∷ ("target", target)
      ∷ [])

  abbrev pub described : {E : Type 0} → FilePath → Result IoError Metadata → M E J.Value
  described path (ok m) = link_target path (is_symlink m) >>= λ target. pure (attributes m target)
  described path (err e) = pure J.null

  unfoldable pub stat_value : {E : Type 0} → FilePath → M E J.Value
  stat_value path = outcome (symlink_metadata path) >>= described path

  -- What stands for an entry that is gone by the time of its lstat.
  abbrev pub no_attributes : J.Value
  no_attributes = object J (
      ("kind", J.text "file")
      ∷ ("size", J.unsigned 0)
      ∷ ("mtime", J.signed (pos 0))
      ∷ ("mode", J.unsigned 0)
      ∷ ("symlink", J.boolean false)
      ∷ ("target", J.null)
      ∷ [])

  abbrev pub named : String → J.Value → J.Value
  named name v =
      let base : J.Value = if J.is_null v then no_attributes else v in
      add_fields J base (("name", J.text name) ∷ [])

  unfoldable pub dir_entry_value : {E : Type 0} → String → FilePath → M E J.Value
  dir_entry_value name path = stat_value path >>= λ v. pure (named name v)

  unfoldable pub resolve : FilePath → M String J.Value
  resolve path = do
    real ← map_err (λ e. "resolve: " <> e.shown) (canonicalize path)
    attrs ← stat_value real
    pure (object J (("realpath", J.text real) ∷ ("attrs", attrs) ∷ []))
