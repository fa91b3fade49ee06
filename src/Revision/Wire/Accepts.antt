-- ===== src/Revision/Wire/Accepts.antt =====
-- What `from_value` accepts is valid.
use emacs_relay.Common.{◌<◌, ◌^◌, ◌≡◌, true, arith}
use emacs_relay.Fs.{ok}
use emacs_relay.Json.{Json}
use emacs_relay.Revision.{Revision, is_valid_file_revision}
use emacs_relay.Revision.Wire.{from_value}

-- Whatever JSON a client sends, an accepted revision passes `is_valid_file_revision`, and its schema
-- and mode fit their widths.
pub from_value-is_valid :
    (J : Json) (value : J.Value) {r : Revision}
    → from_value J value ≡ ok r
    → (is_valid_file_revision r ≡ true) × (r.schema < 2 ^ 8) × (r.mode < 2 ^ 32)
unfolding from_value
from_value-is_valid J value h = ground arith
