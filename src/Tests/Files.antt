-- ===== src/Tests/Files.antt =====
-- Runs of the operations on files.
use emacs_relay.Common.{◌≡◌, refl, [], ◌∷◌, String, true}
use emacs_relay.Fs.{World, Result, ok, ◌>>=◌, map_err}
use emacs_relay.Fs.Calls.{query, mutate, file_metadata, set_permissions}
use emacs_relay.Fs.Names.{write_all}
use emacs_relay.Fs.Directories.{follow, exists, metadata}
use emacs_relay.Fs.Files.{open_read, open_truncate, open_append, append_all, contents, copy}
use emacs_relay.Json.Object.{object, field, insert_all}
use emacs_relay.Framing.{expand_home}
use emacs_relay.Handlers.Requests.{copy_request, legacy_write, write_file}
use emacs_relay.Common.{ℕ, false, some}
use emacs_relay.Fs.{is_dir}
use emacs_relay.Handlers.Requests.{rename_request, flag_of, path_of}
use emacs_relay.Handlers.Writes.{Writes}
use emacs_relay.Handlers.Writes.File.{decoded_answer, write_file-Writes}
use emacs_relay.Handlers.Exclusive.{Exclusive, write_file-Exclusive}
use emacs_relay.Fs.Directories.{target_of}
use emacs_relay.Handlers.Copies.Opened.{copied}
use emacs_relay.Handlers.Copies.Request.{copy_answer, copy_request-Moves}
use emacs_relay.Handlers.Moves.{move_answer}
use emacs_relay.Handlers.Moves.Request.{Moves, rename_request-Moves}
use emacs_relay.Tests.Calm.{start-IsCalm, start-IsNumbered}
use emacs_relay.Tests.Samples.{start}
use emacs_relay.Tests.Handlers.{J, host, coded}

abbrev copy_to_itself : J.Value
copy_to_itself = object J (("op", J.text "copy") ∷ ("to", J.text "/d/f") ∷ [])

run_copy : Result String J.Value × World
unfolding copy_request copy exists metadata follow open_read open_truncate contents write_all query
    mutate file_metadata set_permissions expand_home map_err ◌>>=◌ object field insert_all
run_copy = copy_request J host coded copy_to_itself "/d/f" start

-- A file that is copied onto itself is emptied, and the answer is an empty object.
copied_away : (run_copy.0 ≡ ok (object J [])) × ((run_copy.1.fs.inodes 4).bytes ≡ [])
unfolding run_copy
copied_away = (refl, refl)

abbrev append_abc : J.Value
append_abc =
    object J
      (("op", J.text "write") ∷ ("append", J.boolean true) ∷ ("bytes_b64", J.text "YWJj") ∷ [])

run_append : Result String J.Value × World
unfolding legacy_write write_file open_append append_all follow mutate map_err ◌>>=◌ object field
    insert_all
run_append = legacy_write J host coded append_abc "/d/f" start

-- The sample's file has the bytes twice.
appended : (run_append.1.fs.inodes 4).bytes ≡ b'a' ∷ b'b' ∷ b'c' ∷ b'a' ∷ b'b' ∷ b'c' ∷ []
unfolding run_append
appended = refl

write_file-Writes_example : Writes (write_file J host coded "/d/f" "YWJj" true false) start (
    decoded_answer J host coded start start-IsCalm start-IsNumbered
      (coded.decode "YWJj")
      true
      false
      "/d/f")
write_file-Writes_example =
    write_file-Writes J host coded start start-IsCalm start-IsNumbered "/d/f" "YWJj" true false

write_file-Exclusive_example :
    Exclusive "/d/f" start (write_file J host coded "/d/f" "YWJj" false true start)
write_file-Exclusive_example = write_file-Exclusive J host coded "/d/f" "YWJj" false start

abbrev move_to_g : J.Value
move_to_g =
    object J
      (("op", J.text "rename") ∷ ("to", J.text "/d/g") ∷ ("ok_if_exists", J.boolean false) ∷ [])

no_directory :
    (i : ℕ) → start.fs.names "/d/f" ≡ some i → is_dir (start.fs.inodes i).metadata ≡ false
no_directory i e = refl

rename_request-Moves_example :
    Moves J host coded (rename_request J host coded move_to_g "/d/f") start (
      move_answer
        (flag_of J host coded move_to_g "ok_if_exists" true)
        "/d/f"
        (path_of J host coded move_to_g "to")
        start.fs)
rename_request-Moves_example =
    rename_request-Moves J host coded move_to_g "/d/f" start start-IsCalm no_directory

leads_to_f : target_of start.fs "/d/f" ≡ ok 4
unfolding follow
leads_to_f = refl

lands_at_f : follow 40 start.fs (path_of J host coded copy_to_itself "to") ≡ ok "/d/f"
unfolding follow expand_home object field insert_all
lands_at_f = refl

copy_request-Moves_example :
    Moves J host coded (copy_request J host coded copy_to_itself "/d/f") start (
      copy_answer
        (flag_of J host coded copy_to_itself "ok_if_exists" true)
        (path_of J host coded copy_to_itself "to")
        (copied start.fs 4 "/d/f" (some 4))
        start.fs)
copy_request-Moves_example =
    copy_request-Moves J host coded copy_to_itself "/d/f" "/d/f" 4 start start-IsCalm
      start-IsNumbered leads_to_f refl lands_at_f no_directory
