-- ===== src/Tests/Hosts.antt =====
-- The theorems on the tracing and on the search for the host, at small inputs.
use nite_pr.Base.{◌≡◌, refl, true, false, Option, none, some, [], ◌∷◌}
use nite_pr.Base.Text.{Text, text}
use nite_pr.Base.Exec.{ok, err}
use nite_pr.Host.{File, absent, holds, read_host_file, resolve_host, from_environ, from_files}
use nite_pr.Host.Laws.{IsHost, resolve_host-IsHost}
use nite_pr.Host.Agreeing.{scripts-resolve_host}
use nite_pr.Host.Scripts.{host_or, exit}
use nite_pr.Host.Scripts.Check.{discovered, check_host}
use nite_pr.Host.Scripts.Send.{send_host}
use nite_pr.Trace.{Value, bytes, str, list, fields, null, named, nil, cons, empty, entry}
use nite_pr.Trace.Setup.{Environ, configure_tracing}
use nite_pr.Trace.Setup.Laws.{IsConfigured, configure_tracing-IsConfigured}

-- A reading as an object with fields, in a list.
abbrev peeks : Value
peeks = list (
    cons
      (fields (
        entry (named (text "self")) null (
          entry (named (text "data")) (str (text "0a0b"))
            (entry (named (text "content")) (bytes (10 ∷ 11 ∷ [])) empty))))
      nil)

abbrev no_environ : Text → Option Text
no_environ key = none

-- Every file holds a comment, a blank line and an address.
abbrev full_disk : Text → File
full_disk path = holds (35 ∷ 13 ∷ 10 ∷ 32 ∷ 10 ∷ 32 ∷ 49 ∷ 9 ∷ 10 ∷ [])

abbrev no_files : Text → File
no_files path = absent

host_in_file : resolve_host no_environ full_disk none ≡ ok (some (text "1"))
unfolding resolve_host from_environ from_files read_host_file nite_pr.Base.Text.strip
host_in_file = refl

resolve_host-IsHost_example : IsHost (text "1")
resolve_host-IsHost_example = resolve_host-IsHost no_environ full_disk none host_in_file

scripts-resolve_host_example :
    (check_host no_environ no_files (ok (text "ps5" ∷ [])) none true
      ≡ host_or (resolve_host no_environ no_files none) (discovered true (ok (text "ps5" ∷ []))))
    × (send_host no_environ no_files none
        ≡ host_or (resolve_host no_environ no_files none) (err (exit 2)))
scripts-resolve_host_example =
    scripts-resolve_host no_environ no_files (ok (text "ps5" ∷ [])) none true

-- Every key of the environment is "on".
abbrev all_on : Environ
all_on key = some (text "on")

configure_tracing-IsConfigured_example : IsConfigured (configure_tracing none false all_on)
configure_tracing-IsConfigured_example = configure_tracing-IsConfigured none false all_on
