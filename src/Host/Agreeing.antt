-- ===== src/Host/Agreeing.antt =====
-- The search for the host in the two scripts against the one in web/nitepr5_core/host.py, which the
-- three files each write out.
use nite_pr.Base.{
  ◌≡◌, refl, sym, ap, ◌∙◌, Bool, false, not, ◌&&◌, Option, none, some, List, [], ◌∷◌, if◌then◌else◌,
  Bool-cases, inl, inr,
}
use nite_pr.Base.Text.{Text, strip, is_nonempty}
use nite_pr.Base.Exec.{Outcome, ok, err, blocked}
use nite_pr.Base.Result.{◌>>=◌}
use nite_pr.Errors.{Error}
use nite_pr.Host.{
  File, absent, unreadable, undecodable, holds, is_comment, truthy, first_line, split_lines,
  read_host_file, given, value_or_empty, from_environ, environ_keys, or_next, from_files,
  host_files, resolve_host,
}
use nite_pr.Host.Scripts.{Ending, exit, host_or, text_or}
use nite_pr.Host.Scripts.Check
use nite_pr.Host.Scripts.Check.{discovered, check_host}
use nite_pr.Host.Scripts.Send
use nite_pr.Host.Scripts.Send.{send_host}

host_or-or_next :
    (v : Option Text) (m : Outcome Error (Option Text)) (rest : Outcome Ending Text)
    → host_or (or_next v m) rest ≡ host_or (ok v) (host_or m rest)
host_or-or_next none m rest = refl
host_or-or_next (some []) m rest = refl
host_or-or_next (some (c ∷ s)) m rest = refl

host_or-truthy :
    (s : Text) (rest : Outcome Ending Text) → host_or (ok (truthy s)) rest ≡ text_or s rest
host_or-truthy [] rest = refl
host_or-truthy (c ∷ s) rest = refl

-- A read of a file, and then the other files.
host_or->>= :
    (r : Outcome Error (Option Text)) (m : Outcome Error (Option Text)) (rest : Outcome Ending Text)
    → host_or (r >>= λ v. or_next v m) rest ≡ host_or r (host_or m rest)
host_or->>= (ok v) m rest = host_or-or_next v m rest
host_or->>= (err e) m rest = refl
host_or->>= blocked m rest = refl

-- What a loop over lines keeps of one line, with the test of the scripts and with the core's.
host_line_step :
    (l : Text) (next : Option Text)
    → (if is_nonempty l && not (is_comment l) then some l else next)
      ≡ elim (truthy l) [ some k ↦ if is_comment k then next else some k | none ↦ next ]
host_line_step [] next = refl
host_line_step (c ∷ l) next = elim (Bool-cases (is_comment (c ∷ l))) [
  | inl comment ↦ rw comment refl
  | inr host ↦ rw host refl
]

host_or-first :
    (s : Text) (v : Option Text) (rest : Outcome Ending Text)
    → host_or (ok (elim (truthy s) [ some l ↦ some l | none ↦ v ])) rest
      ≡ text_or s (host_or (ok v) rest)
host_or-first [] v rest = refl
host_or-first (c ∷ s) v rest = refl

check_host_line : (lines : List Text) → Check.host_line lines ≡ first_line lines
unfolding Check.host_line first_line
check_host_line [] = refl
check_host_line (line ∷ lines) =
    host_line_step (strip line) (Check.host_line lines)
    ∙ ap
        (λ o. elim (truthy (strip line)) [ some k ↦ if is_comment k then o else some k | none ↦ o ])
        (check_host_line lines)

check_read_host_file : (file : File) → Check.read_host_file file ≡ read_host_file file
unfolding Check.read_host_file read_host_file
check_read_host_file absent = refl
check_read_host_file unreadable = refl
check_read_host_file undecodable = refl
check_read_host_file (holds s) = ap ok (check_host_line (split_lines false s))

check_cli_or :
    (cli : Option Text) (rest : Outcome Ending Text)
    → Check.cli_or cli rest ≡ host_or (ok (given cli)) rest
check_cli_or none rest = refl
check_cli_or (some s) rest = sym (host_or-truthy (strip s) rest)

module _ (environ : Text → Option Text) (disk : Text → File) (rest : Outcome Ending Text) where
  check_key_or :
      (keys : List Text)
      → Check.key_or environ disk keys rest ≡ host_or (ok (from_environ environ keys)) rest
  unfolding Check.key_or from_environ
  check_key_or [] = refl
  check_key_or (key ∷ keys) =
      let s = strip (value_or_empty (environ key)) in
      ap (text_or s) (check_key_or keys) ∙ sym (host_or-first s (from_environ environ keys) rest)

  check_file_or :
      (paths : List Text)
      → Check.file_or environ disk paths rest ≡ host_or (from_files disk paths) rest
  unfolding Check.file_or from_files
  check_file_or [] = refl
  check_file_or (path ∷ paths) =
      ap (λ r. host_or r (Check.file_or environ disk paths rest)) (check_read_host_file (disk path))
      ∙ (ap (host_or (read_host_file (disk path))) (check_file_or paths)
          ∙ sym (host_or->>= (read_host_file (disk path)) (from_files disk paths) rest))

send_host_line : (lines : List Text) → Send.host_line lines ≡ first_line lines
unfolding Send.host_line first_line
send_host_line [] = refl
send_host_line (line ∷ lines) =
    host_line_step (strip line) (Send.host_line lines)
    ∙ ap
        (λ o. elim (truthy (strip line)) [ some k ↦ if is_comment k then o else some k | none ↦ o ])
        (send_host_line lines)

send_read_host_file : (file : File) → Send.read_host_file file ≡ read_host_file file
unfolding Send.read_host_file read_host_file
send_read_host_file absent = refl
send_read_host_file unreadable = refl
send_read_host_file undecodable = refl
send_read_host_file (holds s) = ap ok (send_host_line (split_lines false s))

send_cli_or :
    (cli : Option Text) (rest : Outcome Ending Text)
    → Send.cli_or cli rest ≡ host_or (ok (given cli)) rest
send_cli_or none rest = refl
send_cli_or (some s) rest = sym (host_or-truthy (strip s) rest)

module _ (environ : Text → Option Text) (disk : Text → File) (rest : Outcome Ending Text) where
  send_key_or :
      (keys : List Text)
      → Send.key_or environ disk keys rest ≡ host_or (ok (from_environ environ keys)) rest
  unfolding Send.key_or from_environ
  send_key_or [] = refl
  send_key_or (key ∷ keys) =
      let s = strip (value_or_empty (environ key)) in
      ap (text_or s) (send_key_or keys) ∙ sym (host_or-first s (from_environ environ keys) rest)

  send_file_or :
      (paths : List Text)
      → Send.file_or environ disk paths rest ≡ host_or (from_files disk paths) rest
  unfolding Send.file_or from_files
  send_file_or [] = refl
  send_file_or (path ∷ paths) =
      ap (λ r. host_or r (Send.file_or environ disk paths rest)) (send_read_host_file (disk path))
      ∙ (ap (host_or (read_host_file (disk path))) (send_file_or paths)
          ∙ sym (host_or->>= (read_host_file (disk path)) (from_files disk paths) rest))

-- The three searches, tried one after another.
host_or-resolve_host :
    (environ : Text → Option Text) (disk : Text → File) (host : Option Text)
    (rest : Outcome Ending Text)
    → host_or (resolve_host environ disk host) rest
      ≡ host_or (ok (given host)) (
          host_or
            (ok (from_environ environ environ_keys))
            (host_or (from_files disk host_files) rest))
unfolding resolve_host
host_or-resolve_host environ disk host rest =
    let keys = from_environ environ environ_keys in
    let files = from_files disk host_files in
    host_or-or_next (given host) (or_next keys files) rest
    ∙ ap (host_or (ok (given host))) (host_or-or_next keys files rest)

module _ (environ : Text → Option Text) (disk : Text → File) (host : Option Text) where
  check_host-same :
      (lan_discover : Outcome Error (List Text)) (discover : Bool)
      → check_host environ disk lan_discover host discover
        ≡ host_or (resolve_host environ disk host) (discovered discover lan_discover)
  unfolding check_host
  check_host-same lan_discover discover =
      let last = discovered discover lan_discover in
      check_cli_or host _
      ∙ (ap (host_or (ok (given host))) (
            check_key_or environ disk _ environ_keys
            ∙ ap (host_or (ok (from_environ environ environ_keys)))
                (check_file_or environ disk last host_files))
          ∙ sym (host_or-resolve_host environ disk host last))

  send_host-same :
      send_host environ disk host ≡ host_or (resolve_host environ disk host) (err (exit 2))
  unfolding send_host
  send_host-same =
      let last : Outcome Ending Text = err (exit 2) in
      send_cli_or host _
      ∙ (ap (host_or (ok (given host))) (
            send_key_or environ disk _ environ_keys
            ∙ ap (host_or (ok (from_environ environ environ_keys)))
                (send_file_or environ disk last host_files))
          ∙ sym (host_or-resolve_host environ disk host last))

-- Each of the two scripts, with its own reading of the files, takes the host that `resolve_host` of
-- the core returns, and passes its exceptions on. Where that returns none, check_ps5debug.py takes
-- the first console that answers, if asked to discover, and send_ps5debug_elf.py exits with the
-- code 2.
pub scripts-resolve_host :
    (environ : Text → Option Text) (disk : Text → File) (lan_discover : Outcome Error (List Text))
    (host : Option Text) (discover : Bool)
    → (check_host environ disk lan_discover host discover
        ≡ host_or (resolve_host environ disk host) (discovered discover lan_discover))
      × (send_host environ disk host ≡ host_or (resolve_host environ disk host) (err (exit 2)))
scripts-resolve_host environ disk lan_discover host discover =
    (check_host-same environ disk host lan_discover discover, send_host-same environ disk host)
