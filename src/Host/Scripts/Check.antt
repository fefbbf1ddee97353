-- ===== src/Host/Scripts/Check.antt =====
-- `_read_host_file` and `resolve_host` of scripts/check_ps5debug.py. `lan_discover` of the ps5dbg
-- package is a parameter.
use nite_pr.Base.{Bool, true, false, not, ◌&&◌, Option, none, some, List, [], ◌∷◌, if◌then◌else◌}
use nite_pr.Base.Text.{Text, text, strip, is_nonempty}
use nite_pr.Base.Exec.{Outcome, ok, err, blocked}
use nite_pr.Errors.{Error, foreign}
use nite_pr.Host.{
  File, absent, unreadable, undecodable, holds, split_lines, is_comment, value_or_empty,
}
use nite_pr.Host.Scripts.{Ending, exit, raised, host_or, text_or}

-- The loop over the lines of `_read_host_file`.
unfoldable pub host_line : List Text → Option Text
host_line [] = none
host_line (line ∷ lines) =
    let next = host_line lines in
    let stripped = strip line in
    if is_nonempty stripped && not (is_comment stripped) then some stripped else next

unfoldable pub read_host_file : File → Outcome Error (Option Text)
unfolding host_line split_lines
read_host_file absent = ok none
read_host_file unreadable = ok none
read_host_file undecodable = err foreign
read_host_file (holds s) = ok (host_line (split_lines false s))

-- The first of the consoles that answered.
abbrev pub first_hit : Outcome Error (List Text) → Outcome Ending Text
first_hit (ok []) = err (exit 1)
first_hit (ok (hit ∷ hits)) = ok hit
first_hit (err e) = err (raised e)
first_hit blocked = blocked

-- `if discover:`, and without it the exit.
abbrev pub discovered : Bool → Outcome Error (List Text) → Outcome Ending Text
discovered true hits = first_hit hits
discovered false hits = err (exit 2)

-- `if cli_host and cli_host.strip(): return cli_host.strip()`
abbrev pub cli_or : Option Text → Outcome Ending Text → Outcome Ending Text
cli_or none rest = rest
cli_or (some s) rest = text_or (strip s) rest

module _ (environ : Text → Option Text) (disk : Text → File) where
  -- The loop over the two keys of the environment.
  unfoldable pub key_or : List Text → Outcome Ending Text → Outcome Ending Text
  key_or [] rest = rest
  key_or (key ∷ keys) rest =
      let next = key_or keys rest in text_or (strip (value_or_empty (environ key))) next

  -- The loop over the two files.
  unfoldable pub file_or : List Text → Outcome Ending Text → Outcome Ending Text
  unfolding read_host_file
  file_or [] rest = rest
  file_or (path ∷ paths) rest =
      let next = file_or paths rest in host_or (read_host_file (disk path)) next

  unfoldable pub check_host : Outcome Error (List Text) → Option Text → Bool → Outcome Ending Text
  unfolding key_or file_or
  check_host lan_discover cli_host discover = cli_or cli_host (
      key_or (text "NITEPR5_PS5_HOST" ∷ text "PS5_IP" ∷ []) (
        file_or (text ".ps5debug-host" ∷ text "scripts/ps5_ip.txt" ∷ [])
          (discovered discover lan_discover)))
