-- ===== src/Host/Scripts.antt =====
-- `_read_host_file` and `resolve_host` of scripts/check_ps5debug.py (Host/Scripts/Check) and of
-- scripts/send_ps5debug_elf.py (Host/Scripts/Send), which end the program where they find no host.
pub mod Check
pub mod Send
use nite_pr.Base.{ℕ, Option, none, some, [], ◌∷◌}
use nite_pr.Base.Text.{Text}
use nite_pr.Base.Exec.{Outcome, ok, err, blocked}
use nite_pr.Errors.{Error}

-- How a script ends: `raise SystemExit(code)`, or another exception.
pub data Ending : Type 0 where
  exit : ℕ → Ending
  raised : Error → Ending

-- `if val: return val`, where `val` is what a function of the script returned, and else what follows.
abbrev pub host_or : Outcome Error (Option Text) → Outcome Ending Text → Outcome Ending Text
host_or (ok none) rest = rest
host_or (ok (some [])) rest = rest
host_or (ok (some (c ∷ s))) rest = ok (c ∷ s)
host_or (err e) rest = err (raised e)
host_or blocked rest = blocked

-- `if val: return val` of a text.
abbrev pub text_or : Text → Outcome Ending Text → Outcome Ending Text
text_or [] rest = rest
text_or (c ∷ s) rest = ok (c ∷ s)
