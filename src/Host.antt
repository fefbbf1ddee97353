-- ===== src/Host.antt =====
-- web/nitepr5_core/host.py: the address of the console, from the argument, the environment or a
-- file. The environment and the files are parameters. The same functions stand in
-- scripts/check_ps5debug.py and scripts/send_ps5debug_elf.py, whose endings are in Host/Scripts.
pub mod Scripts
pub mod Laws
pub mod Agreeing
use nite_pr.Base.{
  ℕ, Bool, true, false, ◌&&◌, ◌||◌, Option, none, some, List, [], ◌∷◌, leb, ◌==◌, if◌then◌else◌,
}
use nite_pr.Base.Text.{Text, text, strip}
use nite_pr.Base.Exec.{Outcome, ok, err}
use nite_pr.Base.Result.{◌>>=◌}
use nite_pr.Errors.{Error, foreign}

-- What stands at a path: no file, a file whose reading raises OSError, one that is not UTF-8, or a
-- text.
pub data File : Type 0 where
  absent : File
  unreadable : File
  undecodable : File
  holds : Text → File

-- Where `str.splitlines` ends a line.
unfoldable pub is_line_break : ℕ → Bool
is_line_break c =
    (leb 10 c && leb c 13)
    || ((leb 28 c && leb c 30) || (c == 0x85 || (c == 0x2028 || c == 0x2029)))

-- A character before the first of the lines.
abbrev pub put : ℕ → List Text → List Text
put c [] = (c ∷ []) ∷ []
put c (line ∷ lines) = (c ∷ line) ∷ lines

-- `s.splitlines()`; `after_cr` says that the character before was a carriage return, which a line
-- feed joins.
unfoldable pub split_lines : Bool → Text → List Text
unfolding is_line_break
split_lines after_cr [] = []
split_lines after_cr (c ∷ s) =
    let rest = split_lines (c == 13) s in
    if after_cr && (c == 10) then rest else if is_line_break c then [] ∷ rest else put c rest

-- `line.startswith("#")`
abbrev pub is_comment : Text → Bool
is_comment [] = false
is_comment (c ∷ s) = c == 35

-- `s or None`
abbrev pub truthy : Text → Option Text
truthy [] = none
truthy (c ∷ s) = some (c ∷ s)

-- The loop over the lines.
unfoldable pub first_line : List Text → Option Text
first_line [] = none
first_line (line ∷ lines) =
    let rest = first_line lines in
    elim (truthy (strip line)) [ some l ↦ if is_comment l then rest else some l | none ↦ rest ]

-- `_read_host_file`
unfoldable pub read_host_file : File → Outcome Error (Option Text)
unfolding first_line split_lines
read_host_file absent = ok none
read_host_file unreadable = ok none
read_host_file undecodable = err foreign
read_host_file (holds s) = ok (first_line (split_lines false s))

-- `if explicit and explicit.strip(): return explicit.strip()`
abbrev pub given : Option Text → Option Text
given none = none
given (some s) = truthy (strip s)

-- `os.environ.get(key, "")`
abbrev pub value_or_empty : Option Text → Text
value_or_empty none = []
value_or_empty (some s) = s

abbrev pub environ_keys : List Text
environ_keys = text "NITEPR5_PS5_HOST" ∷ text "PS5_IP" ∷ []

abbrev pub host_files : List Text
host_files = text ".ps5debug-host" ∷ text "scripts/ps5_ip.txt" ∷ []

-- The loop over the keys.
unfoldable pub from_environ : (Text → Option Text) → List Text → Option Text
from_environ environ [] = none
from_environ environ (key ∷ keys) =
    let rest = from_environ environ keys in
    elim (truthy (strip (value_or_empty (environ key)))) [ some v ↦ some v | none ↦ rest ]

-- `if val: return val`, and else what follows.
abbrev pub or_next : Option Text → Outcome Error (Option Text) → Outcome Error (Option Text)
or_next none rest = rest
or_next (some []) rest = rest
or_next (some (c ∷ s)) rest = ok (some (c ∷ s))

-- The loop over the paths, each below the root of the repository.
unfoldable pub from_files : (Text → File) → List Text → Outcome Error (Option Text)
from_files disk [] = ok none
from_files disk (path ∷ paths) =
    let rest = from_files disk paths in read_host_file (disk path) >>= λ v. or_next v rest

unfoldable pub resolve_host :
    (Text → Option Text) → (Text → File) → Option Text → Outcome Error (Option Text)
resolve_host environ disk explicit =
    or_next (given explicit)
      (or_next (from_environ environ environ_keys) (from_files disk host_files))
