-- ===== src/Host/Laws.antt =====
-- What `resolve_host` of web/nitepr5_core/host.py returns.
use nite_pr.Base.{
  ◌≡◌, ◌≢◌, false, Option, none, some, List, [], ◌∷◌, if◌then◌else◌, Bool-cases, arith, inl, inr,
  subst,
}
use nite_pr.Base.Text.{Text, strip}
use nite_pr.Base.Text.Strip.{strip-strip}
use nite_pr.Base.Exec.{Outcome, ok, err, blocked}
use nite_pr.Base.Result.{◌>>=◌}
use nite_pr.Errors.{Error}
use nite_pr.Host.{
  File, absent, unreadable, undecodable, holds, is_comment, truthy, first_line, split_lines,
  read_host_file, given, value_or_empty, from_environ, environ_keys, or_next, from_files,
  host_files, resolve_host,
}

-- A host has no blanks around it and is not empty.
abbrev pub IsHost : Text → Type 0
IsHost h = (strip h ≡ h) × (h ≢ [])

-- What the search gives, where it gives something.
IsFound : Option Text → Type 0
IsFound none = Unit {0}
IsFound (some h) = IsHost h

truthy-IsFound : (s : Text) → strip s ≡ s → IsFound (truthy s)
unfolding IsFound
truthy-IsFound [] h = tt
truthy-IsFound (c ∷ s) h = (h, λ e. ground arith)

IsFound-strip : (s : Text) → IsFound (truthy (strip s))
IsFound-strip s = truthy-IsFound (strip s) (strip-strip s)

given-IsFound : (explicit : Option Text) → IsFound (given explicit)
unfolding IsFound
given-IsFound none = tt
given-IsFound (some s) = IsFound-strip s

first-IsFound :
    (v rest : Option Text)
    → IsFound v
    → IsFound rest
    → IsFound (elim v [ some l ↦ some l | none ↦ rest ])
unfolding IsFound
first-IsFound none rest h k = k
first-IsFound (some l) rest h k = h

environ-IsFound :
    (environ : Text → Option Text) → (keys : List Text) → IsFound (from_environ environ keys)
unfolding from_environ IsFound
environ-IsFound environ [] = tt
environ-IsFound environ (key ∷ keys) =
    first-IsFound (truthy (strip (value_or_empty (environ key)))) (from_environ environ keys)
      (IsFound-strip (value_or_empty (environ key))) (environ-IsFound environ keys)

-- A line is taken where it is found and is no comment.
line-IsFound :
    (v rest : Option Text)
    → IsFound v
    → IsFound rest
    → IsFound (elim v [ some l ↦ if is_comment l then rest else some l | none ↦ rest ])
line-IsFound none rest h k = k
line-IsFound (some l) rest h k = elim (Bool-cases (is_comment l)) [
  | inl comment ↦ rw comment k
  | inr host ↦ rw host h
]

lines-IsFound : (lines : List Text) → IsFound (first_line lines)
unfolding first_line IsFound
lines-IsFound [] = tt
lines-IsFound (line ∷ lines) =
    line-IsFound (truthy (strip line)) (first_line lines) (IsFound-strip line) (lines-IsFound lines)

-- The same of an outcome.
Finds : Outcome Error (Option Text) → Type 0
Finds (ok v) = IsFound v
Finds (err e) = Unit {0}
Finds blocked = Unit {0}

or_next-Finds :
    (v : Option Text)
    → (rest : Outcome Error (Option Text)) → IsFound v
    → Finds rest
    → Finds (or_next v rest)
unfolding Finds IsFound
or_next-Finds none rest h k = k
or_next-Finds (some []) rest h k = k
or_next-Finds (some (c ∷ s)) rest h k = h

from_files-Finds : (disk : Text → File) → (paths : List Text) → Finds (from_files disk paths)
unfolding from_files Finds IsFound read_host_file
from_files-Finds disk [] = tt
from_files-Finds disk (path ∷ paths) =
    after_file (disk path) (from_files disk paths) (from_files-Finds disk paths)
  where
    after_file :
        (file : File)
        → (rest : Outcome Error (Option Text)) → Finds rest
        → Finds (read_host_file file >>= λ v. or_next v rest)
    after_file absent rest k = k
    after_file unreadable rest k = k
    after_file undecodable rest k = tt
    after_file (holds s) rest k =
        or_next-Finds (first_line (split_lines false s)) rest (lines-IsFound (split_lines false s))
          k

resolve_host-Finds :
    (environ : Text → Option Text)
    → (disk : Text → File) → (explicit : Option Text) → Finds (resolve_host environ disk explicit)
unfolding resolve_host
resolve_host-Finds environ disk explicit =
    or_next-Finds (given explicit) _ (given-IsFound explicit) (
      or_next-Finds (from_environ environ environ_keys) _ (environ-IsFound environ environ_keys)
        (from_files-Finds disk host_files))

-- A host that `resolve_host` returns, from the argument, the environment or a file, has no blanks
-- around it and is not empty.
pub resolve_host-IsHost :
    (environ : Text → Option Text)
    → (disk : Text → File) → (explicit : Option Text) → {h : Text}
    → resolve_host environ disk explicit ≡ ok (some h)
    → IsHost h
unfolding Finds IsFound
resolve_host-IsHost environ disk explicit e =
    subst Finds e (resolve_host-Finds environ disk explicit)
