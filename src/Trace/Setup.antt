-- ===== src/Trace/Setup.antt =====
-- `configure_tracing` of web/tracing.py: whether the environment asks for tracing. The environment
-- is a function, and the package dotenv, which may be missing, and whether pytest is loaded are
-- parameters.
pub mod Laws
use nite_pr.Base.{
  Bool, true, false, not, ◌&&◌, ◌||◌, Option, none, some, List, [], ◌∷◌, if◌then◌else◌,
}
use nite_pr.Base.Text.{Text, text, strip, lower, eq_text, mem_text, is_nonempty}

-- `os.environ`
abbrev pub Environ : Type 0
Environ = Text → Option Text

-- `os.environ.get(key, "")`
abbrev pub value_of : Environ → Text → Text
value_of environ key = elim (environ key) [ none ↦ [] | some v ↦ v ]

-- `os.environ[key] = value`
abbrev pub set_environ : Text → Text → Environ → Environ
set_environ key v environ k = if eq_text k key then some v else environ k

-- `os.environ.setdefault(key, value)`, where `present` is what stands under the key.
abbrev pub set_where : Option Text → Text → Text → Environ → Environ
set_where none key v environ = set_environ key v environ
set_where (some w) key v environ = environ

-- `_truthy`
unfoldable pub is_truthy : Text → Bool
is_truthy s = mem_text (lower (strip s)) (text "1" ∷ text "true" ∷ text "yes" ∷ text "on" ∷ [])

-- `os.environ.get(key, "").strip()`, as a test.
abbrev pub is_set : Environ → Text → Bool
is_set environ key = is_nonempty (strip (value_of environ key))

-- The value of LANGCHAIN_* for that of LANGSMITH_*, where the latter is blank.
unfoldable pub alias_environ : Text → Text → Environ → Environ
alias_environ key old environ =
    if is_set environ key
    then environ
    else if is_set environ old
    then set_environ key (strip (value_of environ old)) environ
    else environ

-- `_under_pytest`
abbrev pub is_under_pytest : Bool → Environ → Bool
is_under_pytest loaded environ =
    loaded || is_nonempty (value_of environ (text "PYTEST_CURRENT_TEST"))

unfoldable pub is_requested : Bool → Environ → Bool
is_requested loaded environ =
    if is_under_pytest loaded environ
      && not (is_truthy (value_of environ (text "NITEPR5_TRACE_TESTS")))
    then false
    else is_truthy (value_of environ (text "TRACE_TO_LANGSMITH"))
      || (is_truthy (value_of environ (text "LANGSMITH_TRACING"))
          || is_truthy (value_of environ (text "LANGCHAIN_TRACING_V2")))

-- What follows the tests: whether tracing is on, and the environment.
abbrev pub finish_tracing : (requested has_key : Bool) → Environ → Bool × Environ
finish_tracing false has_key environ =
    (false, set_environ (text "LANGSMITH_TRACING") (text "false") environ)
finish_tracing true false environ =
    (false, set_environ (text "LANGSMITH_TRACING") (text "false") environ)
finish_tracing true true environ =
    let on = set_environ (text "LANGSMITH_TRACING") (text "true") environ in
    (true, set_where (on (text "LANGSMITH_PROJECT")) (text "LANGSMITH_PROJECT") (text "nitepr5") on)

-- `load_dotenv(..., override=False)`, where the package is there and pytest is not.
abbrev pub dot_env : Option (Environ → Environ) → Bool → Environ → Environ
dot_env none tested environ = environ
dot_env (some load_dotenv) true environ = environ
dot_env (some load_dotenv) false environ = load_dotenv environ

-- The environment after the file and the aliases.
abbrev pub loaded_environ : Option (Environ → Environ) → Bool → Environ → Environ
loaded_environ load_dotenv loaded environ =
    let dotted = dot_env load_dotenv (is_under_pytest loaded environ) environ in
    let keyed = alias_environ (text "LANGSMITH_API_KEY") (text "LANGCHAIN_API_KEY") dotted in
    alias_environ (text "LANGSMITH_PROJECT") (text "LANGCHAIN_PROJECT") keyed

unfoldable pub configure_tracing : Option (Environ → Environ) → Bool → Environ → Bool × Environ
configure_tracing load_dotenv loaded environ =
    let named = loaded_environ load_dotenv loaded environ in
    finish_tracing (is_requested loaded named) (is_set named (text "LANGSMITH_API_KEY")) named
