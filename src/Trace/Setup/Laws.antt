-- ===== src/Trace/Setup/Laws.antt =====
-- What `configure_tracing` of web/tracing.py leaves in the environment.
use nite_pr.Base.{◌≡◌, refl, Bool, true, false, Option, none, some}
use nite_pr.Base.Text.{Text, text, eq_text}
use nite_pr.Trace.Setup.{
  Environ, is_set, set_environ, set_where, is_requested, loaded_environ, finish_tracing,
  configure_tracing,
}

-- Tracing that is on has a key, and the environment says whether it is on.
pub IsConfigured : Bool × Environ → Type 0
IsConfigured (true, environ) =
    (environ (text "LANGSMITH_TRACING") ≡ some (text "true"))
    × (is_set environ (text "LANGSMITH_API_KEY") ≡ true)
IsConfigured (false, environ) = environ (text "LANGSMITH_TRACING") ≡ some (text "false")

named-IsConfigured :
    (present : Option Text)
    → (environ : Environ) → is_set environ (text "LANGSMITH_API_KEY") ≡ true
    → IsConfigured (
      true,
      set_where present
          (text "LANGSMITH_PROJECT")
          (text "nitepr5")
          (set_environ (text "LANGSMITH_TRACING") (text "true") environ),
    )
unfolding IsConfigured eq_text
named-IsConfigured none environ h = (refl, h)
named-IsConfigured (some w) environ h = (refl, h)

finish_tracing-IsConfigured :
    (requested has_key : Bool)
    → (environ : Environ) → is_set environ (text "LANGSMITH_API_KEY") ≡ has_key
    → IsConfigured (finish_tracing requested has_key environ)
unfolding IsConfigured eq_text
finish_tracing-IsConfigured false has_key environ h = refl
finish_tracing-IsConfigured true false environ h = refl
finish_tracing-IsConfigured true true environ h =
    named-IsConfigured (environ (text "LANGSMITH_PROJECT")) environ h

-- Whatever the environment and dotenv hold, after `configure_tracing` LANGSMITH_TRACING is "true"
-- where tracing is on and "false" where it is off, and tracing that is on has a key that is not
-- blank.
pub configure_tracing-IsConfigured :
    (load_dotenv : Option (Environ → Environ))
    → (loaded : Bool) → (environ : Environ)
    → IsConfigured (configure_tracing load_dotenv loaded environ)
unfolding configure_tracing
configure_tracing-IsConfigured load_dotenv loaded environ =
    let named = loaded_environ load_dotenv loaded environ in
    finish_tracing-IsConfigured (is_requested loaded named) _ named refl
