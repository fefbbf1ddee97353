-- ===== src/Web.antt =====
-- web/app.py: the requests of the user interface over one session, and what each is answered. The
-- framework (FastAPI and pydantic) checks the types of a request before its handler is called, and
-- turns an answer into a response.
pub mod Views
pub mod Inputs
pub mod Routes
pub mod Acting
pub mod Conflict
use nite_pr.Base.{ℕ, Bool, true, false, Option, none, some, if◌then◌else◌}
use nite_pr.Base.Int.{ℤ}
use nite_pr.Base.Text.{Text}
use nite_pr.Base.Exec.{Outcome, ok, err, blocked}
use nite_pr.Cheat.Json.{Json}
use nite_pr.Errors.{
  Error, is_not_connected, not_connected, connect_failed, plugin_unreachable, nite_pr5_error,
  foreign,
}

-- What a handler returns, to be written as JSON.
mutual
  pub data Answer : Type 0 where
    null : Answer
    flag : Bool → Answer
    whole : ℤ → Answer
    str : Text → Answer
    json : Json → Answer
    array : Answers → Answer
    object : Members → Answer

  pub data Answers : Type 0 where
    nil : Answers
    cons : Answer → Answers → Answers

  pub data Members : Type 0 where
    empty : Members
    member : Text → Answer → Members → Members

-- What a handler raises: an exception of the session's, or an `HTTPException`.
pub data Fault : Type 0 where
  raised : Error → Fault
  http : (status : ℕ) → Fault

-- `isinstance(exc, (ConnectFailed, PluginUnreachable))`
abbrev pub is_unavailable : Error → Bool
is_unavailable connect_failed = true
is_unavailable plugin_unreachable = true
is_unavailable _ = false

-- `isinstance(exc, _HTTP_400)`
abbrev pub is_http_400 : Error → Bool
is_http_400 nite_pr5_error = false
is_http_400 not_connected = false
is_http_400 connect_failed = false
is_http_400 plugin_unreachable = false
is_http_400 foreign = false
is_http_400 _ = true

-- `nitepr5_error_handler`. An exception of Python's own does not come to this handler, and the
-- framework answers 500 as well.
unfoldable pub error_status : Error → ℕ
error_status e =
    if is_not_connected e
    then 409
    else if is_unavailable e
    then 503
    else if is_http_400 e
    then 400
    else 500

pub record Response : Type 0 where
  pub status : ℕ
  pub content : Option Answer

-- The response; a handler that has not come back has none yet.
unfoldable pub respond : Outcome Fault Answer → Option Response
unfolding error_status
respond (ok a) = some (record { status = 200; content = some a })
respond (err (raised e)) = some (record { status = error_status e; content = none })
respond (err (http n)) = some (record { status = n; content = none })
respond blocked = none
