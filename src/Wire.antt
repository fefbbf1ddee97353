-- ===== src/Wire.antt =====
-- What web/nitepr5_core uses of the `ps5dbg` package on the wire: the connection that carries the
-- commands (the package's `Connection` and `wire`), and the exceptions that come out of it. The
-- package is not part of the repository, so both are parameters of the functions that use them.
pub mod Pack
pub mod Requests
pub mod Stream
pub mod Drain
pub mod Layout
pub mod Reach
pub mod InSync
pub mod Snapshot
pub mod Losing
use nite_pr.Base.{ℕ, Bool, true, false, ◌||◌}
use nite_pr.Base.Exec.{Outcome, ok, err, blocked, Exec}
use nite_pr.Types.{Bytes}
use nite_pr.Errors.{Error}

-- A foreign exception, by the classes that an `except` asks for. Which of the package's classes
-- stand above which is not known here, so an exception may be of several. `timed_out` of the
-- language is an `OSError`.
pub record Kind : Type 0 where
  pub is_connection_lost : Bool
  pub is_bad_status : Bool
  pub is_protocol_error : Bool
  pub is_ps5dbg_error : Bool
  pub is_os_error : Bool
  pub is_struct_error : Bool

-- What a call inside the transport raises: a foreign exception, or one of the repository's own.
pub data Failure : Type 0 where
  raised : Kind → Failure
  own : Error → Failure

abbrev pub no_kind : Kind
no_kind = record {
  is_connection_lost = false;
  is_bad_status = false;
  is_protocol_error = false;
  is_ps5dbg_error = false;
  is_os_error = false;
  is_struct_error = false;
}

-- `struct.error`
abbrev pub struct_error : Failure
struct_error = raised (record no_kind { is_struct_error = true })

-- The commands that the code sends by itself.
pub data Cmd : Type 0 where
  proc_write turboscan_start : Cmd

-- The connection, over the state `S` of the client and of what it talks to.
pub record Conn (S : Type 0) : Type 0 where
  pub send_request : Cmd → Bytes → Exec Kind S (Unit {0})
  pub sendall : Bytes → Exec Kind S (Unit {0})
  pub recv_exact : ℕ → Exec Kind S Bytes
  pub recv_u64 : Exec Kind S ℕ
  pub expect_success : Exec Kind S (Unit {0})
  -- `turboscan._send_value_after_ack` and `protocol._scan_value_bytes`
  pub send_value_after_ack : Cmd → (body value : Bytes) → Exec Kind S (Unit {0})
  pub scan_value_bytes : (value_type value : ℕ) → Outcome Kind Bytes

-- A call of the package, which raises no exception of the repository's.
abbrev pub as_raised : {A : Type 0} → Outcome Kind A → Outcome Failure A
as_raised (ok a) = ok a
as_raised (err k) = err (raised k)
as_raised blocked = blocked

unfoldable pub lib : {S A : Type 0} → Exec Kind S A → Exec Failure S A
lib m s = (as_raised (m s).0, (m s).1)
