-- ===== src/Errors.antt =====
-- web/nitepr5_core/errors.py: one constructor for each exception class, with the attributes that
-- its `__init__` stores; the texts of the messages are left out. `ScanInFlight` is another name of
-- `ScanActive`.
use nite_pr.Base.{ℕ, Bool, true, false}
use nite_pr.Base.Text.{Text}
use nite_pr.Types.{Dyn}

pub data Error : Type 0 where
  -- `NitePR5Error` itself, as the transport raises it for a server error
  nite_pr5_error : Error
  not_connected no_target connect_failed : Error
  read_too_large : (n max_n : ℕ) → Error
  invalid_read_size : Dyn → Error
  results_too_many : (limit max_n : ℕ) → Error
  invalid_result_limit : Dyn → Error
  scan_active scan_unsupported no_scan : Error
  undo_too_large : (count max_n : ℕ) → Error
  invalid_scan_regions : Text → Error
  invalid_scan_value invalid_scan_compare : Error
  invalid_address : Dyn → Error
  invalid_write_size : Dyn → Error
  write_too_large : (n max_n : ℕ) → Error
  invalid_watch_size : Dyn → Error
  invalid_freeze_size : Dyn → Error
  watch_limit freeze_limit : (max_n : ℕ) → Error
  no_watch no_freeze : Dyn → Error
  invalid_cheat no_cheat : Error
  no_mod : Text → Error
  plugin_unreachable : Error
  plugin_error : Text → Error
  -- an exception of Python's own, outside the class tree of `NitePR5Error`
  foreign : Error

-- `isinstance(e, NotConnected)`
abbrev pub is_not_connected : Error → Bool
is_not_connected not_connected = true
is_not_connected _ = false
