-- ===== src/Transport/Ps5dbg.antt =====
-- web/nitepr5_core/transport.py, `class Ps5dbgTransport`: the client of a real console. The package
-- `ps5dbg` and the socket below it are the parameter `Package`, over a type `C` of clients (an
-- instance of `PS5Debug`, with its connection), `K` of sockets, `Tm` of timeouts, and the state `W`
-- of all of them and of the console.
pub mod Memory
pub mod Scanning
pub mod Starting
pub mod Console
pub mod Losing
pub mod Linking
pub mod Connecting
pub mod Honesty
pub mod Launching
use nite_pr.Base.{ℕ, Bool, true, false, not, ◌||◌, Option, none, some, List, [], ◌∷◌, if◌then◌else◌}
use nite_pr.Base.Text.{Text, strip, is_nonempty}
use nite_pr.Base.Exec.{
  Outcome, ok, err, blocked, Exec, pure, raise, raise_if, gets, modify, ensure, catch, ◌>>=◌, ◌>>◌,
}
use nite_pr.Types.{Bytes, ForegroundInfo, ProcessDetail, MemoryMap, ScanRegion}
use nite_pr.Errors.{Error, not_connected, connect_failed, nite_pr5_error, foreign}
use nite_pr.Scan.Classify.{ResidentRow}
use nite_pr.Transport.{StartArgs, CountArgs}
use nite_pr.Wire.{Kind, Failure, raised, own, Conn, lib}

-- The options of `_configure_cmd_socket`.
pub data SocketOption : Type 0 where
  so_keepalive tcp_keepidle tcp_keepintvl tcp_keepcnt : SocketOption

-- The functions that read the package's answers get its records as those of types.py, whose fields
-- the code copies one by one. `settimeout` is what the call does to the socket: its one error that
-- the code lets through, on entry to `scan_wait`, is left out.
pub record Package (C W K Tm : Type 0) : Type 0 where
  -- `PS5Debug(host, port=…, timeout=…)`
  pub make : Text → ℕ → W → C × W
  pub connect : C → Exec Kind W (Unit {0})
  pub ping : C → Exec Kind W (Unit {0})
  pub close : C → Exec Kind W (Unit {0})
  pub procs : C → Exec Kind W (List (ℕ × Text))
  pub foreground_app : C → Exec Kind W ForegroundInfo
  pub proc_info : C → ℕ → Exec Kind W ProcessDetail
  pub maps : C → ℕ → Exec Kind W (List MemoryMap)
  pub read : C → (pid address len : ℕ) → Exec Kind W Bytes
  pub authenticate : C → ℕ → Exec Kind W (Unit {0})
  -- `ps5.connection`, and the functions of the package that take it
  pub connection : C → Conn W
  pub proc_nop : C → Exec Kind W (Unit {0})
  pub turboscan_caps : C → Exec Kind W (ℕ × ℕ × ℕ)
  pub turboscan_regions : C → (pid max_regions probe_bytes : ℕ) → Exec Kind W (List ScanRegion)
  pub turboscan_start_resident :
      C → (pid addr len : ℕ) → StartArgs → (flags : ℕ) → Exec Kind W (ℕ × ℕ)
  pub turboscan_count_resident : C → CountArgs → (flags : ℕ) → Exec Kind W ℕ
  pub turboscan_get_resident :
      C → (start_index count value_length last : ℕ) → Exec Kind W (List ResidentRow)
  pub turboscan_end : C → Exec Kind W (Unit {0})
  pub proc_scan_start : C → (pid addr len : ℕ) → StartArgs → Exec Kind W (List (ℕ × Bytes))
  pub proc_scan_count :
      C → (pid addr : ℕ) → CountArgs → List (ℕ × Bytes) → Exec Kind W (List (ℕ × Bytes))
  -- `discover` of `ps5dbg.discover`
  pub lan_discover : Exec Kind W (List Text)
  -- `getattr(ps5.connection, "_sock", None)` and the methods of a socket
  pub sock : C → W → Option K
  pub gettimeout : K → W → Tm
  pub settimeout : K → Tm → W → W
  pub scan_io_timeout : Tm
  pub setsockopt : K → SocketOption → ℕ → Exec Kind W (Unit {0})
  pub keepalive_ioctl : K → Exec Kind W (Unit {0})
  -- `hasattr(socket, …)`
  pub has_ioctl : Bool
  pub has_option : SocketOption → Bool

-- The fields of a `Ps5dbgTransport`, the world, and the timeouts that the `scan_wait`s in progress
-- will put back, the innermost first.
pub record Link (C W K Tm : Type 0) : Type 0 where
  pub ps5 : Option C
  pub host : Option Text
  pub scan_authed : Bool
  pub turbo_open : Bool
  pub rescan_aliasing : Bool
  pub waits : List (Option (K × Tm))
  pub world : W

abbrev pub is_os_error : Failure → Bool
is_os_error (raised k) = k.is_os_error
is_os_error (own e) = false

-- `(ConnectionLost, OSError, TimeoutError, PS5DbgError)`
abbrev pub is_link_error : Failure → Bool
is_link_error (raised k) = k.is_connection_lost || (k.is_os_error || k.is_ps5dbg_error)
is_link_error (own e) = false

-- A call inside the transport.
abbrev pub Action : (C W K Tm : Type 0) → Type 0 → Type 0
Action C W K Tm A = Exec Failure (Link C W K Tm) A

module _ {C W K Tm : Type 0} where
  -- A call that sees no more than the world.
  unfoldable pub on_world : {A : Type 0} → Exec Failure W A → Action C W K Tm A
  on_world m l = ((m l.world).0, record l { world = (m l.world).1 })

  -- `try: m except OSError: pass`
  unfoldable pub but_os_error : Action C W K Tm (Unit {0}) → Action C W K Tm (Unit {0})
  but_os_error m = catch m (λ e. if is_os_error e then pure tt else raise e)

  abbrev pub client_or_raise : Option C → Action C W K Tm C
  client_or_raise none l = (err (own not_connected), l)
  client_or_raise (some c) l = (ok c, l)

  -- `_require`, which `_scan_conn` calls too
  unfoldable pub require : Action C W K Tm C
  require l = client_or_raise l.ps5 l

  abbrev pub unlinked : Link C W K Tm → Link C W K Tm
  unlinked l = record l {
    ps5 = none;
    host = none;
    scan_authed = false;
    turbo_open = false;
    rescan_aliasing = false;
  }

  module _ (pk : Package C W K Tm) where
    unfoldable pub close_client : Option C → Action C W K Tm (Unit {0})
    unfolding but_os_error on_world lib
    close_client none = pure tt
    close_client (some c) = but_os_error (on_world (lib (pk.close c)))

    unfoldable pub disconnect : Action C W K Tm (Unit {0})
    unfolding close_client
    disconnect = do ps5 ← gets (λ l. l.ps5); modify unlinked; close_client ps5

    -- One turn of the loop over `TCP_KEEPIDLE`, `TCP_KEEPINTVL` and `TCP_KEEPCNT`.
    unfoldable pub set_option : K → SocketOption → ℕ → Action C W K Tm (Unit {0})
    unfolding but_os_error on_world lib
    set_option k option value =
        if pk.has_option option
        then but_os_error (on_world (lib (pk.setsockopt k option value)))
        else pure tt

    -- What `_configure_cmd_socket` does once keepalive is on.
    unfoldable pub tune_keepalive : K → Action C W K Tm (Unit {0})
    unfolding set_option
    tune_keepalive k = do
      if pk.has_ioctl then but_os_error (on_world (lib (pk.keepalive_ioctl k))) else pure tt
      set_option k tcp_keepidle 30
      set_option k tcp_keepintvl 5
      set_option k tcp_keepcnt 6

    unfoldable pub configure_sock : Option K → Action C W K Tm (Unit {0})
    unfolding tune_keepalive
    configure_sock none = pure tt
    configure_sock (some k) = do
      on ←
          catch (do on_world (lib (pk.setsockopt k so_keepalive 1)); pure true)
            (λ e. if is_os_error e then pure false else raise e)
      if on then tune_keepalive k else pure tt

    -- `_cmd_sock`
    abbrev pub sock_of : Option C → W → Option K
    sock_of none w = none
    sock_of (some c) w = pk.sock c w

    -- `_configure_cmd_socket`
    unfoldable pub configure_cmd_socket : Action C W K Tm (Unit {0})
    unfolding configure_sock
    configure_cmd_socket = do k ← gets (λ l. sock_of l.ps5 l.world); configure_sock k

    -- `PS5Debug(…)`
    unfoldable pub make_client : Text → ℕ → Action C W K Tm C
    make_client host port l =
        (ok (pk.make host port l.world).0, record l { world = (pk.make host port l.world).1 })

    -- The `try` of `connect`.
    unfoldable pub open_client : C → Action C W K Tm (Unit {0})
    unfolding on_world lib
    open_client c =
        catch (do on_world (lib (pk.connect c)); on_world (lib (pk.ping c)))
          (λ e.
            if is_link_error e
            then (do on_world (lib (pk.close c)); raise (own connect_failed))
            else raise e)

    unfoldable pub connect : Text → ℕ → Action C W K Tm (Unit {0})
    unfolding disconnect make_client open_client configure_cmd_socket
    connect name port = do
      let host = strip name
      raise_if (not (is_nonempty host)) (own connect_failed)
      disconnect
      c ← make_client host port
      open_client c
      modify (λ l. record l { ps5 = some c; host = some host })
      configure_cmd_socket

    -- `_lost`
    unfoldable pub lost : {A : Type 0} → Action C W K Tm A
    unfolding disconnect
    lost = do disconnect; raise (own not_connected)

    -- The `except` clauses of `_call`.
    unfoldable pub after_call : {A : Type 0} → Failure → Action C W K Tm A
    unfolding lost
    after_call (own e) = raise (own e)
    after_call (raised k) =
        if k.is_connection_lost || k.is_os_error
        then lost
        else (if k.is_ps5dbg_error then raise (own nite_pr5_error) else raise (raised k))

    -- `_call`
    unfoldable pub call : {A : Type 0} → Exec Failure W A → Action C W K Tm A
    unfolding on_world after_call
    call m = catch (on_world m) after_call

    -- The entry to `scan_wait` with the socket of `_cmd_sock`, and its `finally` with what it saved.
    abbrev pub save_timeout : Option K → Link C W K Tm → Link C W K Tm
    save_timeout none l = record l { waits = none ∷ l.waits }
    save_timeout (some k) l = record l {
      waits = some (k, pk.gettimeout k l.world) ∷ l.waits;
      world = pk.settimeout k pk.scan_io_timeout l.world;
    }

    abbrev pub restore_timeout : List (Option (K × Tm)) → Link C W K Tm → Link C W K Tm
    restore_timeout [] l = l
    restore_timeout (none ∷ ws) l = record l { waits = ws }
    restore_timeout (some (k, previous) ∷ ws) l = record l {
      waits = ws;
      world = pk.settimeout k previous l.world;
    }

    unfoldable pub scan_wait_enter : Link C W K Tm → Link C W K Tm
    scan_wait_enter l = save_timeout (sock_of l.ps5 l.world) l

    unfoldable pub scan_wait_exit : Link C W K Tm → Link C W K Tm
    scan_wait_exit l = restore_timeout l.waits l

    -- `with self.scan_wait(): m`
    unfoldable pub waiting : {A : Type 0} → Action C W K Tm A → Action C W K Tm A
    unfolding scan_wait_enter scan_wait_exit
    waiting m = ensure (do modify scan_wait_enter; m) scan_wait_exit

-- What a call of the transport looks like from outside: an exception of the package's is foreign.
abbrev pub to_error : {A : Type 0} → Outcome Failure A → Outcome Error A
to_error (ok a) = ok a
to_error (err (own e)) = err e
to_error (err (raised k)) = err foreign
to_error blocked = blocked

unfoldable pub exported : {S A : Type 0} → Exec Failure S A → Exec Error S A
exported m s = (to_error (m s).0, (m s).1)
