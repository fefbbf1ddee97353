-- ===== src/Tests/Links.antt =====
-- A package whose world is the list of bytes that come in, and the theorems on the transports over
-- it and over the mock console.
use nite_pr.Base.{ℕ, Bool, true, false, some, [], ◌∷◌}
use nite_pr.Base.Text.{Text, text}
use nite_pr.Base.Exec.{ok, err}
use nite_pr.Types.{Bytes, Dyn}
use nite_pr.Transport.Contract.{IsHonest}
use nite_pr.Transport.Contract.Real.{ps5dbg_transport-IsHonest}
use nite_pr.Transport.Contract.Mocked.{mock_transport-IsHonest}
use nite_pr.Transport.Mock.Console.{mock_transport}
use nite_pr.Transport.Ps5dbg.{Package}
use nite_pr.Transport.Ps5dbg.Console.{ps5dbg_transport}
use nite_pr.Session.Connect.{connect, disconnect, foreground, processes, attach_target}
use nite_pr.Session.Memory.{read, write, maps}
use nite_pr.Session.Truthful.{Truthful}
use nite_pr.Session.Truthful.Methods.{not_connected-is_down}
use nite_pr.Tests.Pipe.{no_peer, recv, pipe}

-- Reads come off the list of bytes; the rest of the package finds no peer, or no more to tell.
abbrev piped : Package (Unit {0}) Bytes (Unit {0}) ℕ
piped = record {
  make = λ host port w. (tt, w);
  connect = λ c w. (ok tt, w);
  ping = λ c w. (ok tt, w);
  close = λ c w. (ok tt, []);
  procs = λ c w. (ok ((7, text "eboot.bin") ∷ []), w);
  foreground_app = λ c w. (err no_peer, w);
  proc_info = λ c pid w. (err no_peer, w);
  maps = λ c pid w. (ok [], w);
  read = λ c pid address len. recv len;
  authenticate = λ c level w. (ok tt, w);
  connection = λ c. pipe;
  proc_nop = λ c w. (ok tt, w);
  turboscan_caps = λ c w. (err no_peer, w);
  turboscan_regions = λ c pid max_regions probe_bytes w. (ok [], w);
  turboscan_start_resident = λ c pid addr len args flags w. (err no_peer, w);
  turboscan_count_resident = λ c args flags w. (err no_peer, w);
  turboscan_get_resident = λ c start_index count value_length last w. (ok [], w);
  turboscan_end = λ c w. (ok tt, w);
  proc_scan_start = λ c pid addr len args w. (ok [], w);
  proc_scan_count = λ c pid addr args group w. (ok [], w);
  lan_discover = λ w. (ok [], w);
  sock = λ c w. some tt;
  gettimeout = λ k w. 10;
  settimeout = λ k seconds w. w;
  scan_io_timeout = 600;
  setsockopt = λ k option value w. (ok tt, w);
  keepalive_ioctl = λ k w. (ok tt, w);
  has_ioctl = false;
  has_option = λ option. true;
}

ps5dbg_transport-IsHonest_example : IsHonest (ps5dbg_transport piped 100)
ps5dbg_transport-IsHonest_example = ps5dbg_transport-IsHonest piped 100

not_connected-is_down_example :
    ((pid addr n : Dyn) → Truthful mock_transport (read mock_transport 1 pid addr n))
    × ((pid addr content : Dyn) → Truthful mock_transport (write mock_transport 1 pid addr content))
    × ((pid : Dyn) (refresh : Bool) → Truthful mock_transport (maps mock_transport 1 pid refresh))
    × Truthful mock_transport (foreground mock_transport 1)
    × Truthful mock_transport (processes mock_transport 1)
    × ((pid : Dyn) → Truthful mock_transport (attach_target mock_transport 1 pid))
    × ((name : Text) → Truthful mock_transport (connect mock_transport 1 name))
    × Truthful mock_transport (disconnect mock_transport 1)
not_connected-is_down_example = not_connected-is_down mock_transport mock_transport-IsHonest 1
