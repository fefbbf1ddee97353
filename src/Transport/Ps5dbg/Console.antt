-- ===== src/Transport/Ps5dbg/Console.antt =====
-- `Ps5dbgTransport` as a transport, and its `__init__`.
use nite_pr.Base.{ℕ, false, none, [], is_some}
use nite_pr.Transport.{Transport}
use nite_pr.Transport.Ps5dbg as Basics
use nite_pr.Transport.Ps5dbg.{Package, Link, exported}
use nite_pr.Transport.Ps5dbg.Memory
use nite_pr.Transport.Ps5dbg.Scanning
use nite_pr.Transport.Ps5dbg.Starting

abbrev pub new_link : {C W K Tm : Type 0} → W → Link C W K Tm
new_link w = record {
  ps5 = none;
  host = none;
  scan_authed = false;
  turbo_open = false;
  rescan_aliasing = false;
  waits = [];
  world = w;
}

module _ {C W K Tm : Type 0} (pk : Package C W K Tm) (fuel : ℕ) where
  abbrev pub ps5dbg_transport : Transport (Link C W K Tm)
  ps5dbg_transport = record {
    connected = λ l. is_some l.ps5;
    connect = λ name port. exported (Basics.connect pk name port);
    disconnect = exported (Basics.disconnect pk);
    discover = exported (Memory.discover pk);
    procs = exported (Memory.procs pk);
    foreground_app = exported (Memory.foreground_app pk);
    proc_info = λ pid. exported (Memory.proc_info pk pid);
    maps = λ pid. exported (Memory.maps pk pid);
    read = λ pid address len. exported (Memory.read pk pid address len);
    write = λ pid address content. exported (Memory.write pk pid address content);
    scan_wait_enter = Basics.scan_wait_enter pk;
    scan_wait_exit = Basics.scan_wait_exit pk;
    scan_caps = exported (Scanning.scan_caps pk);
    scan_authenticate = exported (Scanning.scan_authenticate pk);
    scan_regions = λ pid probe_bytes. exported (Scanning.scan_regions pk pid probe_bytes);
    scan_start_turbo = λ pid segments args unknown engines.
        exported (Starting.scan_start_turbo pk fuel pid segments args unknown engines);
    scan_count_resident = λ args. exported (Scanning.scan_count_resident pk args);
    scan_get_resident = λ start_index count value_length.
        exported (Scanning.scan_get_resident pk start_index count value_length);
    scan_end = exported (Scanning.scan_end pk);
    scan_start_iterative =
        λ pid segments args. exported (Scanning.scan_start_iterative pk pid segments args);
    scan_next_iterative = λ pid segments candidates args.
        exported (Scanning.scan_next_iterative pk pid segments candidates args);
  }
