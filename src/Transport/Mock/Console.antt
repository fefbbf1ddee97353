-- ===== src/Transport/Mock/Console.antt =====
-- `MockTransport` as a transport, and the states in which the tests use it.
use nite_pr.Base.{ℕ, ◌+◌, false, none, List, [], ◌∷◌}
use nite_pr.Base.Text.{text}
use nite_pr.Types.{Bytes, MemoryMap}
use nite_pr.Transport.{Transport}
use nite_pr.Transport.Mock as Basics
use nite_pr.Transport.Mock.{Mock, ram_base, eboot_pid, titleid, contentid}
use nite_pr.Transport.Mock.Memory
use nite_pr.Transport.Mock.Scanning

abbrev pub mock_transport : Transport Mock
mock_transport = record {
  connected = λ t. t.is_connected;
  connect = Basics.connect;
  disconnect = Basics.disconnect;
  discover = Basics.discover;
  procs = Basics.procs;
  foreground_app = Basics.foreground_app;
  proc_info = Basics.proc_info;
  maps = Basics.maps;
  read = Memory.read;
  write = Memory.write;
  scan_wait_enter = λ t. t;
  scan_wait_exit = λ t. t;
  scan_caps = Scanning.scan_caps;
  scan_authenticate = Scanning.scan_authenticate;
  scan_regions = Scanning.scan_regions;
  scan_start_turbo = Scanning.scan_start_turbo;
  scan_count_resident = Scanning.scan_count_resident;
  scan_get_resident = Scanning.scan_get_resident;
  scan_end = Scanning.scan_end;
  scan_start_iterative = Scanning.scan_start_iterative;
  scan_next_iterative = Scanning.scan_next_iterative;
}

abbrev row : ℕ → ℕ → ℕ → MemoryMap
row start end prot = record {
  name = text "eboot.bin";
  start = ram_base + start;
  end = ram_base + end;
  offset = start;
  prot = prot;
}

-- `MockTransport.__init__`, over the bytes of the RAM and the maps of the game.
abbrev pub new_mock : Bytes → List MemoryMap → Mock
new_mock ram rows = record {
  host = none;
  is_connected = false;
  decline_resident = false;
  decline_snapshot = false;
  fail_regions_probe = false;
  write_calls = [];
  drop_io = false;
  scan_authed = false;
  turbo_open = false;
  survivors = [];
  value_type = 4;
  ram = ram;
  procs =
      record { pid = 1; name = text "SceSysCore"; titleid = [] }
      ∷ record { pid = eboot_pid; name = text "eboot.bin"; titleid = [] }
      ∷ record { pid = 200; name = text "SceShellUI"; titleid = [] }
      ∷ [];
  foreground = record {
    pid = eboot_pid;
    name = text "eboot.bin";
    titleid = titleid;
    contentid = contentid;
    app_ver = text "01.00";
  };
  maps = (eboot_pid, rows) ∷ [];
}

-- A console with 32 bytes of RAM: 8 of code, then 24 of data, in which the u32 100 stands twice.
abbrev pub small_mock : Mock
small_mock =
    new_mock
      (100 ∷ 0 ∷ 0 ∷ 0 ∷ 4 ∷ 5 ∷ 6 ∷ 7 ∷ 100 ∷ 0 ∷ 0 ∷ 0 ∷ 200 ∷ 0 ∷ 0 ∷ 0 ∷ 100 ∷ 0 ∷ 0 ∷ 0 ∷ 50
        ∷ 0 ∷ 0 ∷ 0 ∷ 1 ∷ 2 ∷ 3 ∷ 4 ∷ 5 ∷ 6 ∷ 7 ∷ 8 ∷ [])
      (row 0 8 5 ∷ row 8 32 3 ∷ [])
