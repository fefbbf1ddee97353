-- ===== src/Tests/Runs.antt =====
-- Runs of the session over the mock console.
use nite_pr.Base.{ℕ, ◌≡◌, refl, Bool, true, false, Option, none, some, List, [], ◌∷◌}
use nite_pr.Base.Int.{pos}
use nite_pr.Base.Text.{Text, text}
use nite_pr.Base.Exec.{ok, err, ◌>>=◌, ◌>>◌}
use nite_pr.Types.{Dyn}
use nite_pr.Errors.{not_connected}
use nite_pr.Transport.Mock.{Mock}
use nite_pr.Transport.Mock.Console.{mock_transport, small_mock}
use nite_pr.Session.{Session, Method, new_session, via}
use nite_pr.Session.Connect.{connect, attach_target}
use nite_pr.Session.Memory.{read}
use nite_pr.Session.Hunt.Plan.{ScanRequest}
use nite_pr.Session.Hunt.First.{scan_start}

abbrev pub idle : Session Mock
idle = new_session small_mock

-- `connect` and `attach_target` of the game.
abbrev pub opening : Method Mock (Unit {0})
opening = do
  connect mock_transport 7 (text " host ")
  attach_target mock_transport 7 (Dyn.int (pos 1234))

abbrev pub exact_100 : ScanRequest
exact_100 = record {
  value_type = text "u32";
  compare = text "exact";
  value = Dyn.int (pos 100);
  alignment = Dyn.int (pos 4);
  unknown = false;
  regions = text "writable_cached";
}

offline_read :
    (read mock_transport 7 Dyn.nothing (Dyn.int (pos 0)) (Dyn.int (pos 4)) idle).0
    ≡ err not_connected
unfolding read ◌>>=◌
offline_read = refl

-- The first hunt finds the u32 100 at its two places in the data.
first_scan_count : ((opening >> scan_start mock_transport 7 Dyn.nothing exact_100) idle).0 ≡ ok 2
unfolding connect attach_target scan_start via ◌>>=◌ package.nite_pr.Transport.Mock.connect
    package.nite_pr.Transport.Mock.disconnect package.nite_pr.Transport.Mock.Scanning.scan_regions
    package.nite_pr.Transport.Mock.Scanning.scan_caps
    package.nite_pr.Transport.Mock.Scanning.scan_authenticate
    package.nite_pr.Transport.Mock.Scanning.scan_start_turbo
    package.nite_pr.Scan.Segments.ranges_to_segments
    package.nite_pr.Scan.Classify.classify_turbo_regions package.nite_pr.Scan.Ranges.merge_ranges
    package.nite_pr.Scan.Segments.split_all package.nite_pr.Base.Text.strip
    package.nite_pr.Base.Text.lower package.nite_pr.Base.Dict.lookup
first_scan_count = refl
