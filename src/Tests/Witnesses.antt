-- ===== src/Tests/Witnesses.antt =====
-- The theorems on the session and the mock console, applied to small inputs.
use nite_pr.Base.{
  ℕ, ◌+◌, ◌*◌, ◌%◌, ◌^◌, ◌≤◌, ◌<◌, ◌≡◌, ◌≢◌, ◌↔◌, ◌⊎◌, inl, inr, refl, Bool, true, false, ◌||◌,
  Option, none, some, List, [], ◌∷◌, ◌++◌, arith, length, take, All, if◌then◌else◌,
}
use nite_pr.Base.Int.{pos}
use nite_pr.Base.Text.{Text, text}
use nite_pr.Base.Exec.{ok, err, blocked, ◌>>=◌}
use nite_pr.Constants.{results_max}
use nite_pr.Types.{Dyn, ScanHit}
use nite_pr.Errors.{scan_unsupported}
use nite_pr.Transport.Mock.{Mock}
use nite_pr.Transport.Mock.Console.{mock_transport, small_mock}
use nite_pr.Transport.Mock.Scanning.{scan_count_resident, scan_end}
use nite_pr.Session.{Session, ScanState, Engine, turbo, iterative, local, Generation, new_session}
use nite_pr.Session.Calls.{Call, serve}
use nite_pr.Session.Valid.{IsValid, clear_pins-IsValid}
use nite_pr.Session.Valid.Serving.{serve-IsValid}
use nite_pr.Session.Memory.{read, write}
use nite_pr.Session.Memory.Bounds.{Refused, ReadsOnce, WritesOnce, read_bounds, write_bounds}
use nite_pr.Session.Hunt.Plan.{ScanRequest}
use nite_pr.Session.Hunt.Next.{scan_next}
use nite_pr.Session.Hunt.Undo.{scan_undo}
use nite_pr.Session.Hunt.Results.{scan_count, scan_results}
use nite_pr.Session.Hunt.Caching.{scan_results_bounded, scan_results_sticks}
use nite_pr.Session.Hunt.Restoring.{undone, scan_undo_restores, scan_next_failed_pushes}
use nite_pr.Session.Hunt.RoundTrip.{scan_undo-scan_next}
use nite_pr.Base.Text.{mem_text}
use nite_pr.Types.{CheatFile}
use nite_pr.Session.Cheats.{cheat_toggle}
use nite_pr.Session.Cheats.Marks.{cheat_toggle_marks}
use nite_pr.Base.Exec.{◌>>◌}
use nite_pr.Transport.Mock.Memory
use nite_pr.Transport.Mock.Memory.RoundTrip.{read-write}
use nite_pr.Tests.Runs.{idle, exact_100}

-- A session whose console is connected.
abbrev online : Session Mock
online = record idle {
  transport = record small_mock { is_connected = true };
  target_pid = some 1234;
}

abbrev hit_at : ℕ → ScanHit
hit_at a = record { addr = a; current = 100 ∷ 0 ∷ 0 ∷ 0 ∷ []; previous = none }

abbrev two_hits : List ScanHit
two_hits = hit_at 0x2_0000_0008 ∷ hit_at 0x2_0000_0010 ∷ []

abbrev two_rows : ScanState
two_rows = record {
  pid = 1234;
  value_type = 4;
  alignment = 4;
  engine = iterative;
  count = 2;
  segments = (0x2_0000_0008, 24) ∷ [];
  hits = none;
  iterative_all = some two_hits;
  undo_stack = [];
}

abbrev many_rows : ScanState
many_rows = record two_rows { engine = turbo; count = 1000; iterative_all = none }

abbrev narrowed : ScanState
narrowed = record two_rows {
  engine = turbo;
  count = 0;
  hits = some [];
  iterative_all = none;
  undo_stack = (2, some two_hits) ∷ [];
}

abbrev hunting_with : ScanState → Session Mock
hunting_with scan = record online { scan = some scan }

serve-IsValid_example : IsValid (
    serve mock_transport
      ((7, Call.connect (text "ps5"))
        ∷ (
          7,
          Call.watch_add
              (Dyn.int (pos 1234))
              (Dyn.int (pos 0x2_0000_0008))
              (Dyn.int (pos 4))
              (text "gold"),
        )
        ∷ (
          8,
          Call.freeze_add
              (Dyn.int (pos 1234))
              (Dyn.int (pos 0x2_0000_0008))
              (Dyn.bytes (99 ∷ 0 ∷ [])),
        )
        ∷ (8, Call.freeze_tick)
        ∷ (7, Call.scan_start (Dyn.int (pos 1234)) exact_100)
        ∷ [])
      idle)
serve-IsValid_example = serve-IsValid mock_transport _ idle (clear_pins-IsValid idle)

scan_undo_restores_example :
    ((scan_undo mock_transport 7 (hunting_with narrowed)).0 ≡ ok (some 2))
    × ((scan_undo mock_transport 7 (hunting_with narrowed)).1.scan
        ≡ some (undone (2, some two_hits) [] turbo narrowed))
unfolding scan_end ◌>>=◌
scan_undo_restores_example =
    scan_undo_restores mock_transport 7 (hunting_with narrowed) narrowed (2, some two_hits) []
      (refl, refl) refl refl refl (omega arith) (λ e. ground arith)

scan_results_bounded_example : (length two_hits ≤ 10) × (10 ≤ results_max)
unfolding scan_results ◌>>=◌
scan_results_bounded_example =
    scan_results_bounded mock_transport 7 10 (hunting_with two_rows) {hits = two_hits} refl

scan_results_sticks_example :
    let (first, s') = scan_results mock_transport 7 (Dyn.int (pos 1)) (hunting_with two_rows) in
    (first ≡ ok (take 1 two_hits))
    × ((scan_results mock_transport 7 (Dyn.int (pos results_max)) s').0 ≡ ok (take 1 two_hits))
    × ((scan_count mock_transport 7 s').0 ≡ ok 2)
scan_results_sticks_example =
    scan_results_sticks mock_transport 7 (hunting_with two_rows) two_rows 1 two_hits (omega arith)
      (omega arith) (omega arith) refl refl refl refl refl refl

scan_next_failed_pushes_example :
    ((scan_next mock_transport 7 (text "exact") (Dyn.int (pos 5)) (hunting_with many_rows)).0
      ≡ err scan_unsupported)
    × ((scan_next mock_transport 7 (text "exact") (Dyn.int (pos 5)) (hunting_with many_rows)).1.scan
        ≡ some (record many_rows { undo_stack = (1000, none) ∷ [] }))
unfolding scan_count_resident package.nite_pr.Session.Hunt.Plan.plan_next
    package.nite_pr.Base.Text.strip package.nite_pr.Base.Text.lower ◌>>=◌
scan_next_failed_pushes_example =
    scan_next_failed_pushes mock_transport 7 (text "exact") (Dyn.int (pos 5)) 0 5
      (hunting_with many_rows) many_rows scan_unsupported (refl, refl) refl refl refl refl
      (omega arith) refl refl

read_bounds_example :
    Refused online
      (read mock_transport 7 Dyn.nothing (Dyn.int (pos 0x2_0000_0008)) (Dyn.int (pos 4)) online)
    ⊎ ReadsOnce mock_transport 7 Dyn.nothing
        (Dyn.int (pos 0x2_0000_0008))
        online
        (read mock_transport 7 Dyn.nothing (Dyn.int (pos 0x2_0000_0008)) (Dyn.int (pos 4)) online)
read_bounds_example =
    read_bounds mock_transport 7 Dyn.nothing (Dyn.int (pos 0x2_0000_0008)) online (Dyn.int (pos 4))

write_bounds_example :
    Refused online
      (write mock_transport 7 Dyn.nothing (Dyn.int (pos 0x2_0000_0008)) (Dyn.bytes (1 ∷ [])) online)
    ⊎ WritesOnce mock_transport 7 Dyn.nothing (Dyn.int (pos 0x2_0000_0008)) online (
        write mock_transport 7 Dyn.nothing
          (Dyn.int (pos 0x2_0000_0008))
          (Dyn.bytes (1 ∷ []))
          online)
write_bounds_example =
    write_bounds mock_transport 7 Dyn.nothing (Dyn.int (pos 0x2_0000_0008)) online
      (Dyn.bytes (1 ∷ []))

-- The console's engine holds the two rows, and they were fetched.
abbrev fetched : ScanState
fetched = record two_rows { engine = turbo; hits = some two_hits; iterative_all = none }

abbrev resident : Session Mock
resident = record online {
  transport = record small_mock { is_connected = true; turbo_open = true; survivors = two_hits };
  scan = some fetched;
}

scan_end_returns : (t : Mock) → (scan_end t).0 ≢ blocked
unfolding scan_end ◌>>=◌
scan_end_returns t h = ground arith

scan_undo-scan_next_example :
    let s' = (scan_next mock_transport 7 (text "unchanged") Dyn.nothing resident).1 in
    ((scan_undo mock_transport 7 s').0 ≡ ok (some 2))
    × ((scan_undo mock_transport 7 s').1.scan ≡ some (undone (2, some two_hits) [] turbo fetched))
unfolding scan_next scan_count_resident package.nite_pr.Session.Hunt.Plan.plan_next
    package.nite_pr.Base.Text.strip package.nite_pr.Base.Text.lower ◌>>=◌
    package.nite_pr.Session.via
scan_undo-scan_next_example =
    scan_undo-scan_next mock_transport 7 (text "unchanged") Dyn.nothing 10 0 2 resident fetched
      two_hits (refl, refl) refl refl (λ e. cc) refl (omega arith) refl refl refl
      (scan_end_returns _)

abbrev gold : CheatFile
gold = record {
  name = text "Game";
  id = text "CUSA00004";
  version = text "01.00";
  process = text "eboot.bin";
  mods =
      record {
        name = text "Gold";
        description = [];
        type = text "checkbox";
        memory = record { offset = text "c"; on = 9 ∷ []; off = 0 ∷ [] } ∷ [];
      }
      ∷ [];
  credits = [];
}

abbrev loaded : Session Mock
loaded = record online { cheat = some gold }

cheat_toggle_marks_example :
    mem_text (text "Gold") (cheat_toggle mock_transport 7 (text "Gold") true loaded).1.cheat_enabled
    ≡ true
unfolding cheat_toggle ◌>>=◌ package.nite_pr.Base.Dict.lookup package.nite_pr.Session.Lock.hold_io
    package.nite_pr.Session.via package.nite_pr.Transport.Mock.maps package.nite_pr.Base.Int.◌+ℤ◌
    package.nite_pr.Transport.Mock.Memory.write
cheat_toggle_marks_example = cheat_toggle_marks mock_transport 7 (text "Gold") true loaded refl

read-write_example :
    ((Memory.write 7 0x2_0000_0009 (1 ∷ 2 ∷ []) >> Memory.read 8 0x2_0000_0009 2)
      online.transport).0
    ≡ ok (1 ∷ 2 ∷ [])
read-write_example =
    read-write online.transport 7 8 0x2_0000_0009 (1 ∷ 2 ∷ []) refl refl (omega arith) (omega arith)
      (omega arith) (omega arith)
