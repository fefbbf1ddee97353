-- ===== src/Tests/Toggles.antt =====
-- The theorems on what a toggle and a tick write, over the mock console.
use nite_pr.Base.{
  ℕ, ◌≡◌, refl, Bool, true, false, some, none, List, [], ◌∷◌, length, if◌then◌else◌, arith,
}
use nite_pr.Base.Text.{text}
use nite_pr.Base.Dict.{values}
use nite_pr.Base.Exec.{◌>>=◌}
use nite_pr.Types.{CheatFile, FreezeEntry}
use nite_pr.Cheat.Modules.{cheat_file_from_freezes}
use nite_pr.Transport.Mock.{Mock}
use nite_pr.Transport.Mock.Console.{mock_transport, small_mock}
use nite_pr.Session.{Session}
use nite_pr.Session.Pins.{freeze_tick}
use nite_pr.Session.Pins.Ticking.{WritesEach, freeze_tick_writes}
use nite_pr.Session.Cheats.{cheat_toggle}
use nite_pr.Session.Cheats.Writing.{Toggled, cheat_toggle_writes}
use nite_pr.Session.Cheats.Frozen.{first_at, TogglesFreeze, cheat_toggle-cheat_file_from_freezes}
use nite_pr.Tests.Runs.{idle}

abbrev freeze : FreezeEntry
freeze = record { id = 1; pid = 1234; addr = 0x410; content = 9 ∷ [] }

abbrev frozen : List FreezeEntry
frozen =
    freeze
    ∷ record { id = 2; pid = 1234; addr = 0x3ff; content = 8 ∷ [] }
    ∷ record { id = 3; pid = 1234; addr = 0x410; content = 7 ∷ [] }
    ∷ []

-- The file made from them at 0x400.
abbrev saved : CheatFile
saved = record {
  name = text "Game";
  id = text "CUSA00000";
  version = text "00.00";
  process = text "eboot.bin";
  mods =
      record {
        name = text "Freeze 0x410";
        description = [];
        type = text "checkbox";
        memory = record { offset = text "10"; on = 9 ∷ []; off = 0 ∷ [] } ∷ [];
      }
      ∷ record {
        name = text "Freeze 0x410";
        description = [];
        type = text "checkbox";
        memory = record { offset = text "10"; on = 7 ∷ []; off = 0 ∷ [] } ∷ [];
      }
      ∷ [];
  credits = text "NitePR5" ∷ [];
}

-- A connected session that has loaded the file, and has two freezes.
abbrev gaming : Session Mock
gaming = record idle {
  transport = record small_mock { is_connected = true };
  target_pid = some 1234;
  cheat = some saved;
  freezes = (1, freeze) ∷ (2, record freeze { id = 2; addr = 0x2_0000_0008 }) ∷ [];
}

freeze_tick_writes_example :
    let es = if gaming.plugin_armed then [] else values gaming.freezes in
    WritesEach mock_transport es gaming.transport (freeze_tick mock_transport 7 gaming).1.transport
    × (2 ≡ length es)
unfolding freeze_tick ◌>>=◌ package.nite_pr.Base.Dict.values package.nite_pr.Session.Lock.hold_io
    package.nite_pr.Session.via package.nite_pr.Transport.Mock.Memory.write
freeze_tick_writes_example = freeze_tick_writes mock_transport 7 gaming 2 refl

cheat_toggle_writes_example :
    Toggled mock_transport 7
      (text "Freeze 0x410")
      true
      gaming
      (cheat_toggle mock_transport 7 (text "Freeze 0x410") true gaming)
unfolding cheat_toggle ◌>>=◌ package.nite_pr.Base.Dict.lookup package.nite_pr.Session.Lock.hold_io
    package.nite_pr.Session.via package.nite_pr.Transport.Mock.maps package.nite_pr.Base.Int.◌+ℤ◌
    package.nite_pr.Transport.Mock.Memory.write
cheat_toggle_writes_example =
    cheat_toggle_writes mock_transport 7 (text "Freeze 0x410") true gaming refl

cheat_toggle-cheat_file_from_freezes_example :
    TogglesFreeze mock_transport 7 0x400 saved true freeze gaming
      (cheat_toggle mock_transport 7 (text "Freeze 0x410") true gaming).1
unfolding cheat_toggle ◌>>=◌ package.nite_pr.Base.Dict.lookup package.nite_pr.Session.Lock.hold_io
    package.nite_pr.Session.via package.nite_pr.Transport.Mock.maps package.nite_pr.Base.Int.◌+ℤ◌
    package.nite_pr.Transport.Mock.Memory.write cheat_file_from_freezes first_at
cheat_toggle-cheat_file_from_freezes_example =
    cheat_toggle-cheat_file_from_freezes mock_transport 7 frozen 0x400 [] [] [] [] saved freeze true
      gaming refl refl (omega arith) refl refl
