-- ===== src/Tests/Webs.antt =====
-- The theorems on the web application, at small requests.
use nite_pr.Base.{◌≡◌, refl, Bool, true, false, none, some, [], ◌∷◌, arith}
use nite_pr.Base.Int.{pos}
use nite_pr.Base.Text.{Text, text, strip}
use nite_pr.Base.Exec.{Outcome, ok, err, ◌>>=◌}
use nite_pr.Errors.{Error, foreign}
use nite_pr.Cheat.Json.{Json}
use nite_pr.Cheat.Hex.{bytes_hex}
use nite_pr.Transport.Contract.Mocked.{mock_transport-IsHonest}
use nite_pr.Transport.Mock.Console.{mock_transport, small_mock}
use nite_pr.Session.Memory.{read}
use nite_pr.Web.{Answer, Response, respond}
use nite_pr.Web.Inputs.{hex_bytes, cheat_path}
use nite_pr.Web.Inputs.Laws.{IsFileName, hex_bytes-bytes_hex, cheat_path-IsFileName}
use nite_pr.Web.Routes.{Request, handle}
use nite_pr.Web.Views.{freeze_json}
use nite_pr.Session.{Session}
use nite_pr.Transport.Mock.{Mock}
use nite_pr.Web.Conflict.{IsDirect, conflict_is_down}
use nite_pr.Tests.Runs.{idle}

-- A directory without symbolic links and without files.
abbrev anywhere : Text → Bool
anywhere name = true

abbrev no_file : Text → Outcome Error Json
no_file name = err foreign

-- A session with a console and a target.
abbrev linked : Session Mock
linked = record idle {
  transport = record small_mock { is_connected = true };
  target_pid = some 1234;
}

abbrev poke : Request
poke = Request.freeze_add (pos 0x2_0000_0008) (text "6300")

abbrev frozen : Answer
frozen = freeze_json (record { id = 1; pid = 1234; addr = 0x2_0000_0008; content = 0x63 ∷ 0 ∷ [] })

abbrev peep : Request
peep = Request.read (pos 0x2_0000_0000) (pos 4) none

abbrev refusal : Response
refusal = record { status = 409; content = none }

peep_refused : respond (handle mock_transport anywhere no_file 7 peep idle).0 ≡ some refusal
unfolding handle respond ◌>>=◌ read
peep_refused = refl

conflict_is_down_example :
    (handle mock_transport anywhere no_file 7 peep idle).1.transport.is_connected ≡ false
conflict_is_down_example =
    conflict_is_down mock_transport mock_transport-IsHonest anywhere no_file 7 IsDirect.read idle
      refusal peep_refused refl

named : cheat_path anywhere (text " CUSA00004_01.00.json ") ≡ ok (text "CUSA00004_01.00.json")
unfolding cheat_path strip
named = refl

cheat_path-IsFileName_example :
    (text "CUSA00004_01.00.json" ≡ strip (text " CUSA00004_01.00.json "))
    × IsFileName (text "CUSA00004_01.00.json")
cheat_path-IsFileName_example = cheat_path-IsFileName anywhere (text " CUSA00004_01.00.json ") named

hex_bytes-bytes_hex_example : hex_bytes (bytes_hex (0x63 ∷ 0xff ∷ [])) ≡ ok (0x63 ∷ 0xff ∷ [])
hex_bytes-bytes_hex_example =
    hex_bytes-bytes_hex (0x63 ∷ 0xff ∷ []) (omega arith, (omega arith, tt)) (omega arith)
