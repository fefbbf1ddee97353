-- ===== src/Tests/Cheats.antt =====
-- The theorems on cheat files, applied to small files.
use nite_pr.Base.{◌≡◌, refl, [], ◌∷◌, arith}
use nite_pr.Base.Text.{text, strip}
use nite_pr.Base.Exec.{ok}
use nite_pr.Types.{CheatPatch, CheatMod, CheatFile}
use nite_pr.Cheat.Hex.{parse_hex_bytes, int_of_hex}
use nite_pr.Cheat.File.{parse_cheat_dict, cheat_to_dict}
use nite_pr.Cheat.File.RoundTrip.{IsCheat, parse_cheat_dict-cheat_to_dict}
use nite_pr.Cheat.File.Parsed.{parse_cheat_dict-IsCheat}

abbrev patch : CheatPatch
patch = record { offset = text "1f0"; on = 255 ∷ 1 ∷ []; off = 0 ∷ 0 ∷ [] }

abbrev more_gold : CheatMod
more_gold = record {
  name = text "Gold";
  description = [];
  type = text "checkbox";
  memory = patch ∷ [];
}

abbrev sample : CheatFile
sample = record {
  name = text "Game";
  id = text "CUSA00004";
  version = text "01.00";
  process = text "eboot.bin";
  mods = more_gold ∷ [];
  credits = text "NitePR5" ∷ [];
}

sample-IsCheat : IsCheat sample
unfolding strip int_of_hex
sample-IsCheat = (
  refl,
  (λ e. ground arith),
  (
    (
      (λ e. ground arith),
      (
        (
          refl,
          (λ e. ground arith),
          ((omega arith, (omega arith, tt)), omega arith, omega arith),
          ((omega arith, (omega arith, tt)), omega arith, omega arith),
        ),
        tt,
      ),
    ),
    tt,
  ),
)

parse_cheat_dict-cheat_to_dict_example : parse_cheat_dict (cheat_to_dict sample) ≡ ok sample
parse_cheat_dict-cheat_to_dict_example = parse_cheat_dict-cheat_to_dict sample sample-IsCheat

sample_read : parse_cheat_dict (cheat_to_dict sample) ≡ ok sample
unfolding parse_cheat_dict cheat_to_dict strip parse_hex_bytes
sample_read = refl

parse_cheat_dict-IsCheat_example : IsCheat sample
parse_cheat_dict-IsCheat_example = parse_cheat_dict-IsCheat (cheat_to_dict sample) sample_read
