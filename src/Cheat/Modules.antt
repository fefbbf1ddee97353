-- ===== src/Cheat/Modules.antt =====
-- `map_belongs_to_process`, `module_base_from_maps` and `cheat_file_from_freezes` of
-- web/nitepr5_core/cheat.py.
use nite_pr.Base.{
  ℕ, ◌-◌, Bool, true, false, not, ◌&&◌, ◌||◌, Option, none, some, List, [], ◌∷◌, ◌++◌, map, ltb,
  ◌==◌, min, length, replicate, if◌then◌else◌,
}
use nite_pr.Base.Text.{Text, text, strip, lower, eq_text, is_nonempty, or_text}
use nite_pr.Base.Exec.{Outcome, ok, err}
use nite_pr.Constants.{eboot_name, executable_map_name}
use nite_pr.Types.{CheatMod, CheatFile, FreezeEntry, MemoryMap}
use nite_pr.Errors.{Error, invalid_cheat}
use nite_pr.Cheat.Hex.{format_hex}

-- `s.replace("\\", "/")`
abbrev slashes : Text → Text
slashes s = map (λ c. if c == 92 then 47 else c) s

-- `s.rsplit("/", 1)[-1]`: the text after the last slash, where `seen` is what stands since then.
unfoldable pub after_slash : Text → Text → Text
after_slash seen [] = seen
after_slash seen (c ∷ s) = elim (c == 47) [
  | true ↦ after_slash [] s
  | false ↦ after_slash (seen ++ (c ∷ [])) s
]

unfoldable pub map_belongs_to_process : Text → Text → Bool
unfolding after_slash strip lower eq_text
map_belongs_to_process map_name process =
    let name = strip map_name in
    let proc = or_text (strip (or_text process eboot_name)) eboot_name in
    let base = after_slash [] (slashes name) in
    if not (is_nonempty name)
    then false
    else if eq_text name proc || eq_text base proc
    then true
    else eq_text (lower proc) eboot_name && eq_text (lower base) executable_map_name

-- The smaller of a start and those of the rest.
abbrev lowest : ℕ → Option ℕ → Option ℕ
lowest start none = some start
lowest start (some other) = some (min start other)

unfoldable pub module_base_from_maps : List MemoryMap → Text → Option ℕ
unfolding map_belongs_to_process
module_base_from_maps [] process = none
module_base_from_maps (m ∷ maps) process =
    let rest = module_base_from_maps maps process in
    if map_belongs_to_process m.name process then lowest m.start rest else rest

-- The mod of one freeze.
unfoldable pub freeze_mod : ℕ → FreezeEntry → CheatMod
unfolding format_hex
freeze_mod base entry = record {
  name = text "Freeze 0x" ++ format_hex entry.addr;
  description = [];
  type = text "checkbox";
  memory =
      record {
        offset = format_hex (entry.addr - base);
        on = entry.content;
        off = replicate (length entry.content) 0;
      }
      ∷ [];
}

-- The loop: a freeze below the base is left out.
unfoldable pub freeze_mods : ℕ → List FreezeEntry → List CheatMod
unfolding freeze_mod
freeze_mods base [] = []
freeze_mods base (entry ∷ freezes) =
    let rest = freeze_mods base freezes in
    if ltb entry.addr base then rest else freeze_mod base entry ∷ rest

-- No freezes, and no freezes above the base, raise.
abbrev pub cheat_of :
    List CheatMod → (name title_id version process : Text) → Outcome Error CheatFile
cheat_of [] name title_id version process = err invalid_cheat
cheat_of (m ∷ mods) name title_id version process = ok (record {
  name = or_text name (text "Game");
  id = or_text title_id (text "CUSA00000");
  version = or_text version (text "00.00");
  process = or_text process eboot_name;
  mods = m ∷ mods;
  credits = text "NitePR5" ∷ [];
})

unfoldable pub cheat_file_from_freezes :
    List FreezeEntry → ℕ → (name title_id version process : Text) → Outcome Error CheatFile
unfolding freeze_mods
cheat_file_from_freezes freezes base name title_id version process =
    cheat_of (freeze_mods base freezes) name title_id version process
