-- ===== src/Session/Cheats.antt =====
-- The cheats of web/nitepr5_core/session.py: `_module_base`, `cheat_from_freezes`, `cheat_load`
-- and `cheat_toggle`. What a file holds is an argument: the JSON value, or the exception that
-- reading it came to.
pub mod Marks
pub mod Writing
pub mod Frozen
use nite_pr.Base.{ℕ, Bool, true, false, not, Option, none, some, List, [], ◌∷◌, keep, if◌then◌else◌}
use nite_pr.Base.Int.{pos, ◌+ℤ◌}
use nite_pr.Base.Text.{Text, strip, or_text, eq_text, mem_text}
use nite_pr.Base.Exec.{Outcome, pure, gets, lift, modify, or_raise, ◌>>=◌, ◌>>◌}
use nite_pr.Constants.{eboot_name}
use nite_pr.Types.{Dyn, Bytes, CheatPatch, CheatMod, CheatFile}
use nite_pr.Errors.{Error, invalid_cheat, no_cheat, no_mod, foreign}
use nite_pr.Cheat.Hex.{int_of_hex}
use nite_pr.Cheat.Json.{Json}
use nite_pr.Cheat.File.{parse_cheat_dict}
use nite_pr.Cheat.Modules.{module_base_from_maps, cheat_file_from_freezes}
use nite_pr.Transport.{Transport}
use nite_pr.Session.{Session, Method, resolve_pid, require_connected}
use nite_pr.Session.Memory.{maps, write}
use nite_pr.Session.Pins.{freezes}

-- `next((m for m in mods if m.name == name), None)`
unfoldable pub find_mod : Text → List CheatMod → Option CheatMod
unfolding eq_text
find_mod name [] = none
find_mod name (m ∷ mods) = if eq_text m.name name then some m else find_mod name mods

-- `payload = patch.on if enabled else patch.off`
abbrev pub payload_of : Bool → CheatPatch → Bytes
payload_of enabled patch = if enabled then patch.on else patch.off

-- The set of the enabled names after a toggle.
abbrev pub marked : Bool → Text → List Text → List Text
marked true name names = if mem_text name names then names else name ∷ names
marked false name names = keep (λ n. not (eq_text name n)) names

module _ {T : Type 0} where
  -- The file is kept, and no mod of it is switched on.
  abbrev pub keep_cheat : CheatFile → Session T → Session T
  keep_cheat cheat s = record s { cheat = some cheat; cheat_enabled = [] }

  unfoldable pub cheat_load : Outcome Error Json → Method T CheatFile
  cheat_load content = do
    raw ← lift content
    cheat ← lift (parse_cheat_dict raw)
    modify (keep_cheat cheat)
    pure cheat

  abbrev pub mark : Bool → Text → Session T → Session T
  mark enabled name s = record s { cheat_enabled = marked enabled name s.cheat_enabled }

  module _ (tr : Transport T) (me : ℕ) where
    -- `_module_base`
    unfoldable pub module_base : ℕ → Text → Method T ℕ
    unfolding maps module_base_from_maps
    module_base pid process = do
      rows ← maps tr me (Dyn.int (pos pid)) false
      or_raise (module_base_from_maps rows process) invalid_cheat

    unfoldable pub cheat_from_freezes : (name title_id version process : Text) → Method T CheatFile
    unfolding require_connected resolve_pid module_base cheat_file_from_freezes freezes
    cheat_from_freezes name title_id version process = do
      require_connected tr
      pid ← resolve_pid Dyn.nothing
      let proc = or_text (strip (or_text process eboot_name)) eboot_name
      base ← module_base pid proc
      entries ← freezes
      lift (cheat_file_from_freezes entries base name title_id version proc)

    -- The loop over the patches of a mod.
    unfoldable pub write_patches : ℕ → ℕ → Bool → List CheatPatch → Method T (Unit {0})
    unfolding int_of_hex write
    write_patches pid base enabled [] = pure tt
    write_patches pid base enabled (patch ∷ memory) = do
      offset ← or_raise (int_of_hex patch.offset) foreign
      write tr me (Dyn.int (pos pid)) (Dyn.int (pos base +ℤ offset))
          (Dyn.bytes (payload_of enabled patch))
      write_patches pid base enabled memory

    unfoldable pub cheat_toggle : Text → Bool → Method T (Unit {0})
    unfolding require_connected resolve_pid find_mod module_base write_patches
    cheat_toggle name enabled = do
      loaded ← gets (λ s. s.cheat)
      cheat ← or_raise loaded no_cheat
      m ← or_raise (find_mod name cheat.mods) (no_mod name)
      require_connected tr
      pid ← resolve_pid Dyn.nothing
      base ← module_base pid (or_text cheat.process eboot_name)
      write_patches pid base enabled m.memory
      modify (mark enabled name)
