-- ===== src/Session/Valid/Cheating.antt =====
-- The methods of the cheats, and the invariant of the watches and the freezes.
use nite_pr.Base.{ℕ, Bool, List, [], ◌∷◌}
use nite_pr.Base.Int.{pos, ◌+ℤ◌}
use nite_pr.Base.Text.{Text}
use nite_pr.Base.Exec.{Outcome}
use nite_pr.Base.Exec.Keeps.{Keeps-bind}
use nite_pr.Types.{Dyn, CheatPatch}
use nite_pr.Errors.{Error}
use nite_pr.Cheat.Json.{Json}
use nite_pr.Transport.{Transport}
use nite_pr.Session.Cheats.{
  payload_of, cheat_load, module_base, cheat_from_freezes, write_patches, cheat_toggle,
}
use nite_pr.Session.Pins.{freezes}
use nite_pr.Session.Valid.{KeepsValid}
use nite_pr.Session.Valid.Rules.{valid_rules, require_connected-IsValid, resolve_pid-IsValid}
use nite_pr.Session.Valid.Methods.{maps-IsValid, write-IsValid}

pub cheat_load-IsValid :
    {T : Type 0} (content : Outcome Error Json) → KeepsValid {T = T} (cheat_load content)
unfolding cheat_load
cheat_load-IsValid content = search valid_rules

module _ {T : Type 0} (tr : Transport T) (me : ℕ) where
  module_base-IsValid : (pid : ℕ) (process : Text) → KeepsValid (module_base tr me pid process)
  unfolding module_base
  module_base-IsValid pid process = search (valid_rules, maps-IsValid)

  pub cheat_from_freezes-IsValid :
      (name title_id version process : Text)
      → KeepsValid (cheat_from_freezes tr me name title_id version process)
  unfolding cheat_from_freezes freezes
  cheat_from_freezes-IsValid name title_id version process =
      search (valid_rules, module_base-IsValid, require_connected-IsValid, resolve_pid-IsValid)

  write_patches-IsValid :
      (pid base : ℕ) (enabled : Bool) (memory : List CheatPatch)
      → KeepsValid (write_patches tr me pid base enabled memory)
  unfolding write_patches
  write_patches-IsValid pid base enabled [] = search valid_rules
  write_patches-IsValid pid base enabled (patch ∷ memory) =
      Keeps-bind _ _ (search valid_rules) (λ offset.
        Keeps-bind _ _
          (write-IsValid tr me (Dyn.int (pos pid)) (Dyn.int (pos base +ℤ offset))
            (Dyn.bytes (payload_of enabled patch)))
          (λ _. write_patches-IsValid pid base enabled memory))

  pub cheat_toggle-IsValid :
      (name : Text) (enabled : Bool) → KeepsValid (cheat_toggle tr me name enabled)
  unfolding cheat_toggle
  cheat_toggle-IsValid name enabled =
      search
        (
          valid_rules, module_base-IsValid, write_patches-IsValid, require_connected-IsValid,
          resolve_pid-IsValid,
        )
        depth 14
