-- ===== src/Session/Cheats/Writing.antt =====
-- What `cheat_toggle` writes to the transport.
use nite_pr.Base.{
  ℕ, ◌≡◌, refl, sym, ◌∙◌, subst, Bool, true, false, Option, none, some, List, [], ◌∷◌, arith,
}
use nite_pr.Base.Int.{ℤ, pos, ◌+ℤ◌}
use nite_pr.Base.Text.{Text, or_text}
use nite_pr.Base.Exec.{Outcome, ok, pure, or_raise, gets, modify, ◌>>=◌}
use nite_pr.Base.Exec.Steps.{bind-returned, check-returned}
use nite_pr.Base.Result.{ok_inj}
use nite_pr.Constants.{eboot_name}
use nite_pr.Types.{Dyn, Bytes, CheatPatch, CheatMod, CheatFile}
use nite_pr.Errors.{Error, no_cheat, no_mod, no_target, foreign}
use nite_pr.Cheat.Hex.{int_of_hex}
use nite_pr.Transport.{Transport}
use nite_pr.Session.{Session, resolve_pid}
use nite_pr.Session.Memory.{write}
use nite_pr.Session.Memory.Bounds.{require_connected_state, resolve_pid_state}
use nite_pr.Session.Memory.Writing.{Poked, write-returned}
use nite_pr.Session.Cheats.{payload_of, find_mod, module_base, write_patches, cheat_toggle}

module _ {A S : Type 0} where
  or_raise-some :
      (o : Option A) (e : Error) (s : S) {a : A} → (or_raise o e s).0 ≡ ok a → o ≡ some a
  unfolding or_raise
  or_raise-some none e s h = ground arith
  or_raise-some (some b) e s h = ground arith

  or_raise_state : (o : Option A) (e : Error) (s : S) → (or_raise o e s).1 ≡ s
  unfolding or_raise
  or_raise_state none e s = refl
  or_raise_state (some b) e s = refl

target_some :
    {T : Type 0} (s : Session T) (pid : ℕ)
    → (resolve_pid Dyn.nothing s).0 ≡ ok pid
    → s.target_pid ≡ some pid
unfolding resolve_pid gets ◌>>=◌
target_some s pid h = or_raise-some s.target_pid no_target s h

-- The on bytes of a patch, or its off bytes.
abbrev pub patch_bytes : Bool → CheatPatch → Bytes
patch_bytes true p = p.on
patch_bytes false p = p.off

payload_of-patch_bytes :
    (enabled : Bool) (p : CheatPatch) → payload_of enabled p ≡ patch_bytes enabled p
payload_of-patch_bytes true p = refl
payload_of-patch_bytes false p = refl

module _ {T : Type 0} (tr : Transport T) (pid base : ℕ) (enabled : Bool) where
  -- From `t`, the transport writes the on bytes of each patch, or the off bytes, at the base plus
  -- the number that its offset stands for, one after another, and is then `t'`.
  unfoldable pub WritesPatches : List CheatPatch → T → T → Type 0
  WritesPatches [] t t' = t ≡ t'
  WritesPatches (p ∷ ps) t t' =
      (offset : ℤ) × (a : ℕ) × (int_of_hex p.offset ≡ some offset)
      × (pos base +ℤ offset ≡ pos a)
      × ((tr.write pid a (patch_bytes enabled p) t).0 ≡ ok tt)
      × WritesPatches ps (tr.write pid a (patch_bytes enabled p) t).1 t'

  write_patches-Writes :
      (me : ℕ) (ps : List CheatPatch) (s : Session T)
      → (write_patches tr me pid base enabled ps s).0 ≡ ok tt
      → WritesPatches ps s.transport (write_patches tr me pid base enabled ps s).1.transport
  unfolding write_patches WritesPatches pure
  write_patches-Writes me [] s h = refl
  write_patches-Writes me (p ∷ ps) s h =
      let Q : Outcome Error (Unit {0}) × Session T → Type 0 =
        λ x. WritesPatches (p ∷ ps) s.transport x.1.transport in
      check-returned _ _ s Q (or_raise_state (int_of_hex p.offset) foreign s) h λ offset e1 h1.
        bind-returned _ _ s Q h1 λ done e2 h2.
          let z = pos base +ℤ offset in
          let (a, at, poked) = write-returned tr me pid z (payload_of enabled p) s e2 in
          let next =
            write tr me (Dyn.int (pos pid)) (Dyn.int z) (Dyn.bytes (payload_of enabled p)) s in
          let after = write_patches tr me pid base enabled ps next.1 in
          let ran =
            subst (λ (c : Bytes). Poked tr pid a c s.transport next.1.transport)
              (payload_of-patch_bytes enabled p) poked in
          (
            offset,
            a,
            or_raise-some (int_of_hex p.offset) foreign s e1,
            at,
            ran.0,
            subst (λ t. WritesPatches ps t after.1.transport) (sym ran.1)
                (write_patches-Writes me ps next.1 h2),
          )

module _ {T : Type 0} (tr : Transport T) (me : ℕ) where
  -- The call has found the mod and the base, and has then written the patches.
  unfoldable pub Toggled : Text → Bool → Session T → Outcome Error (Unit {0}) × Session T → Type 0
  Toggled name enabled s x =
      (cheat : CheatFile) × (m : CheatMod) × (pid : ℕ) × (base : ℕ) × (s.cheat ≡ some cheat)
      × (find_mod name cheat.mods ≡ some m)
      × (s.target_pid ≡ some pid)
      × ((module_base tr me pid (or_text cheat.process eboot_name) s).0 ≡ ok base)
      × WritesPatches tr pid base enabled m.memory
          (module_base tr me pid (or_text cheat.process eboot_name) s).1.transport x.1.transport

  -- A `cheat_toggle` that returned has written, for the process attached to, the bytes of each patch
  -- of the first mod of that name in the loaded file, at the base of the file's module plus the
  -- number that the patch's offset stands for, and nothing else once the base was found: the on
  -- bytes where the mod was to be enabled, and the off bytes where not.
  pub cheat_toggle_writes :
      (name : Text) (enabled : Bool) (s : Session T)
      → (cheat_toggle tr me name enabled s).0 ≡ ok tt
      → Toggled name enabled s (cheat_toggle tr me name enabled s)
  unfolding cheat_toggle Toggled gets modify
  cheat_toggle_writes name enabled s h =
      let Q : Outcome Error (Unit {0}) × Session T → Type 0 = Toggled name enabled s in
      check-returned _ _ s Q refl h λ loaded e1 h1.
        check-returned _ _ s Q (or_raise_state loaded no_cheat s) h1 λ cheat e2 h2.
          check-returned _ _ s Q (or_raise_state (find_mod name cheat.mods) (no_mod name) s) h2
            λ m e3 h3. check-returned _ _ s Q (require_connected_state tr s) h3 λ up e4 h4.
              check-returned _ _ s Q (resolve_pid_state Dyn.nothing s) h4 λ pid e5 h5.
                bind-returned _ _ s Q h5 λ base e6 h6.
                  let t = (module_base tr me pid (or_text cheat.process eboot_name) s).1 in
                  bind-returned _ _ t Q h6 λ done e7 h7. (
                    cheat,
                    m,
                    pid,
                    base,
                    ok_inj e1 ∙ or_raise-some loaded no_cheat s e2,
                    or_raise-some (find_mod name cheat.mods) (no_mod name) s e3,
                    target_some s pid e5,
                    e6,
                    write_patches-Writes tr pid base enabled me m.memory t e7,
                  )
