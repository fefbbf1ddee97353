-- ===== src/Session/Cheats/Frozen.antt =====
-- A cheat file made from the freezes, and the toggle of one of its mods.
use nite_pr.Base.{
  ℕ, ◌+◌, ◌-◌, ◌≤◌, length, replicate, ◌==◌, ◌≡◌, refl, sym, ap, ◌∙◌, subst, ==_iff, Bool, true,
  false, true, false, Bool-cases, inl, inr, Option, none, some, List, [], ◌∷◌, ◌++◌, arith, ltb,
  if◌then◌else◌,
}
use nite_pr.Base.Int.{pos, ◌+ℤ◌, pos-+ℤ}
use nite_pr.Base.Text.{Text, text, or_text, eq_text, eq_text→eq, eq_text_refl}
use nite_pr.Base.Exec.{Outcome, ok}
use nite_pr.Errors.{Error}
use nite_pr.Base.Result.{ok_inj}
use nite_pr.Types.{Bytes, CheatMod, CheatFile, FreezeEntry}
use nite_pr.Cheat.Hex.{format_hex, int_of_hex}
use nite_pr.Cheat.Hex.Laws.{int_of_hex-format_hex}
use nite_pr.Cheat.Modules.{freeze_mod, freeze_mods, cheat_of, cheat_file_from_freezes}
use nite_pr.Constants.{eboot_name}
use nite_pr.Transport.{Transport}
use nite_pr.Session.{Session}
use nite_pr.Session.Memory.Writing.{Poked}
use nite_pr.Session.Cheats.{find_mod, module_base, cheat_toggle}
use nite_pr.Session.Cheats.Writing.{patch_bytes, WritesPatches, Toggled, cheat_toggle_writes}

-- The name of the mod of a freeze at `addr`.
abbrev pub freeze_name : ℕ → Text
freeze_name addr = text "Freeze 0x" ++ format_hex addr

-- The first of the freezes at `addr`.
unfoldable pub first_at : ℕ → List FreezeEntry → Option FreezeEntry
first_at addr [] = none
first_at addr (e ∷ freezes) = if e.addr == addr then some e else first_at addr freezes

-- What the mod of a freeze writes: the frozen bytes, or as many zeros.
abbrev pub frozen_payload : Bool → FreezeEntry → Bytes
frozen_payload enabled e = if enabled then e.content else replicate (length e.content) 0

pos_of_some : {a b : ℕ} → some (pos a) ≡ some (pos b) → a ≡ b
pos_of_some h = ground arith

-- Freezes at different addresses have different names.
freeze_name_eq : (a b : ℕ) → eq_text (freeze_name a) (freeze_name b) ≡ true → a ≡ b
unfolding eq_text
freeze_name_eq a b h = pos_of_some (
    sym (int_of_hex-format_hex a)
    ∙ (ap int_of_hex (eq_text→eq (format_hex a) (format_hex b) h) ∙ int_of_hex-format_hex b))

eq_freeze_name : (a b : ℕ) → eq_text (freeze_name a) (freeze_name b) ≡ (a == b)
eq_freeze_name a b = elim (Bool-cases (a == b)) [
  | inl e ↦
      subst (λ (c : ℕ). eq_text (freeze_name a) (freeze_name c) ≡ true) ((==_iff a b).0 e)
        (eq_text_refl (freeze_name a))
      ∙ sym e
  | inr n ↦ elim (Bool-cases (eq_text (freeze_name a) (freeze_name b))) [
    | inl same ↦ absurd (let e = freeze_name_eq a b same in ground arith)
    | inr differ ↦ differ ∙ sym n
  ]
]

some_inj : {A : Type 0} {a b : A} → some a ≡ some b → a ≡ b
some_inj h = cc

find_mod-freeze_mods :
    (base addr : ℕ) (freezes : List FreezeEntry) (e : FreezeEntry)
    → base ≤ addr
    → first_at addr freezes ≡ some e
    → find_mod (freeze_name addr) (freeze_mods base freezes) ≡ some (freeze_mod base e)
unfolding first_at freeze_mods find_mod
find_mod-freeze_mods base addr [] e h found = ground arith
find_mod-freeze_mods base addr (x ∷ freezes) e h found =
    let rest = find_mod-freeze_mods base addr freezes e h in
    elim (Bool-cases (ltb x.addr base)) [
      | inl low ↦ rw low (rest (skip (x.addr == addr) (ground arith) found))
      | inr high ↦ rw (high, eq_freeze_name x.addr addr) (taken (x.addr == addr) rest found)
    ]
  where
    skip :
        (b : Bool)
        → b ≡ false
        → (if b then some x else first_at addr freezes) ≡ some e
        → first_at addr freezes ≡ some e
    skip true n f = absurd (ground arith)
    skip false n f = f

    taken :
        (b : Bool)
        → (first_at addr freezes ≡ some e
            → find_mod (freeze_name addr) (freeze_mods base freezes) ≡ some (freeze_mod base e))
        → (if b then some x else first_at addr freezes) ≡ some e
        → (if b
            then some (freeze_mod base x)
            else find_mod (freeze_name addr) (freeze_mods base freezes))
          ≡ some (freeze_mod base e)
    taken true rest f = ap (λ y. some (freeze_mod base y)) (some_inj f)
    taken false rest f = rest f

cheat_of_ok :
    (mods : List CheatMod) (name title_id version process : Text) {cheat : CheatFile}
    → cheat_of mods name title_id version process ≡ ok cheat
    → mods ≡ cheat.mods
cheat_of_ok [] name title_id version process h = ground arith
cheat_of_ok (m ∷ mods) name title_id version process h = ap (λ c. c.mods) (ok_inj h)

mods-cheat_file_from_freezes :
    (freezes : List FreezeEntry) (base : ℕ) (name title_id version process : Text)
    {cheat : CheatFile}
    → cheat_file_from_freezes freezes base name title_id version process ≡ ok cheat
    → freeze_mods base freezes ≡ cheat.mods
unfolding cheat_file_from_freezes
mods-cheat_file_from_freezes freezes base name title_id version process h =
    cheat_of_ok (freeze_mods base freezes) name title_id version process h

patch_bytes-freeze_mod :
    (offset : Text) (enabled : Bool) (e : FreezeEntry)
    → patch_bytes enabled
        (record { offset = offset; on = e.content; off = replicate (length e.content) 0 })
      ≡ frozen_payload enabled e
patch_bytes-freeze_mod offset true e = refl
patch_bytes-freeze_mod offset false e = refl

-- A patch that a freeze made is written at the base plus its distance from the first base.
WritesPatches-freeze_mod :
    {T : Type 0} (tr : Transport T) (pid base first : ℕ) (enabled : Bool) (e : FreezeEntry)
    (t t' : T)
    → WritesPatches tr pid base enabled (freeze_mod first e).memory t t'
    → Poked tr pid (base + (e.addr - first)) (frozen_payload enabled e) t t'
unfolding WritesPatches freeze_mod
WritesPatches-freeze_mod tr pid base first enabled e t t' (offset, a, eo, ea, done, last) =
    let same : offset ≡ pos (e.addr - first) =
      some_inj (sym eo ∙ int_of_hex-format_hex (e.addr - first)) in
    let at : a ≡ base + (e.addr - first) =
      pos_of_some
        (ap some (sym ea ∙ (ap (λ z. pos base +ℤ z) same ∙ pos-+ℤ base (e.addr - first)))) in
    let bytes = patch_bytes-freeze_mod (format_hex (e.addr - first)) enabled e in
    subst (λ (b : ℕ). Poked tr pid b (frozen_payload enabled e) t t') at
      (subst (λ (c : Bytes). Poked tr pid a c t t') bytes (done, last))

module _ {T : Type 0} (tr : Transport T) (me : ℕ) where
  -- The call has found the base of the module, and then the transport has made the one write of the
  -- freeze's mod, at that base plus the distance of the freeze from `first`.
  abbrev pub TogglesFreeze : ℕ → CheatFile → Bool → FreezeEntry → Session T → Session T → Type 0
  TogglesFreeze first cheat enabled e s s' =
      (pid : ℕ) × (base : ℕ) × (s.target_pid ≡ some pid)
      × ((module_base tr me pid (or_text cheat.process eboot_name) s).0 ≡ ok base)
      × Poked tr pid (base + (e.addr - first)) (frozen_payload enabled e)
          (module_base tr me pid (or_text cheat.process eboot_name) s).1.transport s'.transport

  -- Where the loaded file was made from freezes at the base `first`, a `cheat_toggle` of the mod
  -- named after a freeze not below that base, the first of the freezes at its address, that returned
  -- has made one write once the module's base was found: the frozen bytes, or as many zeros where
  -- the mod was to be switched off, at the module's base plus the freeze's distance from `first`,
  -- which is the frozen address where the module stands where it stood.
  pub cheat_toggle-cheat_file_from_freezes :
      (freezes : List FreezeEntry) (first : ℕ) (name title_id version process : Text)
      (cheat : CheatFile) (e : FreezeEntry) (enabled : Bool) (s : Session T)
      → cheat_file_from_freezes freezes first name title_id version process ≡ ok cheat
      → s.cheat ≡ some cheat
      → first ≤ e.addr
      → first_at e.addr freezes ≡ some e
      → (cheat_toggle tr me (freeze_name e.addr) enabled s).0 ≡ ok tt
      → TogglesFreeze first cheat enabled e s (cheat_toggle tr me (freeze_name e.addr) enabled s).1
  unfolding Toggled
  cheat_toggle-cheat_file_from_freezes freezes first name title_id version process cheat e enabled s
        made loaded above found h =
      let (file, m, pid, base, has, finds, target, at, wrote) =
        cheat_toggle_writes tr me (freeze_name e.addr) enabled s h in
      let same : file ≡ cheat = some_inj (sym has ∙ loaded) in
      let mods = mods-cheat_file_from_freezes freezes first name title_id version process made in
      let mod_of : m ≡ freeze_mod first e = some_inj (
        sym finds
        ∙ (ap (λ (f : CheatFile). find_mod (freeze_name e.addr) f.mods) same
            ∙ (ap (find_mod (freeze_name e.addr)) (sym mods)
                ∙ find_mod-freeze_mods first e.addr freezes e above found))) in
      let after : CheatFile → Outcome Error ℕ × Session T =
        λ f. module_base tr me pid (or_text f.process eboot_name) s in
      let t' = (cheat_toggle tr me (freeze_name e.addr) enabled s).1.transport in
      let poked = WritesPatches-freeze_mod tr pid base first enabled e (after file).1.transport t' (
        subst
          (λ (x : CheatMod). WritesPatches tr pid base enabled x.memory (after file).1.transport t')
          mod_of wrote) in
      let (at', poked') =
        subst
          (λ (f : CheatFile).
            ((after f).0 ≡ ok base)
            × Poked tr pid (base + (e.addr - first)) (frozen_payload enabled e)
                (after f).1.transport t')
          same (at, poked) in
      (pid, base, target, at', poked')
