-- ===== src/Web/Inputs/Laws.antt =====
-- What passes the checks of web/app.py.
use nite_pr.Base.{
  ℕ, ◌≤◌, ◌<◌, ◌≡◌, ◌≢◌, refl, ap, sym, subst, Bool, true, ◌&&◌, some, [], ◌∷◌, ◌++◌, All, arith,
  length, Bool-cases, inl, inr, &&-true,
}
use nite_pr.Base.Text.{Text, text, strip, eq_text, eq_text→eq}
use nite_pr.Base.Exec.{Outcome, ok, err}
use nite_pr.Base.Result.{ok_inj}
use nite_pr.Types.{Bytes}
use nite_pr.Errors.{Error, invalid_cheat}
use nite_pr.Cheat.Hex.{bytes_hex}
use nite_pr.Cheat.Hex.Laws.{strip-bytes_hex, from_hex-bytes_hex}
use nite_pr.Web.Inputs.{bytes_or_raise, hex_bytes, is_name_char, is_cheat_name, cheat_path}

-- Bytes that a `hex()` of the application wrote, at least one of them, are read back by
-- `_hex_bytes`.
pub hex_bytes-bytes_hex :
    (bs : Bytes) → All (λ b. b < 256) bs → 1 ≤ length bs → hex_bytes (bytes_hex bs) ≡ ok bs
unfolding hex_bytes bytes_hex
hex_bytes-bytes_hex bs h lo = rw (strip-bytes_hex bs h, from_hex-bytes_hex bs h) (passed bs lo)
  where
    passed :
        (bs : Bytes)
        → 1 ≤ length bs
        → bytes_or_raise (bytes_hex bs) (bytes_hex bs) (some bs) ≡ ok bs
    passed [] lo = absurd (omega arith)
    passed (b ∷ bs) lo = refl

-- A character of a file name, and no part of a path.
abbrev pub IsPlain : ℕ → Type 0
IsPlain c = (is_name_char c ≡ true) × (c ≢ 47) × (c ≢ 92) × (c ≢ 0)

-- A name in one directory: at least one character before ".json", and none that a path is made of.
abbrev pub IsFileName : Text → Type 0
IsFileName name =
    (stem : Text) × (name ≡ stem ++ text ".json") × (1 ≤ length stem) × All IsPlain stem

name_char-IsPlain : (c : ℕ) → is_name_char c ≡ true → IsPlain c
unfolding is_name_char
name_char-IsPlain c h = (
  h,
  (λ e. absurd (ground (arith, e, h))),
  (λ e. absurd (ground (arith, e, h))),
  (λ e. absurd (ground (arith, e, h))),
)

is_cheat_name-IsFileName : (name : Text) → is_cheat_name name ≡ true → IsFileName name
unfolding is_cheat_name
is_cheat_name-IsFileName [] h = ground arith
is_cheat_name-IsFileName (c ∷ s) h =
    let (plain, rest) = &&-true (is_name_char c) _ h in
    elim (Bool-cases (eq_text s (text ".json"))) [
      | inl last ↦ (
        c ∷ [],
        ap (λ t. c ∷ t) (eq_text→eq s (text ".json") last),
        omega arith,
        (name_char-IsPlain c plain, tt),
      )
      | inr more ↦
          let (stem, e, lo, plains) = is_cheat_name-IsFileName s (rw more at rest) in
          (c ∷ stem, ap (λ t. c ∷ t) e, omega arith, (name_char-IsPlain c plain, plains))
    ]

-- A file name that `_cheat_path` lets through is the text given without the blanks around it, has at
-- least one character before ".json", and has no slash, backslash or NUL before it; whatever the
-- file system says of it.
pub cheat_path-IsFileName :
    (inside : Text → Bool) (filename : Text) {name : Text}
    → cheat_path inside filename ≡ ok name
    → (name ≡ strip filename) × IsFileName name
unfolding cheat_path
cheat_path-IsFileName inside filename {name} h =
    elim (Bool-cases (is_cheat_name (strip filename) && inside (strip filename))) [
      | inl passes ↦
          let e : strip filename ≡ name = ok_inj (rw passes at h) in
          (
            sym e,
            subst IsFileName e (
                is_cheat_name-IsFileName (strip filename)
                  (&&-true (is_cheat_name (strip filename)) _ passes).0),
          )
      | inr fails ↦ absurd (refused (rw fails at h))
    ]
  where
    refused : ◌≡◌ {A = Outcome Error Text} (err invalid_cheat) (ok name) → ⊥
    refused e = cc
