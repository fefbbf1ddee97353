-- ===== src/Web/Inputs.antt =====
-- The checks that web/app.py makes itself: `_hex_bytes`, and the file names that `_cheat_path` lets
-- through.
pub mod Laws
use nite_pr.Base.{
  ℕ, zero, suc, ◌%◌, ◌≤◌, ◌<◌, ◌≡◌, ◌≢◌, refl, ap, sym, ◌∙◌, subst, Bool, true, false, not, ◌&&◌,
  ◌||◌, Option, none, some, List, [], ◌∷◌, ◌++◌, All, arith, leb, ◌==◌, length, if◌then◌else◌,
  Bool-cases, inl, inr, &&-true,
}
use nite_pr.Base.Int.{ℤ, pos}
use nite_pr.Base.Text.{Text, text, strip, is_nonempty, eq_text, eq_text→eq}
use nite_pr.Base.Exec.{Outcome, ok, err}
use nite_pr.Types.{Dyn, Bytes}
use nite_pr.Errors.{Error, invalid_write_size, invalid_cheat}
use nite_pr.Cheat.Hex.{bytes_hex, from_hex}

-- The text has an even number of characters, all hexadecimal digits, exactly where `from_hex` has
-- bytes for it.
abbrev pub bytes_or_raise : (raw s : Text) → Option Bytes → Outcome Error Bytes
bytes_or_raise raw [] r = err (invalid_write_size (Dyn.str raw))
bytes_or_raise raw (c ∷ s) none = err (invalid_write_size (Dyn.str (c ∷ s)))
bytes_or_raise raw (c ∷ s) (some bs) = ok bs

-- `_hex_bytes` of a text
unfoldable pub hex_bytes : Text → Outcome Error Bytes
unfolding from_hex
hex_bytes raw = let s = strip raw in bytes_or_raise raw s (from_hex s)

-- `[A-Za-z0-9._-]`
unfoldable pub is_name_char : ℕ → Bool
is_name_char c =
    (leb 65 c && leb c 90)
    || ((leb 97 c && leb c 122) || ((leb 48 c && leb c 57) || (c == 46 || (c == 95 || c == 45))))

-- `_CHEAT_FILENAME_RE.fullmatch`
unfoldable pub is_cheat_name : Text → Bool
unfolding is_name_char eq_text
is_cheat_name [] = false
is_cheat_name (c ∷ s) = is_name_char c && (eq_text s (text ".json") || is_cheat_name s)

-- `_cheat_path`: what it comes to is the name below the directory. That the resolved path lies in
-- the directory is asked of the file system.
unfoldable pub cheat_path : (inside : Text → Bool) → Text → Outcome Error Text
unfolding is_cheat_name
cheat_path inside filename =
    let name = strip filename in
    if is_cheat_name name && inside name then ok name else err invalid_cheat
