-- ===== src/Cheat/File/RoundTrip.antt =====
-- A cheat file that is written and read again, and what a file that was read is like.
use nite_pr.Base.{◌≤◌, ◌<◌, ◌≡◌, ◌≢◌, refl, none, List, [], ◌∷◌, All, length, arith}
use nite_pr.Base.Text.{Text, strip, eq_text, or_text}
use nite_pr.Base.Exec.{ok}
use nite_pr.Constants.{write_max}
use nite_pr.Types.{Bytes, CheatPatch, CheatMod, CheatFile}
use nite_pr.Cheat.Hex.{bytes_hex, int_of_hex}
use nite_pr.Cheat.Hex.Laws.{parse_hex_bytes-bytes_hex}
use nite_pr.Cheat.Json.{str, get, get_or}
use nite_pr.Cheat.File.{
  as_str, as_items, as_fields, parse_bytes, require_hex, parse_offset, parse_patch, parse_patches,
  require_name, parse_mod, parse_mods, parse_texts, parse_cheat_dict, patch_json, patches_json,
  mod_json, mods_json, texts_json, cheat_to_dict,
}

-- Bytes that one write takes.
abbrev pub IsPayload : Bytes → Type 0
IsPayload bs = All (λ b. b < 256) bs × (1 ≤ length bs) × (length bs ≤ write_max)

-- The offset is a hexadecimal integer without spaces around it, and the bytes fit a write.
abbrev pub IsPatch : CheatPatch → Type 0
IsPatch p =
    (strip p.offset ≡ p.offset) × (int_of_hex p.offset ≢ none) × IsPayload p.on × IsPayload p.off

abbrev pub IsMod : CheatMod → Type 0
IsMod m = (m.name ≢ []) × All IsPatch m.memory

-- The process has a name without spaces around it, and each mod is as it should be.
abbrev pub IsCheat : CheatFile → Type 0
IsCheat cheat = (strip cheat.process ≡ cheat.process) × (cheat.process ≢ []) × All IsMod cheat.mods

require_hex_lem : (s : Text) → int_of_hex s ≢ none → require_hex s ≡ ok s
require_hex_lem s h = ground arith

parse_bytes-payload : (bs : Bytes) → IsPayload bs → parse_bytes (str (bytes_hex bs)) ≡ ok bs
unfolding parse_bytes
parse_bytes-payload bs (small, lo, hi) = parse_hex_bytes-bytes_hex bs small lo hi

parse_patch-patch_json : (p : CheatPatch) → IsPatch p → parse_patch (patch_json p) ≡ ok p
unfolding parse_patch patch_json as_fields get_or get parse_offset eq_text
parse_patch-patch_json p (tight, hex, on, off) =
    rw
      (
        tight,
        require_hex_lem p.offset hex,
        parse_bytes-payload p.on on,
        parse_bytes-payload p.off off,
      )
      refl

parse_patches-patches_json :
    (ps : List CheatPatch) → All IsPatch ps → parse_patches (patches_json ps) ≡ ok ps
unfolding parse_patches patches_json
parse_patches-patches_json [] h = refl
parse_patches-patches_json (p ∷ ps) h =
    rw (parse_patch-patch_json p h.0, parse_patches-patches_json ps h.1) refl

require_name_lem : (s : Text) → s ≢ [] → require_name s ≡ ok s
require_name_lem [] h = absurd (h refl)
require_name_lem (c ∷ s) h = refl

parse_mod-mod_json : (m : CheatMod) → IsMod m → parse_mod (mod_json m) ≡ ok m
unfolding parse_mod mod_json as_fields as_str as_items get_or get eq_text
parse_mod-mod_json m (named, patches) =
    rw (require_name_lem m.name named, parse_patches-patches_json m.memory patches) refl

parse_mods-mods_json : (ms : List CheatMod) → All IsMod ms → parse_mods (mods_json ms) ≡ ok ms
unfolding parse_mods mods_json
parse_mods-mods_json [] h = refl
parse_mods-mods_json (m ∷ ms) h = rw (parse_mod-mod_json m h.0, parse_mods-mods_json ms h.1) refl

parse_texts-texts_json : (ts : List Text) → parse_texts (texts_json ts) ≡ ok ts
unfolding parse_texts texts_json as_str
parse_texts-texts_json [] = refl
parse_texts-texts_json (t ∷ ts) = rw (parse_texts-texts_json ts) refl

or_text_nonempty : (s d : Text) → s ≢ [] → or_text s d ≡ s
or_text_nonempty [] d h = absurd (h refl)
or_text_nonempty (c ∷ s) d h = refl

-- A cheat file that is written as JSON is read back the same. The conditions are that the process
-- and each mod have a name, that the process and the offsets have no spaces around them, that the
-- offsets are hexadecimal integers and that every patch has 1 to 4096 bytes on and off.
pub parse_cheat_dict-cheat_to_dict :
    (cheat : CheatFile) → IsCheat cheat → parse_cheat_dict (cheat_to_dict cheat) ≡ ok cheat
unfolding parse_cheat_dict cheat_to_dict as_fields as_str as_items get_or get eq_text
parse_cheat_dict-cheat_to_dict cheat (tight, named, mods) =
    rw
      (
        parse_mods-mods_json cheat.mods mods,
        parse_texts-texts_json cheat.credits,
        tight,
        or_text_nonempty cheat.process _ named,
      )
      refl
