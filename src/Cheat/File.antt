-- ===== src/Cheat/File.antt =====
-- `parse_cheat_dict` and `cheat_to_dict` of web/nitepr5_core/cheat.py, with their helpers.
pub mod RoundTrip
pub mod Parsed
use nite_pr.Base.{Bool, true, false, Option, none, some, List, [], ◌∷◌, is_some, if◌then◌else◌}
use nite_pr.Base.Int.{ℤ}
use nite_pr.Base.Text.{Text, text, strip, is_nonempty, or_text}
use nite_pr.Base.Exec.{Outcome, ok, err, blocked}
use nite_pr.Base.Result.{◌>>=◌, ◌>>◌, raise_if}
use nite_pr.Constants.{eboot_name}
use nite_pr.Types.{Bytes, CheatPatch, CheatMod, CheatFile}
use nite_pr.Errors.{Error, invalid_cheat}
use nite_pr.Cheat.Hex.{bytes_hex, parse_hex_bytes, int_of_hex}
use nite_pr.Cheat.Json.{
  Json, null, boolean, number, str, array, object, Items, nil, cons, Fields, empty, field, get,
  get_or,
}

-- `_as_str`
unfoldable pub as_str : Json → Outcome Error Text
as_str (str s) = ok s
as_str _ = err invalid_cheat

-- `isinstance(value, list)`
unfoldable pub as_items : Json → Outcome Error Items
as_items (array items) = ok items
as_items _ = err invalid_cheat

-- `isinstance(raw, dict)`
unfoldable pub as_fields : Json → Outcome Error Fields
as_fields (object fields) = ok fields
as_fields _ = err invalid_cheat

-- `_parse_hex_bytes`
unfoldable pub parse_bytes : Json → Outcome Error Bytes
unfolding parse_hex_bytes
parse_bytes (str s) = parse_hex_bytes s
parse_bytes _ = err invalid_cheat

-- `try: int(s, 16) except ValueError: raise InvalidCheat`
abbrev pub require_hex : Text → Outcome Error Text
require_hex s = elim (int_of_hex s) [ none ↦ err invalid_cheat | some n ↦ ok s ]

-- `_parse_offset`; the empty text is no number either.
unfoldable pub parse_offset : Json → Outcome Error Text
unfolding int_of_hex
parse_offset (str s) = require_hex (strip s)
parse_offset _ = err invalid_cheat

unfoldable pub parse_patch : Json → Outcome Error CheatPatch
unfolding as_fields parse_offset parse_bytes get_or
parse_patch raw = do
  fields ← as_fields raw
  offset ← parse_offset (get_or (text "offset") null fields)
  on ← parse_bytes (get_or (text "on") null fields)
  off ← parse_bytes (get_or (text "off") null fields)
  ok (record { offset = offset; on = on; off = off })

unfoldable pub parse_patches : Items → Outcome Error (List CheatPatch)
unfolding parse_patch
parse_patches nil = ok []
parse_patches (cons raw rest) = do
  patch ← parse_patch raw
  patches ← parse_patches rest
  ok (patch ∷ patches)

-- `if not name: raise InvalidCheat`
abbrev pub require_name : Text → Outcome Error Text
require_name [] = err invalid_cheat
require_name (c ∷ s) = ok (c ∷ s)

unfoldable pub parse_mod : Json → Outcome Error CheatMod
unfolding as_fields as_str as_items parse_patches get_or
parse_mod raw = do
  fields ← as_fields raw
  raw_name ← as_str (get_or (text "name") (str []) fields)
  name ← require_name raw_name
  memory_raw ← as_items (get_or (text "memory") null fields)
  description ← as_str (get_or (text "description") (str []) fields)
  type_name ← as_str (get_or (text "type") (str (text "checkbox")) fields)
  memory ← parse_patches memory_raw
  ok (record { name = name; description = description; type = type_name; memory = memory })

unfoldable pub parse_mods : Items → Outcome Error (List CheatMod)
unfolding parse_mod
parse_mods nil = ok []
parse_mods (cons raw rest) = do m ← parse_mod raw; mods ← parse_mods rest; ok (m ∷ mods)

-- The elements of `credits`, which must all be texts.
unfoldable pub parse_texts : Items → Outcome Error (List Text)
unfolding as_str
parse_texts nil = ok []
parse_texts (cons raw rest) = do s ← as_str raw; texts ← parse_texts rest; ok (s ∷ texts)

-- `raw[key]`, where a missing key was refused before.
abbrev pub required : Option Json → Outcome Error Json
required none = err invalid_cheat
required (some v) = ok v

unfoldable pub parse_cheat_dict : Json → Outcome Error CheatFile
unfolding as_fields as_str as_items parse_mods parse_texts get get_or
parse_cheat_dict raw = do
  fields ← as_fields raw
  name_raw ← required (get (text "name") fields)
  id_raw ← required (get (text "id") fields)
  version_raw ← required (get (text "version") fields)
  process_raw ← required (get (text "process") fields)
  mods_any ← required (get (text "mods") fields)
  mods_raw ← as_items mods_any
  credits_raw ← as_items (get_or (text "credits") (array nil) fields)
  credits ← parse_texts credits_raw
  process ← as_str process_raw
  name ← as_str name_raw
  id ← as_str id_raw
  version ← as_str version_raw
  mods ← parse_mods mods_raw
  ok (record {
    name = name;
    id = id;
    version = version;
    process = or_text (strip process) eboot_name;
    mods = mods;
    credits = credits;
  })

-- The dictionary of one patch.
unfoldable pub patch_json : CheatPatch → Json
unfolding bytes_hex
patch_json p = object (
    field (text "offset") (str p.offset)
      (field (text "on") (str (bytes_hex p.on)) (field (text "off") (str (bytes_hex p.off)) empty)))

unfoldable pub patches_json : List CheatPatch → Items
unfolding patch_json
patches_json [] = nil
patches_json (p ∷ patches) = cons (patch_json p) (patches_json patches)

-- The dictionary of one mod.
unfoldable pub mod_json : CheatMod → Json
unfolding patches_json
mod_json m = object (
    field (text "name") (str m.name) (
      field (text "description") (str m.description) (
        field (text "type") (str m.type)
          (field (text "memory") (array (patches_json m.memory)) empty))))

unfoldable pub mods_json : List CheatMod → Items
unfolding mod_json
mods_json [] = nil
mods_json (m ∷ mods) = cons (mod_json m) (mods_json mods)

-- `list(cheat.credits)`
unfoldable pub texts_json : List Text → Items
texts_json [] = nil
texts_json (s ∷ texts) = cons (str s) (texts_json texts)

unfoldable pub cheat_to_dict : CheatFile → Json
unfolding mods_json texts_json
cheat_to_dict cheat = object (
    field (text "name") (str cheat.name) (
      field (text "id") (str cheat.id) (
        field (text "version") (str cheat.version) (
          field (text "process") (str cheat.process) (
            field (text "mods") (array (mods_json cheat.mods))
              (field (text "credits") (array (texts_json cheat.credits)) empty))))))
