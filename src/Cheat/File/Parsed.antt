-- ===== src/Cheat/File/Parsed.antt =====
-- What a cheat file is like that `parse_cheat_dict` accepts.
use nite_pr.Base.{◌≡◌, ◌≢◌, refl, none, List, [], ◌∷◌, All, arith}
use nite_pr.Base.Text.{Text, text, strip, or_text}
use nite_pr.Base.Text.Strip.{strip-strip}
use nite_pr.Base.Exec.{ok}
use nite_pr.Base.Result.{bind_ok, ok_inj}
use nite_pr.Constants.{eboot_name}
use nite_pr.Types.{Bytes, CheatPatch, CheatMod, CheatFile}
use nite_pr.Cheat.Hex.{int_of_hex}
use nite_pr.Cheat.Hex.Laws.{parse_hex_bytes_ok}
use nite_pr.Cheat.Json.{Json, null, str, array, Items, nil, cons, get, get_or}
use nite_pr.Cheat.File.{
  as_str, as_items, as_fields, parse_bytes, parse_offset, parse_patch, parse_patches, require_name,
  required, parse_mod, parse_mods, parse_texts, parse_cheat_dict, cheat_to_dict,
}
use nite_pr.Cheat.File.RoundTrip.{
  IsPayload, IsPatch, IsMod, IsCheat, parse_cheat_dict-cheat_to_dict,
}

parse_bytes_ok : (j : Json) (bs : Bytes) → parse_bytes j ≡ ok bs → IsPayload bs
unfolding parse_bytes
parse_bytes_ok (str s) bs h = parse_hex_bytes_ok s bs h
parse_bytes_ok _ bs h = ground arith

parse_offset_ok :
    (j : Json) (s : Text) → parse_offset j ≡ ok s → (strip s ≡ s) × (int_of_hex s ≢ none)
unfolding parse_offset
parse_offset_ok (str t) s h = ground (arith, strip-strip t)
parse_offset_ok _ s h = ground arith

parse_patch-IsPatch : (j : Json) (p : CheatPatch) → parse_patch j ≡ ok p → IsPatch p
unfolding parse_patch
parse_patch-IsPatch j p h =
    let (fields, _, h1) = bind_ok (as_fields j) _ h in
    let (offset, eo, h2) = bind_ok (parse_offset (get_or (text "offset") null fields)) _ h1 in
    let (on, en, h3) = bind_ok (parse_bytes (get_or (text "on") null fields)) _ h2 in
    let (off, ef, h4) = bind_ok (parse_bytes (get_or (text "off") null fields)) _ h3 in
    let (tight, hex) = parse_offset_ok _ offset eo in
    let e : record { offset = offset; on = on; off = off } ≡ p = ok_inj h4 in
    rw (← e) (tight, hex, parse_bytes_ok _ on en, parse_bytes_ok _ off ef)

parse_patches-IsPatch :
    (js : Items) (ps : List CheatPatch) → parse_patches js ≡ ok ps → All IsPatch ps
unfolding parse_patches
parse_patches-IsPatch nil ps h = rw (← ok_inj h) tt
parse_patches-IsPatch (cons j js) ps h =
    let (p, ep, h1) = bind_ok (parse_patch j) _ h in
    let (qs, es, h2) = bind_ok (parse_patches js) _ h1 in
    rw (← ok_inj h2) (parse_patch-IsPatch j p ep, parse_patches-IsPatch js qs es)

require_name_ok : (s t : Text) → require_name s ≡ ok t → t ≢ []
require_name_ok [] t h = ground arith
require_name_ok (c ∷ s) t h = ground arith

parse_mod-IsMod : (j : Json) (m : CheatMod) → parse_mod j ≡ ok m → IsMod m
unfolding parse_mod
parse_mod-IsMod j m h =
    let (fields, _, h1) = bind_ok (as_fields j) _ h in
    let (raw_name, _, h2) = bind_ok (as_str (get_or (text "name") (str []) fields)) _ h1 in
    let (name, en, h3) = bind_ok (require_name raw_name) _ h2 in
    let (memory_raw, _, h4) = bind_ok (as_items (get_or (text "memory") null fields)) _ h3 in
    let (d, _, h5) = bind_ok (as_str (get_or (text "description") (str []) fields)) _ h4 in
    let (t, _, h6) = bind_ok (as_str (get_or (text "type") (str (text "checkbox")) fields)) _ h5 in
    let (memory, em, h7) = bind_ok (parse_patches memory_raw) _ h6 in
    rw (← ok_inj h7) (require_name_ok raw_name name en, parse_patches-IsPatch memory_raw memory em)

parse_mods-IsMod : (js : Items) (ms : List CheatMod) → parse_mods js ≡ ok ms → All IsMod ms
unfolding parse_mods
parse_mods-IsMod nil ms h = rw (← ok_inj h) tt
parse_mods-IsMod (cons j js) ms h =
    let (m, em, h1) = bind_ok (parse_mod j) _ h in
    let (ns, es, h2) = bind_ok (parse_mods js) _ h1 in
    rw (← ok_inj h2) (parse_mod-IsMod j m em, parse_mods-IsMod js ns es)

-- The process that the reading puts in.
process_ok :
    (s : Text)
    → (strip (or_text (strip s) eboot_name) ≡ or_text (strip s) eboot_name)
      × (or_text (strip s) eboot_name ≢ [])
unfolding strip
process_ok s = from (strip s) (strip-strip s)
  where
    from :
        (t : Text)
        → strip t ≡ t
        → (strip (or_text t eboot_name) ≡ or_text t eboot_name) × (or_text t eboot_name ≢ [])
    from [] e = (refl, λ n. ground arith)
    from (c ∷ t) e = (e, λ n. ground arith)

-- A cheat file that the reading accepts has a process with a name, named mods, hexadecimal offsets
-- without spaces around them, and patches of 1 to 4096 bytes.
pub parse_cheat_dict-IsCheat :
    (j : Json) {cheat : CheatFile} → parse_cheat_dict j ≡ ok cheat → IsCheat cheat
unfolding parse_cheat_dict
parse_cheat_dict-IsCheat j {cheat} h =
    let (fields, _, h1) = bind_ok (as_fields j) _ h in
    let (name_raw, _, h2) = bind_ok (required (get (text "name") fields)) _ h1 in
    let (id_raw, _, h3) = bind_ok (required (get (text "id") fields)) _ h2 in
    let (version_raw, _, h4) = bind_ok (required (get (text "version") fields)) _ h3 in
    let (process_raw, _, h5) = bind_ok (required (get (text "process") fields)) _ h4 in
    let (mods_any, _, h6) = bind_ok (required (get (text "mods") fields)) _ h5 in
    let (mods_raw, _, h7) = bind_ok (as_items mods_any) _ h6 in
    let (credits_raw, _, h8) =
      bind_ok (as_items (get_or (text "credits") (array nil) fields)) _ h7 in
    let (credits, _, h9) = bind_ok (parse_texts credits_raw) _ h8 in
    let (process, _, h10) = bind_ok (as_str process_raw) _ h9 in
    let (name, _, h11) = bind_ok (as_str name_raw) _ h10 in
    let (id, _, h12) = bind_ok (as_str id_raw) _ h11 in
    let (version, _, h13) = bind_ok (as_str version_raw) _ h12 in
    let (mods, em, h14) = bind_ok (parse_mods mods_raw) _ h13 in
    let (tight, named) = process_ok process in
    rw (← ok_inj h14) (tight, named, parse_mods-IsMod mods_raw mods em)

-- A file that was read, written and read again is the same.
pub parse_cheat_dict_again :
    (j : Json) {cheat : CheatFile}
    → parse_cheat_dict j ≡ ok cheat
    → parse_cheat_dict (cheat_to_dict cheat) ≡ ok cheat
parse_cheat_dict_again j {cheat} h =
    parse_cheat_dict-cheat_to_dict cheat (parse_cheat_dict-IsCheat j h)
