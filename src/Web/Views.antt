-- ===== src/Web/Views.antt =====
-- The functions of web/app.py that show a record of the session: `_process_json`,
-- `_foreground_json`, `_map_json`, `_hit_json`, `_watch_json`, `_watch_value_json` and
-- `_freeze_json`.
use nite_pr.Base.{ℕ, ◌-◌, Option, none, some, List, [], ◌∷◌, leb, if◌then◌else◌}
use nite_pr.Base.Int.{ℤ, pos, negsuc}
use nite_pr.Base.Text.{text}
use nite_pr.Types.{
  Bytes, ProcessInfo, ForegroundInfo, MemoryMap, perms, ScanHit, WatchEntry, WatchValue,
  FreezeEntry,
}
use nite_pr.Cheat.Hex.{bytes_hex}
use nite_pr.Web.{Answer, null, whole, str, object, Answers, nil, cons, empty, member}

abbrev pub number : ℕ → Answer
number n = whole (pos n)

-- `end - start`
unfoldable pub size_of : MemoryMap → ℤ
size_of row =
    if leb row.start row.end then pos (row.end - row.start) else negsuc (row.start - row.end - 1)

unfoldable pub process_json : ProcessInfo → Answer
process_json p = object (
    member (text "pid") (number p.pid)
      (member (text "name") (str p.name) (member (text "titleid") (str p.titleid) empty)))

unfoldable pub foreground_json : ForegroundInfo → Answer
foreground_json fg = object (
    member (text "pid") (number fg.pid) (
      member (text "name") (str fg.name) (
        member (text "titleid") (str fg.titleid) (
          member (text "contentid") (str fg.contentid)
            (member (text "app_ver") (str fg.app_ver) empty)))))

unfoldable pub map_json : MemoryMap → Answer
unfolding size_of
map_json row = object (
    member (text "name") (str row.name) (
      member (text "start") (number row.start) (
        member (text "end") (number row.end) (
          member (text "offset") (number row.offset) (
            member (text "prot") (number row.prot) (
              member (text "perms") (str (perms row))
                (member (text "size") (whole (size_of row)) empty)))))))

abbrev pub hex_or_null : Option Bytes → Answer
hex_or_null none = null
hex_or_null (some bs) = str (bytes_hex bs)

unfoldable pub hit_json : ScanHit → Answer
unfolding bytes_hex
hit_json hit = object (
    member (text "addr") (number hit.addr) (
      member (text "current") (str (bytes_hex hit.current))
        (member (text "previous") (hex_or_null hit.previous) empty)))

unfoldable pub watch_json : WatchEntry → Answer
watch_json entry = object (
    member (text "id") (number entry.id) (
      member (text "pid") (number entry.pid) (
        member (text "addr") (number entry.addr)
          (member (text "n") (number entry.n) (member (text "label") (str entry.label) empty)))))

unfoldable pub watch_value_json : WatchValue → Answer
unfolding bytes_hex
watch_value_json sample = object (
    member (text "id") (number sample.id) (
      member (text "addr") (number sample.addr)
        (member (text "data") (str (bytes_hex sample.content)) empty)))

unfoldable pub freeze_json : FreezeEntry → Answer
unfolding bytes_hex
freeze_json entry = object (
    member (text "id") (number entry.id) (
      member (text "pid") (number entry.pid) (
        member (text "addr") (number entry.addr)
          (member (text "data") (str (bytes_hex entry.content)) empty))))

-- `[f(x) for x in xs]`
unfoldable pub rows_json : {A : Type 0} → (A → Answer) → List A → Answers
rows_json f [] = nil
rows_json f (x ∷ xs) = cons (f x) (rows_json f xs)
