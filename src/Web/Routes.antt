-- ===== src/Web/Routes.antt =====
-- The handlers of web/app.py, but for those of the plugin, the saving of a cheat file, and the ones
-- that serve a file or list a directory. The directory of cheat files is a parameter: whether a name
-- lies in it, and what `load_cheat_file` reads there.
use nite_pr.Base.{
  ℕ, Bool, true, false, not, Option, none, some, List, [], ◌∷◌, leb, ◌&&◌, ◌||◌, ◌==◌, length,
  is_some, if◌then◌else◌,
}
use nite_pr.Base.Int.{ℤ}
use nite_pr.Base.Text.{Text, text, strip, is_nonempty, or_text}
use nite_pr.Base.Exec.{Outcome, ok, err, blocked, Exec, pure, raise_if, gets, lift, ◌>>=◌, ◌>>◌}
use nite_pr.Types.{Dyn, CheatFile}
use nite_pr.Errors.{Error}
use nite_pr.Cheat.Json.{Json}
use nite_pr.Cheat.File.{cheat_to_dict}
use nite_pr.Cheat.Hex.{bytes_hex}
use nite_pr.Transport.{Transport}
use nite_pr.Session.{Session, Method}
use nite_pr.Session.Cheats
use nite_pr.Session.Connect
use nite_pr.Session.Memory
use nite_pr.Session.Pins
use nite_pr.Session.Hunt.Plan.{ScanRequest}
use nite_pr.Session.Hunt.First
use nite_pr.Session.Hunt.Next
use nite_pr.Session.Hunt.Undo
use nite_pr.Session.Hunt.Results
use nite_pr.Web.{
  Answer, null, flag, whole, str, json, array, object, Answers, nil, cons, empty, member, Fault,
  raised, http,
}
use nite_pr.Web.Views.{
  number, process_json, foreground_json, map_json, hit_json, watch_json, watch_value_json,
  freeze_json, rows_json,
}
use nite_pr.Web.Inputs.{hex_bytes, cheat_path}

-- A request, with the body or the query that its handler takes.
pub data Request : Type 0 where
  discover disconnect processes foreground scan_undo scan_count : Request
  watch_poll watch_list freeze_tick freeze_list cheat : Request
  connect : (host : Text) → Request
  attach_target : (pid : ℤ) → Request
  maps : (refresh : Bool) → Request
  read : (addr n : ℤ) → (pid : Option ℤ) → Request
  write : (addr : ℤ) → (content : Text) → (pid : Option ℤ) → Request
  scan_start : (pid : Option ℤ) → ScanRequest → Request
  scan_next : (compare : Text) → (value : Option ℤ) → Request
  scan_results : (limit : ℤ) → Request
  watch_add : (addr n : ℤ) → (label : Text) → Request
  watch_remove freeze_remove : (id : ℤ) → Request
  freeze_add : (addr : ℤ) → (content : Text) → Request
  cheat_load : (filename : Text) → Request
  cheat_toggle : (name : Text) → (enabled : Bool) → Request

-- `int | None`
abbrev pub optional : Option ℤ → Dyn
optional none = Dyn.nothing
optional (some z) = Dyn.int z

abbrev pub count_or_null : Option ℕ → Answer
count_or_null none = null
count_or_null (some n) = number n

unfoldable pub texts_json : List Text → Answers
texts_json [] = nil
texts_json (t ∷ ts) = cons (str t) (texts_json ts)

-- The order of texts, and `sorted`.
unfoldable pub text_precedes : Text → Text → Bool
text_precedes [] s = true
text_precedes (a ∷ r) [] = false
text_precedes (a ∷ r) (b ∷ s) = (leb a b && not (a == b)) || ((a == b) && text_precedes r s)

unfoldable pub insert_text : Text → List Text → List Text
unfolding text_precedes
insert_text t [] = t ∷ []
insert_text t (u ∷ us) = if text_precedes t u then t ∷ u ∷ us else u ∷ insert_text t us

unfoldable pub sorted_texts : List Text → List Text
unfolding insert_text
sorted_texts [] = []
sorted_texts (t ∷ ts) = insert_text t (sorted_texts ts)

abbrev pub cheat_or_null : Option CheatFile → Answer
cheat_or_null none = null
cheat_or_null (some file) = json (cheat_to_dict file)

abbrev pub done : Answer
done = object (member (text "ok") (flag true) empty)

-- What a handler of the session's raises is a fault.
abbrev pub as_fault : {A : Type 0} → Outcome Error A → Outcome Fault A
as_fault (ok a) = ok a
as_fault (err e) = err (raised e)
as_fault blocked = blocked

unfoldable pub call : {S A : Type 0} → Exec Error S A → Exec Fault S A
call m s = (as_fault (m s).0, (m s).1)

-- A handler.
abbrev pub Handler : Type 0 → Type 0
Handler T = Exec Fault (Session T) Answer

module _ {T : Type 0} where
  -- `cheat_enabled_names`
  unfoldable pub cheat_enabled_names : Method T (List Text)
  unfolding sorted_texts
  cheat_enabled_names = gets (λ s. sorted_texts s.cheat_enabled)

  -- `_cheat_payload`, over `loaded_cheat`
  unfoldable pub cheat_payload : Handler T
  unfolding call cheat_enabled_names texts_json cheat_to_dict
  cheat_payload = do
    file ← gets (λ s. s.cheat)
    names ← call cheat_enabled_names
    pure (
        object (
          member (text "cheat") (cheat_or_null file)
            (member (text "enabled") (array (texts_json names)) empty)))

module _ {T : Type 0} (tr : Transport T) (inside : Text → Bool)
    (load_cheat_file : Text → Outcome Error Json) (me : ℕ) where
  unfoldable pub handle : Request → Handler T
  unfolding call cheat_payload hex_bytes cheat_path bytes_hex process_json foreground_json map_json
      hit_json watch_json watch_value_json freeze_json rows_json texts_json
  handle discover = do
    hosts ← call (Connect.discover tr me)
    pure (object (member (text "hosts") (array (texts_json hosts)) empty))
  handle (connect name) = do
    let host = strip name
    raise_if (not (is_nonempty host)) (http 400)
    call (Connect.connect tr me host)
    linked ← gets (λ s. s.host)
    pure (
        object (
          member (text "ok") (flag true) (
            member (text "host") (str (elim linked [ none ↦ host | some h ↦ or_text h host ]))
              empty)))
  handle disconnect = do call (Connect.disconnect tr me); pure done
  handle processes = do
    procs ← call (Connect.processes tr me)
    pure (object (member (text "processes") (array (rows_json process_json procs)) empty))
  handle foreground = do fg ← call (Connect.foreground tr me); pure (foreground_json fg)
  handle (attach_target pid) = do
    call (Connect.attach_target tr me (Dyn.int pid))
    pure (object (member (text "ok") (flag true) (member (text "pid") (whole pid) empty)))
  handle (maps refresh) = do
    rows ← call (Memory.maps tr me Dyn.nothing refresh)
    pure (object (member (text "maps") (array (rows_json map_json rows)) empty))
  handle (read addr n pid) = do
    content ← call (Memory.read tr me (optional pid) (Dyn.int addr) (Dyn.int n))
    pure (
        object (
          member (text "addr") (whole addr)
            (member (text "n") (whole n) (member (text "data") (str (bytes_hex content)) empty))))
  handle (write addr raw pid) = do
    content ← call (lift (hex_bytes raw))
    call (Memory.write tr me (optional pid) (Dyn.int addr) (Dyn.bytes content))
    pure (
        object (
          member (text "ok") (flag true) (
            member (text "addr") (whole addr) (member (text "n") (number (length content)) empty))))
  handle (scan_start pid request) = do
    count ← call (First.scan_start tr me (optional pid) request)
    pure (object (member (text "count") (number count) empty))
  handle (scan_next compare value) = do
    count ← call (Next.scan_next tr me compare (optional value))
    pure (object (member (text "count") (number count) empty))
  handle scan_undo = do
    count ← call (Undo.scan_undo tr me)
    pure (
        object (
          member (text "count") (count_or_null count)
            (member (text "ended") (flag (not (is_some count))) empty)))
  handle scan_count = do
    count ← call (Results.scan_count tr me)
    pure (object (member (text "count") (number count) empty))
  handle (scan_results limit) = do
    call (lift (Results.result_limit (Dyn.int limit)))
    count ← call (Results.scan_count tr me)
    hits ← call (Results.scan_results tr me (Dyn.int limit))
    pure (
        object (
          member (text "count") (number count)
            (member (text "results") (array (rows_json hit_json hits)) empty)))
  handle (watch_add addr n label) = do
    entry ← call (Pins.watch_add tr me Dyn.nothing (Dyn.int addr) (Dyn.int n) label)
    pure (watch_json entry)
  handle watch_poll = do
    values ← call (Pins.watch_poll tr me)
    pure (object (member (text "values") (array (rows_json watch_value_json values)) empty))
  handle watch_list = do
    entries ← call Pins.watches
    pure (object (member (text "watches") (array (rows_json watch_json entries)) empty))
  handle (watch_remove id) = do call (Pins.watch_remove id); pure done
  handle (freeze_add addr raw) = do
    content ← call (lift (hex_bytes raw))
    entry ← call (Pins.freeze_add tr me Dyn.nothing (Dyn.int addr) (Dyn.bytes content))
    pure (freeze_json entry)
  handle freeze_tick = do
    written ← call (Pins.freeze_tick tr me)
    pure (object (member (text "written") (number written) empty))
  handle freeze_list = do
    entries ← call Pins.freezes
    pure (object (member (text "freezes") (array (rows_json freeze_json entries)) empty))
  handle (freeze_remove id) = do call (Pins.freeze_remove id); pure done
  handle (cheat_load filename) = do
    name ← call (lift (cheat_path inside filename))
    file ← call (Cheats.cheat_load (load_cheat_file name))
    names ← call cheat_enabled_names
    pure (
        object (
          member (text "cheat") (json (cheat_to_dict file))
            (member (text "enabled") (array (texts_json names)) empty)))
  handle (cheat_toggle name enabled) = do
    call (Cheats.cheat_toggle tr me name enabled)
    pure (
        object (
          member (text "ok") (flag true)
            (member (text "name") (str name) (member (text "enabled") (flag enabled) empty))))
  handle cheat = cheat_payload
