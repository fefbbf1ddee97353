-- ===== src/Web/Acting.antt =====
-- What the requests that name an address do.
use nite_pr.Base.{ℕ, ◌+◌, ◌≡◌}
use nite_pr.Base.Int.{pos}
use nite_pr.Base.Dict.{insert}
use nite_pr.Base.Text.{Text, text}
use nite_pr.Base.Exec.{ok}
use nite_pr.Types.{Dyn, Bytes, WatchEntry, FreezeEntry}
use nite_pr.Cheat.Json.{Json}
use nite_pr.Cheat.Hex.{bytes_hex}
use nite_pr.Transport.{Transport}
use nite_pr.Session.{Session, resolve_pid}
use nite_pr.Session.Memory.Writing.{Pokes, Peeks}
use nite_pr.Session.Pins.{watch_add, freeze_add}
use nite_pr.Web.{Answer, whole, str, object, member, empty}
use nite_pr.Web.Views.{number}
use nite_pr.Web.Inputs.{hex_bytes}
use nite_pr.Web.Routes.{Request, optional}

module _ {T : Type 0} where
  -- The entry is the next, and the session has it.
  abbrev pub AddsFreeze : FreezeEntry → Session T → Session T → Type 0
  AddsFreeze e s s' =
      (e.id ≡ s.next_freeze_id)
      × (s' ≡ record s { freezes = insert e.id e s.freezes; next_freeze_id = e.id + 1 })

  abbrev pub AddsWatch : WatchEntry → Session T → Session T → Type 0
  AddsWatch e s s' =
      (e.id ≡ s.next_watch_id)
      × (s' ≡ record s { watches = insert e.id e s.watches; next_watch_id = e.id + 1 })

module _ {T : Type 0} (tr : Transport T) (me : ℕ) where
  -- What an answered request has done: a read has read the bytes that the answer shows, at the
  -- address of the request and as many as it asks for; a write has written the bytes that its text
  -- stands for at its address; a watch or a freeze is added that has the address, the size and the
  -- label, or the bytes, of the request, and is the answer.
  unfoldable pub Acts : Request → Answer → (s s' : Session T) → Type 0
  Acts (Request.read addr n pid) answer s s' =
      (bs : Bytes) × (answer
        ≡ object (
            member (text "addr") (whole addr)
              (member (text "n") (whole n) (member (text "data") (str (bytes_hex bs)) empty))))
      × Peeks tr (optional pid) addr n bs s s'
  Acts (Request.write addr raw pid) answer s s' =
      (bs : Bytes) × (hex_bytes raw ≡ ok bs) × Pokes tr (optional pid) addr bs s s'
  Acts (Request.watch_add addr n label) answer s s' =
      (e : WatchEntry) × (answer
        ≡ object (
            member (text "id") (number e.id) (
              member (text "pid") (number e.pid) (
                member (text "addr") (whole addr)
                  (member (text "n") (whole n) (member (text "label") (str label) empty))))))
      × (addr ≡ pos e.addr)
      × (n ≡ pos e.n)
      × (label ≡ e.label)
      × ((resolve_pid Dyn.nothing s).0 ≡ ok e.pid)
      × AddsWatch e s s'
  Acts (Request.freeze_add addr raw) answer s s' =
      (e : FreezeEntry) × (answer
        ≡ object (
            member (text "id") (number e.id) (
              member (text "pid") (number e.pid) (
                member (text "addr") (whole addr)
                  (member (text "data") (str (bytes_hex e.content)) empty)))))
      × (addr ≡ pos e.addr)
      × (hex_bytes raw ≡ ok e.content)
      × ((resolve_pid Dyn.nothing s).0 ≡ ok e.pid)
      × AddsFreeze e s s'
  Acts request answer s s' = Unit {0}
