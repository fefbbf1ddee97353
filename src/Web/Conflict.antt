-- ===== src/Web/Conflict.antt =====
-- The status 409, and the connection.
use nite_pr.Base.{
  ℕ, ◌≡◌, refl, ap, ◌∙◌, subst, Bool, true, false, arith, Option, none, some, [], ◌∷◌,
  if◌then◌else◌,
}
use nite_pr.Base.Int.{ℤ}
use nite_pr.Base.Text.{Text, strip}
use nite_pr.Base.Exec.{Outcome, ok, err, blocked, pure, ◌>>=◌}
use nite_pr.Base.Exec.Raises.{
  OfError, Raises, Raises-pure, Raises-gets, Raises-raise_if, Raises-bind,
}
use nite_pr.Types.{Dyn, Bytes}
use nite_pr.Errors.{Error, is_not_connected}
use nite_pr.Cheat.Json.{Json}
use nite_pr.Cheat.Hex.{from_hex}
use nite_pr.Transport.{Transport}
use nite_pr.Transport.Contract.{IsHonest}
use nite_pr.Transport.Contract.Calm.{Calm, Calm-ok, Calm-err}
use nite_pr.Session.{Session, Method}
use nite_pr.Session.Truthful.{Down, Truthful, lift-Truthful}
use nite_pr.Session.Truthful.Methods.{
  read-Truthful, write-Truthful, maps-Truthful, foreground-Truthful, processes-Truthful,
  attach_target-Truthful, connect-Truthful, disconnect-Truthful,
}
use nite_pr.Web.{
  Answer, Fault, raised, http, Response, error_status, is_unavailable, is_http_400, respond,
}
use nite_pr.Web.Inputs.{bytes_or_raise, hex_bytes}
use nite_pr.Web.Routes.{Request, as_fault, call, handle}

-- The requests that come to one call of the console, or to none, outside a hunt.
pub data IsDirect : Request → Type 0 where
  connect : {name : Text} → IsDirect (Request.connect name)
  disconnect : IsDirect Request.disconnect
  processes : IsDirect Request.processes
  foreground : IsDirect Request.foreground
  attach_target : {pid : ℤ} → IsDirect (Request.attach_target pid)
  maps : {refresh : Bool} → IsDirect (Request.maps refresh)
  read : {addr n : ℤ} {pid : Option ℤ} → IsDirect (Request.read addr n pid)
  write : {addr : ℤ} {content : Text} {pid : Option ℤ} → IsDirect (Request.write addr content pid)

bytes_or_raise-Calm : (raw s : Text) (r : Option Bytes) → Calm (bytes_or_raise raw s r)
bytes_or_raise-Calm raw [] r = Calm-err _ refl
bytes_or_raise-Calm raw (c ∷ s) none = Calm-err _ refl
bytes_or_raise-Calm raw (c ∷ s) (some bs) = Calm-ok bs

hex_bytes-Calm : (raw : Text) → Calm (hex_bytes raw)
unfolding hex_bytes
hex_bytes-Calm raw = bytes_or_raise-Calm raw (strip raw) (from_hex (strip raw))

status_conflict : (e : Error) → error_status e ≡ 409 → is_not_connected e ≡ true
unfolding error_status
status_conflict e h = by_class (is_not_connected e) (is_unavailable e) (is_http_400 e) h
  where
    by_class :
        (a b c : Bool)
        → ◌≡◌ {A = ℕ} (if a then 409 else if b then 503 else if c then 400 else 500) 409
        → a ≡ true
    by_class true b c h = refl
    by_class false b c h = ground arith

abbrev status_of : Option Response → ℕ
status_of none = 0
status_of (some r) = r.status

module _ {T : Type 0} (tr : Transport T) where
  -- Of what a handler raises: the session is not connected if the status is 409.
  abbrev FaultDown : Fault → Session T → Type 0
  FaultDown (raised e) s = Down tr e s
  FaultDown (http n) s = n ≡ 409 → tr.connected s.transport ≡ false

  module _ {A : Type 0} where
    call-Down : (m : Method T A) → Truthful tr m → Raises FaultDown (call m)
    unfolding call
    call-Down m p = record { at = λ s. seen (m s).0 (m s).1 (p.at s) }
      where
        seen :
            (r : Outcome Error A) (s : Session T)
            → OfError (Down tr) r s
            → OfError FaultDown (as_fault r) s
        seen (ok a) s h = tt
        seen (err e) s h = h
        seen blocked s h = tt

    called-Down :
        (m : Method T A) (f : A → Answer)
        → Truthful tr m
        → Raises FaultDown (call m >>= λ a. pure (f a))
    called-Down m f p = Raises-bind _ _ (call-Down m p) λ a. Raises-pure (f a)

  module _ (honest : IsHonest tr) (inside : Text → Bool)
      (load_cheat_file : Text → Outcome Error Json) (me : ℕ) where
    handle-Down :
        {request : Request}
        → IsDirect request
        → Raises FaultDown (handle tr inside load_cheat_file me request)
    unfolding handle
    handle-Down (connect {name}) =
        Raises-bind _ _ (Raises-raise_if _ (http 400) λ s h. absurd (omega (arith, h))) λ _.
          Raises-bind _ _ (call-Down _ (connect-Truthful tr honest me (strip name)))
            λ _. Raises-bind _ _ (Raises-gets _) λ linked. Raises-pure _
    handle-Down disconnect = called-Down _ _ (disconnect-Truthful tr honest me)
    handle-Down processes = called-Down _ _ (processes-Truthful tr honest me)
    handle-Down foreground = called-Down _ _ (foreground-Truthful tr honest me)
    handle-Down (attach_target {pid}) =
        called-Down _ _ (attach_target-Truthful tr honest me (Dyn.int pid))
    handle-Down (maps {refresh}) = called-Down _ _ (maps-Truthful tr honest me Dyn.nothing refresh)
    handle-Down read = called-Down _ _ (read-Truthful tr honest me _ _ _)
    handle-Down (write {addr} {content} {pid}) =
        Raises-bind _ _ (call-Down _ (lift-Truthful tr _ (hex_bytes-Calm content)))
          λ bs. called-Down _ _ (write-Truthful tr honest me _ _ _)

    -- Over a transport that keeps the contract: where a connect, a disconnect, a list of the
    -- processes, the foreground app, a new target, the maps, a read or a write is answered with the
    -- status 409, the session is not connected afterwards.
    pub conflict_is_down :
        {request : Request}
        → IsDirect request
        → (s : Session T) (response : Response)
        → respond (handle tr inside load_cheat_file me request s).0 ≡ some response
        → response.status ≡ 409
        → tr.connected (handle tr inside load_cheat_file me request s).1.transport ≡ false
    unfolding respond
    conflict_is_down {request} direct s response sent conflict =
        by_outcome (handle tr inside load_cheat_file me request s).0
          (handle tr inside load_cheat_file me request s).1 ((handle-Down direct).at s) sent
      where
        by_outcome :
            (r : Outcome Fault Answer) (t : Session T)
            → OfError FaultDown r t
            → respond r ≡ some response
            → tr.connected t.transport ≡ false
        by_outcome (ok a) t h e = absurd (omega (arith, ap status_of e, conflict))
        by_outcome (err (raised x)) t h e =
            let down : is_not_connected x ≡ true = status_conflict x (ap status_of e ∙ conflict) in
            subst (λ b. if b then tr.connected t.transport ≡ false else Unit) down h
        by_outcome (err (http n)) t h e = h (ap status_of e ∙ conflict)
        by_outcome blocked t h e = absurd (omega (arith, ap status_of e, conflict))
