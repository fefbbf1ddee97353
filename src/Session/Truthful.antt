-- ===== src/Session/Truthful.antt =====
-- The session over any transport that keeps the contract of Transport/Contract: what a caller may
-- read off a `NotConnected`.
pub mod Methods
use nite_pr.Base.{
  ℕ, ◌-◌, ◌==◌, ◌≡◌, refl, ap, ◌∙◌, sym, subst, Bool, true, false, not, Bool-cases, inl, inr,
  Option, none, some, List, [], ◌∷◌, if◌then◌else◌,
}
use nite_pr.Base.Text.{Text}
use nite_pr.Base.Exec.{
  Outcome, ok, err, blocked, Exec, raise, raise_if, gets, modify, lift, or_raise, ◌>>=◌, ◌>>◌,
}
use nite_pr.Base.Exec.Raises.{
  OfError, Raises, Raises-pure, Raises-raise, Raises-or_raise, Raises-lift, Raises-raise_if,
  Raises-modify, Raises-gets, Raises-if, Raises-bind, Raises-ensure, Raises-catch, raises_rules,
}
use nite_pr.Types.{Dyn, Bytes, MemoryMap, ProcessInfo, ForegroundInfo}
use nite_pr.Errors.{Error, not_connected, is_not_connected}
use nite_pr.Transport.{Transport}
use nite_pr.Transport.Contract.{Lost, IsHonest}
use nite_pr.Transport.Contract.Calm.{Calm, CalmAt, Calm-ok, Calm-err, Calm-if, calm_rules}
use nite_pr.Session.{Session, Method, via, as_pid, resolve_pid, require_addr, require_connected}
use nite_pr.Session.Lock.{owns, refuses, held_by_other, take_io, release_io, guarded, hold_io}
use nite_pr.Session.Connect.{
  end_scan, disconnect, connect, foreground, title_of, title_all, processes, attach_target,
  discover,
}
use nite_pr.Session.Memory.{read_length, write_payload, fetch_maps, or_fetch, maps, read, write}

-- If a method has raised `NotConnected`, then the session is not connected.
abbrev pub Down : {T : Type 0} → Transport T → Error → Session T → Type 0
Down tr e s = Lost tr e s.transport

abbrev pub Truthful : {T A : Type 0} → Transport T → Method T A → Type 0
Truthful tr m = Raises (Down tr) m

Lost-other :
    {T : Type 0} (tr : Transport T) (e : Error) (t : T) → is_not_connected e ≡ false → Lost tr e t
Lost-other tr e t h = subst (λ b. if b then tr.connected t ≡ false else Unit) (sym h) tt

module _ {T : Type 0} (tr : Transport T) where
  release-Truthful : (e : Error) (s : Session T) → Down tr e s → Down tr e (release_io s)
  release-Truthful e s h = elim (Bool-cases (s.io_depth - 1 == 0)) [
    | inl last ↦ rw last h
    | inr inner ↦ rw inner h
  ]

  module _ {A : Type 0} where
    pub raise-Truthful : (e : Error) → is_not_connected e ≡ false → Truthful tr (raise {A = A} e)
    raise-Truthful e h = Raises-raise e λ s. Lost-other tr e s.transport h

    pub or_raise-Truthful :
        (o : Option A) (e : Error) → is_not_connected e ≡ false → Truthful tr (or_raise o e)
    or_raise-Truthful o e h = Raises-or_raise o e λ s. Lost-other tr e s.transport h

    pub lift-Truthful : (r : Outcome Error A) → Calm r → Truthful tr (lift r)
    lift-Truthful r h = Raises-lift r λ s. of_calm r h.at s
      where
        of_calm : (r : Outcome Error A) → CalmAt r → (s : Session T) → OfError (Down tr) r s
        of_calm (ok a) h s = tt
        of_calm (err e) h s = Lost-other tr e s.transport h
        of_calm blocked h s = tt

    pub via-Truthful : (m : Exec Error T A) → Raises (Lost tr) m → Truthful tr (via m)
    unfolding via
    via-Truthful m p = record {
      at = λ s. seen (m s.transport).0 (m s.transport).1 s (p.at s.transport);
    }
      where
        seen :
            (r : Outcome Error A) (t : T) (s : Session T)
            → OfError (Lost tr) r t
            → OfError (Down tr) r (record s { transport = t })
        seen (ok a) t s h = tt
        seen (err e) t s h = h
        seen blocked t s h = tt

    guarded-Truthful :
        (block already : Bool) (body : Method T A)
        → Truthful tr body
        → Truthful tr (guarded block already body)
    unfolding guarded
    guarded-Truthful block already body k = record {
      at = λ s. elim (Bool-cases (refuses block already s)) [
        | inl refused ↦ rw (refused, OfError) tt
        | inr free ↦ rw (free, OfError) (k.at s)
      ];
    }

    pub hold_io-Truthful :
        (me : ℕ) (block : Bool) (body : Method T A)
        → Truthful tr body
        → Truthful tr (hold_io me block body)
    unfolding hold_io
    hold_io-Truthful me block body k = record {
      at = λ s. elim (Bool-cases (refuses block (owns me s.io_owner) s)) [
        | inl refused ↦ rw (refused, OfError) tt
        | inr free ↦
            rw (free, OfError)
              (elim (Bool-cases (held_by_other me s)) [
                | inl held ↦ rw (held, OfError) tt
                | inr ours ↦
                    rw (ours, OfError)
                      ((Raises-ensure (guarded block (owns me s.io_owner) body) release_io
                          (guarded-Truthful block (owns me s.io_owner) body k) release-Truthful).at
                        (take_io me s))
              ])
      ];
    }

  pub raise_if-Truthful :
      (b : Bool) (e : Error) → is_not_connected e ≡ false → Truthful tr (raise_if b e)
  raise_if-Truthful b e h = Raises-raise_if b e λ s. Lost-other tr e s.transport h

  pub require_connected-Truthful : Truthful tr (require_connected tr)
  unfolding require_connected ◌>>=◌
  require_connected-Truthful = record { at = λ s. by_flag (tr.connected s.transport) s refl }
    where
      by_flag :
          (b : Bool) (s : Session T)
          → tr.connected s.transport ≡ b
          → OfError
              (Down tr)
              (raise_if (not b) not_connected s).0
              (raise_if (not b) not_connected s).1
      by_flag true s e = tt
      by_flag false s e = e

  pub resolve_pid-Truthful : (pid : Dyn) → Truthful tr (resolve_pid pid)
  unfolding resolve_pid
  resolve_pid-Truthful Dyn.nothing = Raises-bind _ _ (Raises-gets _) λ t. or_raise-Truthful t _ refl
  resolve_pid-Truthful _ = or_raise-Truthful _ _ refl

pub ruleset truthful_rules = (
  raises_rules, raise-Truthful, or_raise-Truthful, lift-Truthful, via-Truthful, hold_io-Truthful,
  raise_if-Truthful, require_connected-Truthful, resolve_pid-Truthful,
)
