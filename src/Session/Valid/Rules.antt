-- ===== src/Session/Valid/Rules.antt =====
-- The invariant of the watches and the freezes under the parts that the methods are built from:
-- calls of the transport, the locks, and the access to the hunt.
use nite_pr.Base.{Bool-cases, ◌-◌, ◌==◌, inl, inr, ℕ, Bool, true}
use nite_pr.Base.Exec.{Outcome, ok, err, blocked, Exec, lift, modify}
use nite_pr.Base.Exec.Keeps.{
  Keeps, Ends, Keeps-lift, Keeps-modify, Keeps-bind, Keeps-bind-lift, Keeps-ensure, keeps_rules,
}
use nite_pr.Types.{Dyn}
use nite_pr.Errors.{Error}
use nite_pr.Transport.{Transport}
use nite_pr.Session.{Session, ScanState, Method, via, resolve_pid, require_connected}
use nite_pr.Session.Lock.{
  begin_busy, end_busy, owns, refuses, held_by_other, guarded, hold_io, take_io, release_io,
}
use nite_pr.Session.Hunt.Common.{active_scan, the_scan, on_scan, waiting, hunting}
use nite_pr.Session.Valid.{IsValid, KeepsValid}

module _ {T : Type 0} where
  release_io-IsValid : (s : Session T) → IsValid s → IsValid (release_io s)
  release_io-IsValid s h = elim (Bool-cases (s.io_depth - 1 == 0)) [
    | inl last ↦ rw last h
    | inr inner ↦ rw inner h
  ]

  end_busy-IsValid : (s : Session T) → IsValid s → IsValid (end_busy s)
  unfolding end_busy
  end_busy-IsValid s h = h

  begin_busy-IsValid : KeepsValid {T = T} begin_busy
  unfolding begin_busy
  begin_busy-IsValid = record {
    at = λ s h. elim (Bool-cases s.busy) [
      | inl hunt ↦ rw (hunt, Ends) h
      | inr idle ↦ rw (idle, Ends) h
    ];
  }

  pub resolve_pid-IsValid : (pid : Dyn) → KeepsValid {T = T} (resolve_pid pid)
  unfolding resolve_pid
  resolve_pid-IsValid Dyn.nothing = search keeps_rules
  resolve_pid-IsValid _ = search keeps_rules

module _ {T A : Type 0} where
  pub via-IsValid : (m : Exec Error T A) → KeepsValid (via m)
  unfolding via
  via-IsValid m = record { at = λ s h. go (m s.transport).0 (m s.transport).1 s h }
    where
      go :
          (r : Outcome Error A) (t : T) (s : Session T)
          → IsValid s
          → Ends IsValid IsValid r (record s { transport = t })
      go (ok a) t s h = h
      go (err e) t s h = h
      go blocked t s h = h

  pub lift-IsValid : (r : Outcome Error A) → KeepsValid {T = T} (lift r)
  lift-IsValid r = Keeps-lift (λ s h. h) r

  guarded-IsValid :
      (block already : Bool) (body : Method T A)
      → KeepsValid body
      → KeepsValid (guarded block already body)
  unfolding guarded
  guarded-IsValid block already body k = record {
    at = λ s h. elim (Bool-cases (refuses block already s)) [
      | inl refused ↦ rw (refused, Ends) h
      | inr free ↦ rw (free, Ends) (k.at s h)
    ];
  }

  pub hold_io-IsValid :
      (me : ℕ) (block : Bool) (body : Method T A)
      → KeepsValid body
      → KeepsValid (hold_io me block body)
  unfolding hold_io
  hold_io-IsValid me block body k = record {
    at = λ s h. elim (Bool-cases (refuses block (owns me s.io_owner) s)) [
      | inl refused ↦ rw (refused, Ends) h
      | inr free ↦
          rw (free, Ends)
            (elim (Bool-cases (held_by_other me s)) [
              | inl held ↦ rw (held, Ends) h
              | inr ours ↦
                  rw (ours, Ends)
                    ((Keeps-ensure (guarded block (owns me s.io_owner) body) release_io
                        (guarded-IsValid block (owns me s.io_owner) body k) release_io-IsValid).at
                      (take_io me s) h)
            ])
    ];
  }

  pub hunting-IsValid :
      (tr : Transport T) (me : ℕ) (body : Method T A)
      → KeepsValid body
      → KeepsValid (hunting tr me body)
  unfolding hunting
  hunting-IsValid tr me body k = Keeps-bind begin_busy _ begin_busy-IsValid (λ _.
      Keeps-ensure (hold_io me true body) end_busy (hold_io-IsValid me true body k)
        end_busy-IsValid)

  pub waiting-IsValid :
      (tr : Transport T) (body : Method T A) → KeepsValid body → KeepsValid (waiting tr body)
  unfolding waiting
  waiting-IsValid tr body k = record {
    at = λ s h.
        (Keeps-ensure body _ k (λ s h. h)).at
          (record s { transport = tr.scan_wait_enter s.transport }) h;
  }

module _ {T : Type 0} where
  pub require_connected-IsValid : (tr : Transport T) → KeepsValid (require_connected tr)
  unfolding require_connected
  require_connected-IsValid tr = search keeps_rules

  pub active_scan-IsValid : KeepsValid (active_scan {T = T})
  unfolding active_scan
  active_scan-IsValid = search keeps_rules

  pub the_scan-IsValid : KeepsValid (the_scan {T = T})
  unfolding the_scan
  the_scan-IsValid = search keeps_rules

  pub on_scan-IsValid : (f : ScanState → ScanState) → KeepsValid {T = T} (modify (on_scan f))
  on_scan-IsValid f = Keeps-modify (on_scan f) (λ s h. h)

-- The rules for the parts that every method is built from.
pub ruleset valid_rules = (
  keeps_rules, via-IsValid, lift-IsValid, hold_io-IsValid, hunting-IsValid, waiting-IsValid,
  require_connected-IsValid, resolve_pid-IsValid, active_scan-IsValid, the_scan-IsValid,
  on_scan-IsValid,
)
