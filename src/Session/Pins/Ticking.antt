-- ===== src/Session/Pins/Ticking.antt =====
-- What one tick of the freezes does.
use nite_pr.Base.{
  ℕ, suc, ◌≡◌, refl, sym, ap, ◌∙◌, subst, Bool, true, false, List, [], ◌∷◌, length, if◌then◌else◌,
}
use nite_pr.Base.Dict.{values}
use nite_pr.Base.Exec.{Outcome, ok, pure, gets, ◌>>=◌}
use nite_pr.Base.Exec.Steps.{bind-returned, check-returned}
use nite_pr.Base.Result.{ok_inj}
use nite_pr.Types.{FreezeEntry}
use nite_pr.Errors.{Error}
use nite_pr.Transport.{Transport}
use nite_pr.Session.{Session, Method, via}
use nite_pr.Session.Lock.{take_io}
use nite_pr.Session.Memory.Bounds.{require_connected_state}
use nite_pr.Session.Memory.Writing.{hold_io-returned}
use nite_pr.Session.Pins.{freezes, write_all, write_some, freeze_tick}

module _ {T : Type 0} (tr : Transport T) where
  -- From `t`, the transport writes each freeze's bytes at its address, one after another, and is
  -- then `t'`.
  unfoldable pub WritesEach : List FreezeEntry → T → T → Type 0
  WritesEach [] t t' = t ≡ t'
  WritesEach (e ∷ es) t t' =
      ((tr.write e.pid e.addr e.content t).0 ≡ ok tt)
      × WritesEach es (tr.write e.pid e.addr e.content t).1 t'

  -- So it did in a call from `t` that returned their number `n`.
  abbrev Wrote : List FreezeEntry → T → ℕ → Outcome Error ℕ × Session T → Type 0
  Wrote es t n x = WritesEach es t x.1.transport × (n ≡ length es)

  module _ (me : ℕ) where
    write_all-Wrote :
        (es : List FreezeEntry) (s : Session T) (n : ℕ)
        → (write_all tr me es s).0 ≡ ok n
        → Wrote es s.transport n (write_all tr me es s)
    unfolding write_all WritesEach pure via
    write_all-Wrote [] s n h = (refl, sym (ok_inj h))
    write_all-Wrote (e ∷ es) s n h =
        let first = via (tr.write e.pid e.addr e.content) in
        let Q : Outcome Error ℕ × Session T → Type 0 = Wrote (e ∷ es) s.transport n in
        bind-returned first _ s Q h λ done e1 h1.
          bind-returned (write_all tr me es) _ (first s).1 Q h1 λ k e2 h2.
            let (wrote, count) = write_all-Wrote es (first s).1 k e2 in
            ((e1, wrote), sym (ok_inj h2) ∙ ap suc count)

    write_some-Wrote :
        (es : List FreezeEntry) (s : Session T) (n : ℕ)
        → (write_some tr me es s).0 ≡ ok n
        → Wrote es s.transport n (write_some tr me es s)
    unfolding write_some WritesEach pure
    write_some-Wrote [] s n h = (refl, sym (ok_inj h))
    write_some-Wrote (e ∷ es) s n h =
        let Q : Outcome Error ℕ × Session T → Type 0 = Wrote (e ∷ es) s.transport n in
        check-returned _ _ s Q (require_connected_state tr s) h λ up e1 h1.
          let ran = hold_io-returned me (write_all tr me (e ∷ es)) s h1 in
          let (wrote, count) = write_all-Wrote (e ∷ es) (take_io me s) n ran.0 in
          (subst (WritesEach (e ∷ es) s.transport) ran.1 wrote, count)

    -- A tick that returned has written the bytes of each freeze at its address, in the order of the
    -- freezes, and returns their number. While the plugin is armed it has written nothing, and
    -- returns 0.
    pub freeze_tick_writes :
        (s : Session T) (n : ℕ)
        → (freeze_tick tr me s).0 ≡ ok n
        → let es = if s.plugin_armed then [] else values s.freezes in
          WritesEach es s.transport (freeze_tick tr me s).1.transport × (n ≡ length es)
    unfolding freeze_tick freezes WritesEach gets pure ◌>>=◌
    freeze_tick_writes s n h = by_arming s.plugin_armed h
      where
        tick : Bool → Method T ℕ
        tick armed = if armed then pure 0 else (freezes >>= λ entries. write_some tr me entries)

        by_arming :
            (armed : Bool)
            → (tick armed s).0 ≡ ok n
            → Wrote (if armed then [] else values s.freezes) s.transport n (tick armed s)
        by_arming true e = (refl, sym (ok_inj e))
        by_arming false e = write_some-Wrote (values s.freezes) s n e
