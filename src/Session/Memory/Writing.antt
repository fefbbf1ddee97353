-- ===== src/Session/Memory/Writing.antt =====
-- What a method that returned has written to the transport.
use nite_pr.Base.{
  ℕ, zero, suc, ◌-◌, ◌==◌, ◌≡◌, refl, sym, ap, ◌∙◌, subst, Bool, false, Bool-cases, inl, inr, [],
  ◌∷◌, arith,
}
use nite_pr.Base.Int.{ℤ, pos, negsuc}
use nite_pr.Base.Exec.{Outcome, ok, err, blocked, ensure, after, lift, or_raise}
use nite_pr.Base.Exec.Steps.{check-returned}
use nite_pr.Types.{Dyn, Bytes}
use nite_pr.Errors.{Error}
use nite_pr.Transport.{Transport}
use nite_pr.Session.{Session, Method, via, as_pid, resolve_pid, require_addr}
use nite_pr.Session.Lock.{owns, refuses, held_by_other, take_io, release_io, guarded, hold_io}
use nite_pr.Session.Memory.{read_length, write_payload, read, write}
use nite_pr.Session.Memory.Bounds.{require_connected_state, resolve_pid_state}

module _ {T : Type 0} where
  release_transport : (s : Session T) → (release_io s).transport ≡ s.transport
  release_transport s = elim (Bool-cases (s.io_depth - 1 == 0)) [
    | inl last ↦ rw last refl
    | inr inner ↦ rw inner refl
  ]

module _ {T A : Type 0} where
  -- A body returned `a` from the transport `t`, and left the transport `t'`.
  abbrev pub Ran : Method T A → Session T → A → T → Type 0
  Ran body s a t = ((body s).0 ≡ ok a) × ((body s).1.transport ≡ t)

  after-returned :
      (r : Outcome Error A) (s : Session T) {a : A}
      → (after release_io r s).0 ≡ ok a
      → (r ≡ ok a) × (s.transport ≡ (after release_io r s).1.transport)
  after-returned (ok b) s h = (h, sym (release_transport s))
  after-returned (err e) s h = ground arith
  after-returned blocked s h = ground arith

  guarded-returned :
      (block already : Bool) (body : Method T A) (s : Session T) {a : A}
      → (guarded block already body s).0 ≡ ok a
      → ((body s).0 ≡ ok a) × (guarded block already body s ≡ body s)
  unfolding guarded
  guarded-returned block already body s h = elim (Bool-cases (refuses block already s)) [
    | inl refused ↦ ground arith
    | inr free ↦ ground arith
  ]

  -- What returned under the lock has run, from the session with the lock taken.
  pub hold_io-returned :
      (me : ℕ) (body : Method T A) (s : Session T) {a : A}
      → (hold_io me false body s).0 ≡ ok a
      → Ran body (take_io me s) a (hold_io me false body s).1.transport
  unfolding hold_io ensure
  hold_io-returned me body s {a} h = elim (Bool-cases (refuses false (owns me s.io_owner) s)) [
    | inl refused ↦ ground arith
    | inr free ↦ elim (Bool-cases (held_by_other me s)) [
      | inl held ↦ ground arith
      | inr ours ↦ inside (rw (free, ours) refl)
    ]
  ]
    where
      already : Bool
      already = owns me s.io_owner

      inside :
          hold_io me false body s ≡ ensure (guarded false already body) release_io (take_io me s)
          → Ran body (take_io me s) a (hold_io me false body s).1.transport
      inside e =
          let (k, t) = after-returned _ _ (ap (λ x. x.0) (sym e) ∙ h) in
          let (done, same) = guarded-returned false already body (take_io me s) k in
          (done, ap (λ x. x.1.transport) (sym same) ∙ (t ∙ ap (λ x. x.1.transport) (sym e)))

write_payload_same : (bs payload : Bytes) → write_payload (Dyn.bytes bs) ≡ ok payload → payload ≡ bs
unfolding write_payload
write_payload_same [] payload h = ground arith
write_payload_same (b ∷ bs) payload h = ground arith

pub require_addr_same : (z : ℤ) (a : ℕ) → require_addr (Dyn.int z) ≡ ok a → z ≡ pos a
unfolding require_addr
require_addr_same (pos k) a h = ground arith
require_addr_same (negsuc k) a h = ground arith

read_length_same : (z : ℤ) (k : ℕ) → read_length (Dyn.int z) ≡ ok k → z ≡ pos k
unfolding read_length
read_length_same (pos zero) k h = ground arith
read_length_same (pos (suc m)) k h = ground arith
read_length_same (negsuc m) k h = ground arith

resolve_pid_same :
    {T : Type 0} (n p : ℕ) (s : Session T) → (resolve_pid (Dyn.int (pos n)) s).0 ≡ ok p → p ≡ n
unfolding resolve_pid or_raise as_pid
resolve_pid_same n p s h = ground arith

module _ {T : Type 0} (tr : Transport T) where
  -- The transport has written `bs` at `a` and is then `t'`.
  abbrev pub Poked : ℕ → ℕ → Bytes → T → T → Type 0
  Poked pid a bs t t' = ((tr.write pid a bs t).0 ≡ ok tt) × ((tr.write pid a bs t).1 ≡ t')

  Poked-same :
      {pid p a : ℕ} {bs payload : Bytes} {t t' : T}
      → payload ≡ bs
      → p ≡ pid
      → Poked p a payload t t'
      → Poked pid a bs t t'
  Poked-same {p} {a} {bs} {t} {t'} same pids ran =
      subst (λ (q : ℕ). Poked q a bs t t') pids (subst (λ (c : Bytes). Poked p a c t t') same ran)

  pub poke-returned :
      (me pid a : ℕ) (bs : Bytes) (s : Session T)
      → (hold_io me false (via (tr.write pid a bs)) s).0 ≡ ok tt
      → Poked pid a bs s.transport (hold_io me false (via (tr.write pid a bs)) s).1.transport
  unfolding via
  poke-returned me pid a bs s h = hold_io-returned me (via (tr.write pid a bs)) s h

  -- The session's transport has written `bs` at the address `z`.
  abbrev pub PokedAt : ℕ → ℤ → Bytes → (s s' : Session T) → Type 0
  PokedAt pid z bs s s' = (a : ℕ) × (z ≡ pos a) × Poked pid a bs s.transport s'.transport

  -- So for the process that the session resolves.
  abbrev pub Pokes : Dyn → ℤ → Bytes → (s s' : Session T) → Type 0
  Pokes pid z bs s s' = (p : ℕ) × ((resolve_pid pid s).0 ≡ ok p) × PokedAt p z bs s s'

  -- A `write` that returned has written the bytes given, at the address given.
  pub write-Pokes :
      (me : ℕ) (pid : Dyn) (z : ℤ) (bs : Bytes) (s : Session T)
      → (write tr me pid (Dyn.int z) (Dyn.bytes bs) s).0 ≡ ok tt
      → Pokes pid z bs s (write tr me pid (Dyn.int z) (Dyn.bytes bs) s).1
  unfolding write lift
  write-Pokes me pid z bs s h =
      let Q : Outcome Error (Unit {0}) × Session T → Type 0 = λ x. Pokes pid z bs s x.1 in
      check-returned _ _ s Q refl h λ payload e1 h1.
        check-returned _ _ s Q (require_connected_state tr s) h1 λ up e2 h2.
          check-returned _ _ s Q (resolve_pid_state pid s) h2 λ p e3 h3.
            check-returned _ _ s Q refl h3 λ a e4 h4.
              let ran = poke-returned me p a payload s h4 in
              (
                p,
                e3,
                (
                  a,
                  require_addr_same z a e4,
                  Poked-same (write_payload_same bs payload e1) refl ran,
                ),
              )

  pub write-returned :
      (me pid : ℕ) (z : ℤ) (bs : Bytes) (s : Session T)
      → (write tr me (Dyn.int (pos pid)) (Dyn.int z) (Dyn.bytes bs) s).0 ≡ ok tt
      → PokedAt pid z bs s (write tr me (Dyn.int (pos pid)) (Dyn.int z) (Dyn.bytes bs) s).1
  write-returned me pid z bs s h =
      let (p, resolved, (a, at, ran)) = write-Pokes me (Dyn.int (pos pid)) z bs s h in
      (a, at, Poked-same refl (resolve_pid_same pid p s resolved) ran)

  -- The transport has read `bs`, as many bytes as `n` says, at the address `z`, for the process that
  -- the session resolves.
  abbrev pub Peeks : Dyn → (z n : ℤ) → Bytes → (s s' : Session T) → Type 0
  Peeks pid z n bs s s' =
      (p : ℕ) × (a : ℕ) × (k : ℕ) × ((resolve_pid pid s).0 ≡ ok p)
      × (z ≡ pos a)
      × (n ≡ pos k)
      × ((tr.read p a k s.transport).0 ≡ ok bs)
      × ((tr.read p a k s.transport).1 ≡ s'.transport)

  pub read-Peeks :
      (me : ℕ) (pid : Dyn) (z n : ℤ) (s : Session T) (bs : Bytes)
      → (read tr me pid (Dyn.int z) (Dyn.int n) s).0 ≡ ok bs
      → Peeks pid z n bs s (read tr me pid (Dyn.int z) (Dyn.int n) s).1
  unfolding read lift via
  read-Peeks me pid z n s bs h =
      let Q : Outcome Error Bytes × Session T → Type 0 = λ x. Peeks pid z n bs s x.1 in
      check-returned _ _ s Q refl h λ k e1 h1.
        check-returned _ _ s Q (require_connected_state tr s) h1 λ up e2 h2.
          check-returned _ _ s Q (resolve_pid_state pid s) h2 λ p e3 h3.
            check-returned _ _ s Q refl h3 λ a e4 h4.
              let ran = hold_io-returned me (via (tr.read p a k)) s h4 in
              (p, a, k, e3, require_addr_same z a e4, read_length_same n k e1, ran.0, ran.1)
