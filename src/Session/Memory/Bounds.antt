-- ===== src/Session/Memory/Bounds.antt =====
-- What a peephole read and a poke let through to the transport.
use nite_pr.Base.{ℕ, zero, suc, ◌≤◌, ◌≡◌, refl, ◌⊎◌, inl, inr, false, [], ◌∷◌, arith, length}
use nite_pr.Base.Int.{pos}
use nite_pr.Base.Exec.{Outcome, ok, err, blocked, Exec, lift, is_ok, continue, ◌>>=◌}
use nite_pr.Constants.{read_max, write_max}
use nite_pr.Types.{Dyn, Bytes}
use nite_pr.Errors.{Error}
use nite_pr.Transport.{Transport}
use nite_pr.Session.{Session, via, u64_max, resolve_pid, require_addr, require_connected}
use nite_pr.Session.Lock.{hold_io}
use nite_pr.Session.Memory.{read_length, write_payload, read, write}

read_length_ok : (n : Dyn) (len : ℕ) → read_length n ≡ ok len → (1 ≤ len) × (len ≤ read_max)
unfolding read_length
read_length_ok (Dyn.int (pos zero)) len h = cc
read_length_ok (Dyn.int (pos (suc m))) len h = ground arith
read_length_ok _ len h = cc

write_payload_ok :
    (arg : Dyn) (bs : Bytes) → write_payload arg ≡ ok bs → (1 ≤ length bs) × (length bs ≤ write_max)
unfolding write_payload
write_payload_ok (Dyn.bytes []) bs h = cc
write_payload_ok (Dyn.bytes (x ∷ xs)) bs h = ground arith
write_payload_ok _ bs h = cc

addr_ok : (arg : Dyn) (a : ℕ) → require_addr arg ≡ ok a → a ≤ u64_max
unfolding require_addr
addr_ok (Dyn.int (pos k)) a h = ground arith
addr_ok _ a h = cc

-- A call that did not return a value and left the state as it was.
abbrev pub Refused : {S A : Type 0} → S → Outcome Error A × S → Type 0
Refused s x = (is_ok x.0 ≡ false) × (x.1 ≡ s)

module _ {S A B : Type 0} (m : Exec Error S A) (f : A → Exec Error S B) (s : S)
    (Q : Outcome Error B × S → Type 0) where
  pass_from :
      (r : Outcome Error A) (s' : S)
      → s' ≡ s
      → ((a : A) → r ≡ ok a → Refused s (f a s) ⊎ Q (f a s))
      → Refused s (continue f r s') ⊎ Q (continue f r s')
  pass_from (ok a) s' e k = rw e (k a refl)
  pass_from (err x) s' e k = inl (refl, e)
  pass_from blocked s' e k = inl (refl, e)

  -- A check that leaves the state alone refuses, or hands its value to the rest of the block.
  pub pass :
      (m s).1 ≡ s
      → ((a : A) → (m s).0 ≡ ok a → Refused s (f a s) ⊎ Q (f a s))
      → Refused s ((m >>= f) s) ⊎ Q ((m >>= f) s)
  unfolding ◌>>=◌
  pass e k = pass_from (m s).0 (m s).1 e k

module _ {T : Type 0} where
  pub require_connected_state : (tr : Transport T) (s : Session T) → (require_connected tr s).1 ≡ s
  unfolding require_connected ◌>>=◌
  require_connected_state tr s = ground arith

  pub resolve_pid_state : (pid : Dyn) (s : Session T) → (resolve_pid pid s).1 ≡ s
  unfolding resolve_pid ◌>>=◌
  resolve_pid_state Dyn.nothing s = ground arith
  resolve_pid_state (Dyn.int n) s = ground arith
  resolve_pid_state _ s = refl

module _ {T : Type 0} (tr : Transport T) (me : ℕ) (pid addr : Dyn) (s : Session T) where
  -- The call comes to one read of the transport, under the lock, of 1 to 4096 bytes at an address
  -- that fits a u64, for the pid that the session resolves.
  abbrev pub ReadsOnce : Outcome Error Bytes × Session T → Type 0
  ReadsOnce x =
      (p : ℕ) × (a : ℕ) × (len : ℕ) × (x ≡ hold_io me false (via (tr.read p a len)) s)
      × ((resolve_pid pid s).0 ≡ ok p)
      × (a ≤ u64_max)
      × (1 ≤ len)
      × (len ≤ read_max)

  abbrev pub WritesOnce : Outcome Error (Unit {0}) × Session T → Type 0
  WritesOnce x =
      (p : ℕ) × (a : ℕ) × (bs : Bytes) × (x ≡ hold_io me false (via (tr.write p a bs)) s)
      × ((resolve_pid pid s).0 ≡ ok p)
      × (a ≤ u64_max)
      × (1 ≤ length bs)
      × (length bs ≤ write_max)

  -- Whatever its arguments, `read` either is refused and leaves the session as it is, or comes to
  -- one read of the transport, under the lock, of 1 to 4096 bytes at an address that fits a u64,
  -- for the pid that the session resolves.
  pub read_bounds :
      (n : Dyn) → Refused s (read tr me pid addr n s) ⊎ ReadsOnce (read tr me pid addr n s)
  unfolding read lift
  read_bounds n = pass (lift (read_length n)) _ s ReadsOnce refl λ len el.
      pass (require_connected tr) _ s ReadsOnce (require_connected_state tr s) λ _ _.
        pass (resolve_pid pid) _ s ReadsOnce (resolve_pid_state pid s) λ p ep.
          pass (lift (require_addr addr)) _ s ReadsOnce refl λ a ea.
            let (lo, hi) = read_length_ok n len el in
            inr (p, a, len, refl, ep, addr_ok addr a ea, lo, hi)

  -- Whatever its arguments, `write` either is refused and leaves the session as it is, or comes to
  -- one write of the transport, under the lock, of 1 to 4096 bytes at an address that fits a u64,
  -- for the pid that the session resolves.
  pub write_bounds :
      (content : Dyn)
      → Refused s (write tr me pid addr content s) ⊎ WritesOnce (write tr me pid addr content s)
  unfolding write lift
  write_bounds content = pass (lift (write_payload content)) _ s WritesOnce refl λ bs eb.
      pass (require_connected tr) _ s WritesOnce (require_connected_state tr s) λ _ _.
        pass (resolve_pid pid) _ s WritesOnce (resolve_pid_state pid s) λ p ep.
          pass (lift (require_addr addr)) _ s WritesOnce refl λ a ea.
            let (lo, hi) = write_payload_ok content bs eb in
            inr (p, a, bs, refl, ep, addr_ok addr a ea, lo, hi)
