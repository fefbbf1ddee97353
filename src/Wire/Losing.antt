-- ===== src/Wire/Losing.antt =====
-- Where the functions on the wire raise `NotConnected`.
use nite_pr.Base.{
  ℕ, zero, suc, ◌≡◌, refl, subst, sym, Bool, true, false, ◌&&◌, List, [], ◌∷◌, ltb, ◌==◌,
  if◌then◌else◌,
}
use nite_pr.Base.Exec.{Outcome, ok, err, blocked, Exec, pure, raise, raise_if, lift, ◌>>◌}
use nite_pr.Base.Exec.Raises.{
  OfError, Raises, Raises-pure, Raises-raise, Raises-lift, Raises-if, Raises-catch, Raises-raise_if,
  Raises-catch-from, Raises-bind, raises_rules, trivial,
}
use nite_pr.Base.Result
use nite_pr.Types.{Bytes}
use nite_pr.Errors.{is_not_connected, scan_unsupported}
use nite_pr.Scan.Segments.{Segment}
use nite_pr.Wire.{Kind, struct_error, Failure, raised, own, Conn, lib, as_raised}
use nite_pr.Wire.Pack.{pack_u8, pack_u32, pack_u64}
use nite_pr.Wire.Requests.{
  pack_all, start_body, pack_segments, segments_blob, is_broken, unsupported_if, proc_write_phased,
  sentinel, result_block_max, send_segments, drain_result_blocks, drain_progress,
  turbo_start_resident_segments, turbo_start_snapshot_segments,
}

abbrev pub is_lost : Failure → Bool
is_lost (own e) = is_not_connected e
is_lost (raised k) = false

-- If the failure is `NotConnected`, then `down` holds of the state.
abbrev pub Losing : {S : Type 0} → (down : S → Type 0) → Failure → S → Type 0
Losing down e s = if is_lost e then down s else Unit

abbrev pub QuietAt : {A : Type 0} → Outcome Failure A → Type 0
QuietAt (ok a) = Unit
QuietAt (err e) = is_lost e ≡ false
QuietAt blocked = Unit

-- An outcome without a state that is no `NotConnected`.
pub record Quiet {A : Type 0} (r : Outcome Failure A) : Type 0 where
  pub at : QuietAt r

module _ {A : Type 0} where
  Quiet-ok : (a : A) → Quiet (ok a)
  Quiet-ok a = record { at = tt }

  Quiet-blocked : Quiet {A = A} blocked
  Quiet-blocked = record { at = tt }

  pub Quiet-raised : (r : Outcome Kind A) → Quiet (as_raised r)
  Quiet-raised (ok a) = record { at = tt }
  Quiet-raised (err k) = record { at = refl }
  Quiet-raised blocked = record { at = tt }

  Quiet-if : (b : Bool) (r t : Outcome Failure A) → Quiet r → Quiet t → Quiet (if b then r else t)
  Quiet-if true r t q p = q
  Quiet-if false r t q p = p

Quiet-unsupported : Quiet {A = Bytes} (err (own scan_unsupported))
Quiet-unsupported = record { at = refl }

Quiet-struct : Quiet {A = Bytes} (err struct_error)
Quiet-struct = record { at = refl }

Quiet-bind :
    {A B : Type 0} (r : Outcome Failure A) (f : A → Outcome Failure B)
    → Quiet r
    → ((a : A) → Quiet (f a))
    → Quiet (Result.◌>>=◌ r f)
Quiet-bind (ok a) f q next = next a
Quiet-bind (err e) f q next = record { at = q.at }
Quiet-bind blocked f q next = record { at = tt }

ruleset quiet_rules = (Quiet-ok, Quiet-if, Quiet-unsupported, Quiet-struct, Quiet-bind)

Quiet-u8 : (v : ℕ) → Quiet (pack_u8 v)
unfolding pack_u8
Quiet-u8 v = search quiet_rules

Quiet-u32 : (v : ℕ) → Quiet (pack_u32 v)
unfolding pack_u32
Quiet-u32 v = search quiet_rules

Quiet-u64 : (v : ℕ) → Quiet (pack_u64 v)
unfolding pack_u64
Quiet-u64 v = search quiet_rules

Quiet-nil : Quiet (pack_all [])
unfolding pack_all
Quiet-nil = Quiet-ok []

Quiet-cons :
    (r : Outcome Failure Bytes) (rs : List (Outcome Failure Bytes))
    → Quiet r
    → Quiet (pack_all rs)
    → Quiet (pack_all (r ∷ rs))
unfolding pack_all
Quiet-cons r rs q qs = Quiet-bind r _ q λ bs. Quiet-bind (pack_all rs) _ qs λ rest. Quiet-ok _

ruleset pack_rules = (quiet_rules, Quiet-u8, Quiet-u32, Quiet-u64, Quiet-nil, Quiet-cons)

Quiet-segments : (gs : List Segment) → Quiet (pack_segments gs)
unfolding pack_segments
Quiet-segments [] = Quiet-ok []
Quiet-segments ((addr, len) ∷ gs) = Quiet-bind (pack_u64 addr) _ (Quiet-u64 addr) λ a.
    Quiet-bind (pack_u32 len) _ (Quiet-u32 len)
      λ n. Quiet-bind (pack_segments gs) _ (Quiet-segments gs) λ rest. Quiet-ok _

pub Quiet-blob : (gs : List Segment) → Quiet (segments_blob gs)
unfolding segments_blob
Quiet-blob gs = search (pack_rules, Quiet-segments)

pub Quiet-start_body :
    (pid address len vt ct al value_len flags : ℕ)
    → Quiet (start_body pid address len vt ct al value_len flags)
unfolding start_body
Quiet-start_body pid address len vt ct al value_len flags = search pack_rules depth 20

as_raised-Losing :
    {S A : Type 0} (down : S → Type 0) (r : Outcome Kind A) (s : S)
    → OfError (Losing down) (as_raised r) s
as_raised-Losing down (ok a) s = tt
as_raised-Losing down (err k) s = tt
as_raised-Losing down blocked s = tt

Losing-other :
    {S : Type 0} (down : S → Type 0) (e : Failure) (s : S) → is_lost e ≡ false → Losing down e s
Losing-other down e s q = subst (λ b. if b then down s else Unit) (sym q) tt

module _ {S : Type 0} {down : S → Type 0} where
  -- The package raises nothing of the repository's.
  pub lib-Losing : {A : Type 0} (m : Exec Kind S A) → Raises (Losing down) (lib m)
  unfolding lib
  lib-Losing m = record { at = λ s. as_raised-Losing down (m s).0 (m s).1 }

  pub raise-Losing :
      {A : Type 0} (e : Failure) → is_lost e ≡ false → Raises (Losing down) (raise {A = A} e)
  raise-Losing e q = Raises-raise e λ s. Losing-other down e s q

  pub raise_if-Losing :
      (b : Bool) (e : Failure) → is_lost e ≡ false → Raises (Losing down) (raise_if b e)
  raise_if-Losing b e q = Raises-raise_if b e λ s. Losing-other down e s q

  pub lift-Losing : {A : Type 0} (r : Outcome Failure A) → Quiet r → Raises (Losing down) (lift r)
  lift-Losing {A} r q = Raises-lift r λ s. of_quiet r q.at s
    where
      of_quiet : (r : Outcome Failure A) → QuietAt r → (s : S) → OfError (Losing down) r s
      of_quiet (ok a) q s = tt
      of_quiet (err e) q s = Losing-other down e s q
      of_quiet blocked q s = tt

  pub unsupported_if-Losing :
      {A : Type 0} (test : Failure → Bool) (m : Exec Failure S A)
      → Raises (Losing down) m
      → Raises (Losing down) (unsupported_if test m)
  unfolding raise
  unsupported_if-Losing {A} test m p = Raises-catch-from m _ p λ e s h. either (test e) e s h
    where
      either :
          (b : Bool) (e : Failure) (s : S)
          → Losing down e s
          → OfError
              (Losing down)
              ((if b then raise {A = A} (own scan_unsupported) else raise e) s).0
              ((if b then raise {A = A} (own scan_unsupported) else raise e) s).1
      either true e s h = tt
      either false e s h = h

pub ruleset losing_rules = (
  raises_rules, raise-Losing, raise_if-Losing, lib-Losing, unsupported_if-Losing, lift-Losing,
  Quiet-raised, Quiet-start_body, Quiet-blob,
)

module _ {S : Type 0} {down : S → Type 0} (conn : Conn S) where
  pub proc_write_phased-Losing :
      (pid address : ℕ) (payload : Bytes)
      → Raises (Losing down) (proc_write_phased conn pid address payload)
  unfolding proc_write_phased
  proc_write_phased-Losing pid address payload = search (losing_rules, pack_rules) depth 20

  send_segments-Losing : (gs : List Segment) → Raises (Losing down) (send_segments conn gs)
  unfolding send_segments
  send_segments-Losing gs = search losing_rules

  block_turn-Losing :
      (n : ℕ) (rest : Exec Failure S (Unit {0}))
      → Raises (Losing down) rest
      → Raises (Losing down) (
          if n == sentinel
          then pure tt
          else (if ltb result_block_max n
              then raise (own scan_unsupported)
              else (lib (conn.recv_exact n) >> rest)))
  block_turn-Losing n rest next = Raises-if (n == sentinel) _ _ (Raises-pure tt) (
      Raises-if (ltb result_block_max n) _ _ (raise-Losing (own scan_unsupported) refl)
        (Raises-bind _ _ (lib-Losing (conn.recv_exact n)) λ _. next))

  drain_result_blocks-Losing : (fuel : ℕ) → Raises (Losing down) (drain_result_blocks conn fuel)
  unfolding drain_result_blocks
  drain_result_blocks-Losing zero = lift-Losing blocked Quiet-blocked
  drain_result_blocks-Losing (suc fuel) =
      Raises-bind _ _ (lib-Losing conn.recv_u64)
        λ n. block_turn-Losing n _ (drain_result_blocks-Losing fuel)

  progress_turn-Losing :
      (total n : ℕ) (rest : Exec Failure S (Unit {0}))
      → Raises (Losing down) rest
      → Raises (Losing down) (
          if n == sentinel
          then pure tt
          else (if ltb 0 total && ltb total n then raise (own scan_unsupported) else rest))
  progress_turn-Losing total n rest next =
      Raises-if (n == sentinel) _ _ (Raises-pure tt)
        (Raises-if _ _ _ (raise-Losing (own scan_unsupported) refl) next)

  drain_progress-Losing : (left total : ℕ) → Raises (Losing down) (drain_progress conn left total)
  unfolding drain_progress
  drain_progress-Losing zero total = search losing_rules
  drain_progress-Losing (suc left) total =
      Raises-bind _ _ (unsupported_if-Losing is_broken _ (lib-Losing conn.recv_u64))
        λ n. progress_turn-Losing total n _ (drain_progress-Losing left total)

  pub turbo_start_resident_segments-Losing :
      (fuel pid : ℕ) (gs : List Segment) (vt ct al value : ℕ) (use_aliasing : Bool)
      → Raises
          (Losing down)
          (turbo_start_resident_segments conn fuel pid gs vt ct al value use_aliasing)
  unfolding turbo_start_resident_segments
  turbo_start_resident_segments-Losing fuel pid gs vt ct al value use_aliasing =
      search (losing_rules, send_segments-Losing, drain_result_blocks-Losing) depth 20

  pub turbo_start_snapshot_segments-Losing :
      (pid : ℕ) (gs : List Segment) (vt al : ℕ) (use_aliasing : Bool)
      → Raises (Losing down) (turbo_start_snapshot_segments conn pid gs vt al use_aliasing)
  unfolding turbo_start_snapshot_segments
  turbo_start_snapshot_segments-Losing pid gs vt al use_aliasing =
      search (losing_rules, send_segments-Losing, drain_progress-Losing) depth 20
