-- ===== src/Transport/Contract/Calm.antt =====
-- The pure functions that `MockTransport` and the session lift into their calls: which errors they
-- do not raise.
use nite_pr.Base.{ℕ, zero, suc, ◌+◌, ◌≡◌, refl, Bool, true, false, List, [], ◌∷◌, if◌then◌else◌}
use nite_pr.Base.Exec.{Outcome, ok, err, blocked}
use nite_pr.Base.Result
use nite_pr.Types.{Bytes, ScanHit}
use nite_pr.Errors.{Error, is_not_connected, invalid_scan_value}
use nite_pr.Scan.Parse.{value_size}
use nite_pr.Scan.Match.{u32_from_bytes, match_u32}
use nite_pr.Scan.Segments.{Segment}
use nite_pr.Transport.{CountArgs}
use nite_pr.Transport.Mock.Scanning.{
  slot_matches, walk, walk_segments, recount_hit, recount, spans, slice, align_up,
}

abbrev pub CalmAt : {A : Type 0} → Outcome Error A → Type 0
CalmAt (ok a) = Unit
CalmAt (err e) = is_not_connected e ≡ false
CalmAt blocked = Unit

-- The outcome is no `NotConnected`.
pub record Calm {A : Type 0} (r : Outcome Error A) : Type 0 where
  pub at : CalmAt r

module _ {A : Type 0} where
  pub Calm-ok : (a : A) → Calm (ok a)
  Calm-ok a = record { at = tt }

  pub Calm-err : (e : Error) → is_not_connected e ≡ false → Calm {A = A} (err e)
  Calm-err e h = record { at = h }

  pub Calm-if : (b : Bool) (r t : Outcome Error A) → Calm r → Calm t → Calm (if b then r else t)
  Calm-if true r t p q = p
  Calm-if false r t p q = q

pub Calm-bind :
    {A B : Type 0} (r : Outcome Error A) (f : A → Outcome Error B)
    → Calm r
    → ((a : A) → Calm (f a))
    → Calm (Result.◌>>=◌ r f)
Calm-bind (ok a) f p next = next a
Calm-bind (err e) f p next = record { at = p.at }
Calm-bind blocked f p next = record { at = tt }

pub ruleset calm_rules = (Calm-ok, Calm-err, Calm-if, Calm-bind)

pub value_size-Calm : (vt : ℕ) → Calm (value_size vt)
unfolding value_size
value_size-Calm vt = search calm_rules

u32_from_bytes-Calm : (bs : Bytes) → Calm (u32_from_bytes bs)
unfolding u32_from_bytes
u32_from_bytes-Calm [] = Calm-err invalid_scan_value refl
u32_from_bytes-Calm (a ∷ []) = Calm-err invalid_scan_value refl
u32_from_bytes-Calm (a ∷ b ∷ []) = Calm-err invalid_scan_value refl
u32_from_bytes-Calm (a ∷ b ∷ c ∷ []) = Calm-err invalid_scan_value refl
u32_from_bytes-Calm (a ∷ b ∷ c ∷ d ∷ bs) = Calm-ok _

match_u32-Calm : (compare now before value : ℕ) → Calm (match_u32 compare now before value)
unfolding match_u32
match_u32-Calm compare now before value = search calm_rules depth 20

slot_matches-Calm :
    (bs : Bytes) (compare value size : ℕ) → Calm (slot_matches bs compare value size)
unfolding slot_matches
slot_matches-Calm bs compare value size =
    Calm-bind _ _ (u32_from_bytes-Calm bs) λ now. match_u32-Calm compare now now value

walk-Calm :
    (fuel : ℕ) (ram : Bytes) (compare alignment value size end cur : ℕ)
    → Calm (walk fuel ram compare alignment value size end cur)
unfolding walk
walk-Calm zero ram compare alignment value size end cur = Calm-ok []
walk-Calm (suc fuel) ram compare alignment value size end cur =
    let rest = walk-Calm fuel ram compare alignment value size end (cur + alignment) in
    Calm-if _ _ _
      (Calm-if _ _ _
        (Calm-bind _ _ (slot_matches-Calm (slice ram cur size) compare value size)
          λ kept. Calm-bind _ _ rest λ hits. Calm-ok _)
        rest)
      (Calm-ok [])

pub walk_segments-Calm :
    (ram : Bytes) (compare alignment value size : ℕ) (gs : List Segment)
    → Calm (walk_segments ram compare alignment value size gs)
unfolding walk_segments
walk_segments-Calm ram compare alignment value size [] = Calm-ok []
walk_segments-Calm ram compare alignment value size ((addr, len) ∷ gs) =
    Calm-bind _ _
      (walk-Calm (suc len) ram compare alignment value size (addr + len) (align_up addr alignment))
      λ hits.
        Calm-bind _ _ (walk_segments-Calm ram compare alignment value size gs) λ rest. Calm-ok _

recount_hit-Calm :
    (ram : Bytes) (args : CountArgs) (size : ℕ) (hit : ScanHit)
    → Calm (recount_hit ram args size hit)
unfolding recount_hit
recount_hit-Calm ram args size hit =
    let current = if spans ram hit.addr size then slice ram hit.addr size else hit.current in
    Calm-bind _ _ (u32_from_bytes-Calm current) λ now.
      Calm-bind _ _ (u32_from_bytes-Calm hit.current) λ before.
        Calm-bind _ _ (match_u32-Calm args.compare_type now before args.value) λ stays. Calm-ok _

pub recount-Calm :
    (ram : Bytes) (args : CountArgs) (size : ℕ) (hits : List ScanHit)
    → Calm (recount ram args size hits)
unfolding recount
recount-Calm ram args size [] = Calm-ok []
recount-Calm ram args size (hit ∷ hits) =
    Calm-bind _ _ (recount_hit-Calm ram args size hit)
      λ verdict. Calm-bind _ _ (recount-Calm ram args size hits) λ rest. Calm-ok _
