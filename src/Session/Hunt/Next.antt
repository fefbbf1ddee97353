-- ===== src/Session/Hunt/Next.antt =====
-- `scan_next`, `_stash_if_small` and `_local_next` of web/nitepr5_core/session.py.
use nite_pr.Base.{
  ℕ, Bool, Option, none, some, List, [], ◌∷◌, length, take, ltb, ◌==◌, if◌then◌else◌,
}
use nite_pr.Base.Int.{pos}
use nite_pr.Base.Text.{Text}
use nite_pr.Base.Exec.{pure, raise, lift, modify, ◌>>=◌, ◌>>◌}
use nite_pr.Constants.{results_max}
use nite_pr.Types.{Dyn, ScanHit}
use nite_pr.Errors.{undo_too_large}
use nite_pr.Scan.Parse.{value_size}
use nite_pr.Scan.Match.{u32_from_bytes, match_u32}
use nite_pr.Scan.Segments.{cap_get_count}
use nite_pr.Scan.Classify.{hits_from_resident}
use nite_pr.Transport.{Transport}
use nite_pr.Session.{ScanState, Engine, turbo, iterative, local, Method, via, require_connected}
use nite_pr.Session.Memory.{read}
use nite_pr.Session.Hunt.Plan.{plan_next}
use nite_pr.Session.Hunt.Common.{active_scan, the_scan, on_scan, waiting, hunting}

-- `self._scan.iterative_all or []`
abbrev or_no_hits : Option (List ScanHit) → List ScanHit
or_no_hits none = []
or_no_hits (some hits) = hits

-- `self._scan.undo_stack.append((self._scan.count, self._scan.hits))`
abbrev pub push_undo : ScanState → ScanState
push_undo scan = record scan { undo_stack = (scan.count, scan.hits) ∷ scan.undo_stack }

module _ {T : Type 0} (tr : Transport T) (me : ℕ) where
  unfoldable pub set_hits : List ScanHit → Method T (Unit {0})
  set_hits hits = modify (on_scan (λ scan. record scan { hits = some hits }))

  unfoldable pub stash_iterative : Option (List ScanHit) → Method T (Unit {0})
  unfolding set_hits
  stash_iterative none = pure tt
  stash_iterative (some all) = set_hits (take results_max all)

  -- The engines' ways to fetch the hits of a small generation.
  unfoldable pub stash_by_engine : ScanState → Engine → Method T (Unit {0})
  unfolding value_size hits_from_resident set_hits stash_iterative
  stash_by_engine scan turbo = do
    size ← lift (value_size scan.value_type)
    rows ← via (tr.scan_get_resident 0 (cap_get_count results_max scan.count) size)
    set_hits (hits_from_resident rows)
  stash_by_engine scan iterative = stash_iterative scan.iterative_all
  stash_by_engine scan local = stash_iterative scan.iterative_all

  unfoldable pub stash_hits : ScanState → Option (List ScanHit) → Method T (Unit {0})
  unfolding stash_by_engine set_hits
  stash_hits scan (some hits) = pure tt
  stash_hits scan none =
      if scan.count == 0
      then set_hits []
      else if ltb results_max scan.count
      then pure tt
      else stash_by_engine scan scan.engine

  unfoldable pub stash_if_small : Method T (Unit {0})
  unfolding stash_hits the_scan
  stash_if_small = do scan ← the_scan; stash_hits scan scan.hits

  -- One round of the loop of `_local_next`: the hit as it is now, and whether it stays.
  unfoldable pub compare_hit : ℕ → ℕ → ℕ → ℕ → ScanHit → Method T (Bool × ScanHit)
  unfolding read u32_from_bytes match_u32
  compare_hit pid size compare value hit = do
    current ← read tr me (Dyn.int (pos pid)) (Dyn.int (pos hit.addr)) (Dyn.int (pos size))
    now ← lift (u32_from_bytes current)
    before ← lift (u32_from_bytes hit.current)
    stays ← lift (match_u32 compare now before value)
    pure (stays, record { addr = hit.addr; current = current; previous = some hit.current })

  unfoldable pub compare_hits : ℕ → ℕ → ℕ → ℕ → List ScanHit → Method T (List ScanHit)
  unfolding compare_hit
  compare_hits pid size compare value [] = pure []
  compare_hits pid size compare value (hit ∷ hits) = do
    verdict ← compare_hit pid size compare value hit
    rest ← compare_hits pid size compare value hits
    pure (if verdict.0 then verdict.1 ∷ rest else rest)

  unfoldable pub local_next : ℕ → ℕ → ScanState → Option (List ScanHit) → Method T ℕ
  unfolding compare_hits value_size
  local_next compare value scan none = raise (undo_too_large scan.count results_max)
  local_next compare value scan (some hits) = do
    size ← lift (value_size scan.value_type)
    nxt ← compare_hits scan.pid size compare value hits
    modify (on_scan (λ scan. record scan { hits = some nxt; count = length nxt }))
    pure (length nxt)

  unfoldable pub iterative_next : ℕ → ℕ → ScanState → Method T ℕ
  iterative_next compare value scan = do
    nxt ← via (
        tr.scan_next_iterative scan.pid scan.segments (or_no_hits scan.iterative_all)
          (record { value_type = scan.value_type; compare_type = compare; value = value }))
    modify (
        on_scan (λ scan. record scan { iterative_all = some nxt; hits = none; count = length nxt }))
    pure (length nxt)

  unfoldable pub turbo_next : ℕ → ℕ → ScanState → Method T ℕ
  turbo_next compare value scan = do
    count ← via (
        tr.scan_count_resident
          (record { value_type = scan.value_type; compare_type = compare; value = value }))
    modify (on_scan (λ scan. record scan { hits = none; count = count }))
    pure count

  unfoldable pub next_by_engine : ℕ → ℕ → ScanState → Engine → Method T ℕ
  unfolding local_next iterative_next turbo_next
  next_by_engine compare value scan local = local_next compare value scan scan.hits
  next_by_engine compare value scan iterative = iterative_next compare value scan
  next_by_engine compare value scan turbo = turbo_next compare value scan

  -- The body of the two `with` blocks.
  unfoldable pub next_scan : ℕ → ℕ → Method T ℕ
  unfolding stash_if_small next_by_engine the_scan waiting
  next_scan compare value = waiting tr (do
    stash_if_small
    modify (on_scan push_undo)
    scan ← the_scan
    next_by_engine compare value scan scan.engine)

  unfoldable pub scan_next : Text → Dyn → Method T ℕ
  unfolding require_connected active_scan plan_next hunting next_scan
  scan_next compare value = do
    require_connected tr
    active_scan
    plan ← lift (plan_next compare value)
    hunting tr me (next_scan plan.0 plan.1)
