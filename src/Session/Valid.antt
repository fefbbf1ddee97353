-- ===== src/Session/Valid.antt =====
-- The invariant of the watches and the freezes: the caps, the ids and the shape of the entries.
pub mod Rules
pub mod Methods
pub mod Hunting
pub mod Narrowing
pub mod Cheating
pub mod Serving
use nite_pr.Base.{
  ℕ, suc, ◌+◌, ◌≤◌, ◌<◌, ◌≡◌, refl, Bool, true, false, Option, none, some, List, [], ◌∷◌, arith,
  length, is_some, ◌⊎◌, inl, inr, Bool-cases,
}
use nite_pr.Base.Int.{ℤ, pos, negsuc}
use nite_pr.Base.Text.{Text}
use nite_pr.Base.Dict.{
  Dict, lookup, insert, erase, values, KeysBelow, KeysDiffer, KeysBelow-erase, KeysDiffer-erase,
  length-erase-le, insert_fresh,
}
use nite_pr.Base.Exec.{Outcome, ok, err, blocked, Exec, ◌>>=◌}
use nite_pr.Base.Exec.Keeps.{Keeps, Ends}
use nite_pr.Constants.{watch_max, freeze_max, freeze_size_min, freeze_size_max}
use nite_pr.Types.{Dyn, Bytes, WatchEntry, FreezeEntry}
use nite_pr.Errors.{Error}
use nite_pr.Session.{Session, Method, clear_pins, u64_max, require_addr}
use nite_pr.Session.Pins.{
  watch_size, freeze_payload, pin_watch, pin_freeze, store_watch, store_freeze, watch_remove,
  freeze_remove,
}

module _ {V : Type 0} where
  -- Every entry of a dictionary satisfies a predicate of its key and its value.
  abbrev pub Entries : (ℕ → V → Type 0) → Dict V → Type 0
  Entries P [] = Unit
  Entries P ((k, v) ∷ d) = P k v × Entries P d

  Entries-insert :
      (P : ℕ → V → Type 0) (k : ℕ) (v : V) (d : Dict V)
      → P k v
      → Entries P d
      → Entries P (insert k v d)
  unfolding insert
  Entries-insert P k v [] p h = (p, tt)
  Entries-insert P k v ((j, w) ∷ d) p h = ground (arith, Entries-insert P k v d p h.1)

  Entries-erase : (P : ℕ → V → Type 0) (k : ℕ) (d : Dict V) → Entries P d → Entries P (erase k d)
  unfolding erase
  Entries-erase P k [] h = tt
  Entries-erase P k ((j, w) ∷ d) h = ground (arith, Entries-erase P k d h.1)

  -- A dictionary of numbered entries: at most `cap` of them, under different ids below the next
  -- one, each entry as `P` says.
  pub record IsTable (P : ℕ → V → Type 0) (cap next : ℕ) (d : Dict V) : Type 0 where
    pub within : length d ≤ cap
    pub below : KeysBelow next d
    pub differ : KeysDiffer d
    pub entries : Entries P d

  pub IsTable-insert :
      (P : ℕ → V → Type 0) (cap next : ℕ) (v : V) (d : Dict V)
      → length d < cap
      → P next v
      → IsTable P cap next d
      → IsTable P cap (next + 1) (insert next v d)
  IsTable-insert P cap next v d room p h =
      let (below, differ, count) = insert_fresh next v d h.below h.differ in
      let e : next + 1 ≡ suc next = omega arith in
      record {
        within = omega (arith, count);
        below = rw e below;
        differ = differ;
        entries = Entries-insert P next v d p h.entries;
      }

  pub IsTable-erase :
      (P : ℕ → V → Type 0) (cap next k : ℕ) (d : Dict V)
      → IsTable P cap next d
      → IsTable P cap next (erase k d)
  IsTable-erase P cap next k d h = record {
    within = omega (arith, length-erase-le k d, h.within);
    below = KeysBelow-erase next k d h.below;
    differ = KeysDiffer-erase k d h.differ;
    entries = Entries-erase P k d h.entries;
  }

-- A watch reads 1, 2, 4 or 8 bytes at an address that fits a u64, and stands under its id.
abbrev pub IsWatch : ℕ → WatchEntry → Type 0
IsWatch k e = (e.id ≡ k) × ((e.n ≡ 1) ⊎ (e.n ≡ 2) ⊎ (e.n ≡ 4) ⊎ (e.n ≡ 8)) × (e.addr ≤ u64_max)

-- A freeze writes 1 to 8 bytes at an address that fits a u64, and stands under its id.
abbrev pub IsFreeze : ℕ → FreezeEntry → Type 0
IsFreeze k e =
    (e.id ≡ k)
    × (freeze_size_min ≤ length e.content)
    × (length e.content ≤ freeze_size_max)
    × (e.addr ≤ u64_max)

module _ {T : Type 0} where
  abbrev pub IsValid : Session T → Type 0
  IsValid s =
      IsTable IsWatch watch_max s.next_watch_id s.watches
      × IsTable IsFreeze freeze_max s.next_freeze_id s.freezes

  pub clear_pins-IsValid : (s : Session T) → IsValid (clear_pins s)
  clear_pins-IsValid s = (
    record { within = omega arith; below = tt; differ = tt; entries = tt },
    record { within = omega arith; below = tt; differ = tt; entries = tt },
  )

  -- `m` keeps the invariant, also where it is blocked.
  abbrev pub KeepsValid : {A : Type 0} → Method T A → Type 0
  KeepsValid m = Keeps IsValid IsValid m

  pub store_watch-IsValid :
      (pid addr n : ℕ) (label : Text)
      → (n ≡ 1) ⊎ (n ≡ 2) ⊎ (n ≡ 4) ⊎ (n ≡ 8)
      → addr ≤ u64_max
      → KeepsValid (store_watch pid addr n label)
  unfolding store_watch ◌>>=◌
  store_watch-IsValid pid addr n label size fits = record {
    at = λ s h. ground (
      arith,
      IsTable-insert IsWatch watch_max s.next_watch_id
          (record { id = s.next_watch_id; pid = pid; addr = addr; n = n; label = label }) s.watches,
    );
  }

  pub store_freeze-IsValid :
      (pid addr : ℕ) (content : Bytes)
      → freeze_size_min ≤ length content
      → length content ≤ freeze_size_max
      → addr ≤ u64_max
      → KeepsValid (store_freeze pid addr content)
  unfolding store_freeze ◌>>=◌
  store_freeze-IsValid pid addr content lo hi fits = record {
    at = λ s h. ground (
      arith,
      IsTable-insert IsFreeze freeze_max s.next_freeze_id
          (record { id = s.next_freeze_id; pid = pid; addr = addr; content = content }) s.freezes,
    );
  }

  pub watch_remove-IsValid : (id : ℤ) → KeepsValid (watch_remove id)
  unfolding watch_remove
  watch_remove-IsValid (pos id) = record {
    at = λ s h. ground (arith, IsTable-erase IsWatch watch_max s.next_watch_id id s.watches h.0);
  }
  watch_remove-IsValid (negsuc id) = record { at = λ s h. h }

  pub freeze_remove-IsValid : (id : ℤ) → KeepsValid (freeze_remove id)
  unfolding freeze_remove
  freeze_remove-IsValid (pos id) = record {
    at = λ s h. ground (arith, IsTable-erase IsFreeze freeze_max s.next_freeze_id id s.freezes h.1);
  }
  freeze_remove-IsValid (negsuc id) = record { at = λ s h. h }

-- What the checks of the arguments let through.
pub watch_size_ok :
    (arg : Dyn) (n : ℕ) → watch_size arg ≡ ok n → (n ≡ 1) ⊎ (n ≡ 2) ⊎ (n ≡ 4) ⊎ (n ≡ 8)
unfolding watch_size
watch_size_ok (Dyn.int (pos k)) n h = ground arith
watch_size_ok _ n h = cc

pub freeze_payload_ok :
    (arg : Dyn) (content : Bytes)
    → freeze_payload arg ≡ ok content
    → (freeze_size_min ≤ length content) × (length content ≤ freeze_size_max)
unfolding freeze_payload
freeze_payload_ok (Dyn.bytes bs) content h = ground arith
freeze_payload_ok _ content h = cc

pub require_addr_ok : (arg : Dyn) (a : ℕ) → require_addr arg ≡ ok a → a ≤ u64_max
unfolding require_addr
require_addr_ok (Dyn.int (pos k)) a h = ground arith
require_addr_ok _ a h = cc
