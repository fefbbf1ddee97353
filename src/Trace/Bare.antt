-- ===== src/Trace/Bare.antt =====
-- What `redact_value` of web/tracing.py lets through.
use nite_pr.Base.{
  ℕ, zero, suc, ◌+◌, ◌-◌, ◌≤◌, Bool, true, false, ◌≡◌, refl, ltb, if◌then◌else◌, arith,
}
use nite_pr.Base.Text.{text, eq_text, mem_text}
use nite_pr.Trace.{
  Value, bytes, str, number, dict, list, fields, null, holder, Key, named, raw, scalar, is_key,
  Items, nil, cons, Entries, empty, entry, is_dump_key, note, count_items, truncated, redact_under,
  redact_value, redact_entries, redact_items,
}

-- No text stands under the key of a hexadecimal dump.
unfoldable pub IsNoDump : Bool → Value → Type 0
IsNoDump true (str s) = ⊥
IsNoDump dump v = Unit {0}

-- A key that is not bytes.
abbrev pub IsPlainKey : Key → Type 0
IsPlainKey (named key) = Unit {0}
IsPlainKey (raw bs) = ⊥
IsPlainKey scalar = Unit {0}

-- A value built of texts, numbers, bytes, dictionaries, lists, tuples and objects with fields, with
-- no set or other container, and no bytes for a key, at any depth.
unfoldable mutual
  pub IsPlain : Value → Type 0
  IsPlain (bytes bs) = Unit {0}
  IsPlain (fields entries) = ArePlainEntries entries
  IsPlain (dict entries) = ArePlainEntries entries
  IsPlain (list items) = ArePlainItems items
  IsPlain (str s) = Unit {0}
  IsPlain (number n) = Unit {0}
  IsPlain null = Unit {0}
  IsPlain (holder items) = ⊥

  pub ArePlainEntries : Entries → Type 0
  ArePlainEntries empty = Unit {0}
  ArePlainEntries (entry key v rest) = IsPlainKey key × (IsPlain v × ArePlainEntries rest)

  pub ArePlainItems : Items → Type 0
  ArePlainItems nil = Unit {0}
  ArePlainItems (cons v rest) = IsPlain v × ArePlainItems rest

-- A value with no bytes, no set or other container, no bytes for a key, no object, no entry `self`, no text under the key of a dump, and no list of
-- more than 33 items, at any depth.
unfoldable mutual
  pub IsBare : Value → Type 0
  IsBare (bytes bs) = ⊥
  IsBare (fields entries) = ⊥
  IsBare (dict entries) = AreBareEntries entries
  IsBare (list items) = (count_items items ≤ 33) × AreBareItems items
  IsBare (str s) = Unit {0}
  IsBare (number n) = Unit {0}
  IsBare null = Unit {0}
  IsBare (holder items) = ⊥

  pub AreBareEntries : Entries → Type 0
  AreBareEntries empty = Unit {0}
  AreBareEntries (entry key v rest) =
      IsPlainKey key
      × ((is_key (text "self") key ≡ false)
          × (IsNoDump (is_dump_key key) v × (IsBare v × AreBareEntries rest)))

  pub AreBareItems : Items → Type 0
  AreBareItems nil = Unit {0}
  AreBareItems (cons v rest) = IsBare v × AreBareItems rest

note-IsBare : (n : ℕ) → IsBare (note (text "_truncated") n)
unfolding IsBare IsNoDump eq_text mem_text
note-IsBare n = (tt, (refl, (tt, (tt, tt))))

truncated-IsBare : (n : ℕ) → AreBareItems (truncated n)
unfolding IsBare
truncated-IsBare n = one_at_most (ltb 32 n)
  where
    one_at_most :
        (long : Bool)
        → AreBareItems (if long then cons (note (text "_truncated") (n - 32)) nil else nil)
    one_at_most true = (note-IsBare (n - 32), tt)
    one_at_most false = tt

count-truncated : (n : ℕ) → count_items (truncated n) ≤ 1
unfolding count_items
count-truncated n = one_at_most (ltb 32 n)
  where
    one_at_most :
        (long : Bool)
        → count_items (if long then cons (note (text "_truncated") (n - 32)) nil else nil) ≤ 1
    one_at_most true = omega arith
    one_at_most false = omega arith

-- At most `n` items stand before the rest.
count-redact_items :
    (n : ℕ) → (items rest : Items) → count_items (redact_items n items rest) ≤ n + count_items rest
unfolding count_items redact_items
count-redact_items zero items rest = omega arith
count-redact_items (suc n) nil rest = omega arith
count-redact_items (suc n) (cons v items) rest = omega (count-redact_items n items rest, arith)

at_most_33 :
    (items : Items) → count_items (redact_items 32 items (truncated (count_items items))) ≤ 33
at_most_33 items = omega (
  count-redact_items 32 items (truncated (count_items items)),
  count-truncated (count_items items),
  arith,
)

-- A text under the key of a dump is replaced.
under-IsNoDump : (dump : Bool) → (v : Value) → IsNoDump dump (redact_under dump v (redact_value v))
unfolding IsNoDump redact_under redact_value
under-IsNoDump false v = tt
under-IsNoDump true (bytes bs) = tt
under-IsNoDump true (str s) = tt
under-IsNoDump true (number n) = tt
under-IsNoDump true (dict entries) = tt
under-IsNoDump true (list items) = tt
under-IsNoDump true (fields entries) = tt
under-IsNoDump true null = tt
under-IsNoDump true (holder items) = tt

under-IsBare :
    (dump : Bool) → (v redacted : Value) → IsBare redacted → IsBare (redact_under dump v redacted)
unfolding IsBare IsNoDump redact_under eq_text mem_text
under-IsBare false v redacted h = h
under-IsBare true (bytes bs) redacted h = h
under-IsBare true (str s) redacted h = (tt, (refl, (tt, (tt, tt))))
under-IsBare true (number n) redacted h = h
under-IsBare true (dict entries) redacted h = h
under-IsBare true (list items) redacted h = h
under-IsBare true (fields entries) redacted h = h
under-IsBare true null redacted h = h
under-IsBare true (holder items) redacted h = h

-- An entry that the loop keeps does not have the key `self`.
kept-IsBare :
    (is_self : Bool)
    → (key : Key) → (v : Value) → (rest : Entries) → IsPlainKey key
    → is_key (text "self") key ≡ is_self
    → IsNoDump (is_dump_key key) v
    → IsBare v
    → AreBareEntries rest
    → AreBareEntries (if is_self then rest else entry key v rest)
unfolding IsBare
kept-IsBare true key v rest plain e no_dump bare all = all
kept-IsBare false key v rest plain e no_dump bare all = (plain, (e, (no_dump, (bare, all))))

mutual
  unfolding IsBare IsPlain IsNoDump redact_value eq_text

  value-IsBare : (v : Value) → IsPlain v → IsBare (redact_value v)
  value-IsBare (bytes bs) plain = (tt, (refl, (tt, (tt, tt))))
  value-IsBare (dict entries) plain = entries-IsBare entries plain
  value-IsBare (list items) plain = (
    at_most_33 items,
    items-IsBare 32 items (truncated (count_items items)) plain
        (truncated-IsBare (count_items items)),
  )
  value-IsBare (fields entries) plain = entries-IsBare entries plain
  value-IsBare (str s) plain = tt
  value-IsBare (number n) plain = tt
  value-IsBare null plain = tt
  value-IsBare (holder items) plain = absurd plain

  entries-IsBare :
      (entries : Entries) → ArePlainEntries entries → AreBareEntries (redact_entries entries)
  entries-IsBare empty plain = tt
  entries-IsBare (entry key item rest) plain =
      kept-IsBare (is_key (text "self") key) key _ (redact_entries rest) plain.0 refl
        (under-IsNoDump (is_dump_key key) item)
        (under-IsBare (is_dump_key key) item (redact_value item) (value-IsBare item plain.1.0))
        (entries-IsBare rest plain.1.1)

  items-IsBare :
      (n : ℕ)
      → (items rest : Items) → ArePlainItems items
      → AreBareItems rest
      → AreBareItems (redact_items n items rest)
  items-IsBare zero items rest plain h = h
  items-IsBare (suc n) nil rest plain h = h
  items-IsBare (suc n) (cons v items) rest plain h =
      (value-IsBare v plain.0, items-IsBare n items rest plain.1 h)
