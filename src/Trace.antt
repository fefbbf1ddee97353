-- ===== src/Trace.antt =====
-- web/tracing.py: which paths are traced, and `redact_value`, through which every input and output
-- of a traced method goes on its way to the tracing service.
pub mod Bare
pub mod Setup
use nite_pr.Base.{
  ℕ, zero, suc, ◌+◌, ◌-◌, Bool, true, false, not, ◌&&◌, ◌||◌, List, [], ◌∷◌, ltb, length,
  if◌then◌else◌,
}
use nite_pr.Base.Text.{Text, text, eq_text, mem_text}
use nite_pr.Types.{Bytes}

-- The key of a dictionary: a text, bytes, or any other.
pub data Key : Type 0 where
  named : Text → Key
  raw : Bytes → Key
  scalar : Key

-- A value of the dynamic language, as `redact_value` tells it apart: `bytes` and its kin, a text, a
-- dictionary, a list or a tuple, an object with `__dataclass_fields__`, and any other. Of the others,
-- `null` and `number` hold nothing, and `holder` is an object that may hold values: a set, a deque.
mutual
  pub data Value : Type 0 where
    bytes : Bytes → Value
    str : Text → Value
    number : ℕ → Value
    dict : Entries → Value
    list : Items → Value
    fields : Entries → Value
    null : Value
    holder : Items → Value

  pub data Items : Type 0 where
    nil : Items
    cons : Value → Items → Items

  pub data Entries : Type 0 where
    empty : Entries
    entry : Key → Value → Entries → Entries

-- `SKIP_PATHS`
abbrev pub skip_paths : List Text
skip_paths =
    text "/"
    ∷ text "/api/defaults"
    ∷ text "/api/read"
    ∷ text "/api/watch/poll"
    ∷ text "/api/freeze/tick"
    ∷ []

-- `s.startswith(prefix)`
unfoldable pub starts_with : Text → Text → Bool
starts_with [] s = true
starts_with (c ∷ prefix) [] = false
starts_with (c ∷ prefix) (d ∷ s) = eq_text (c ∷ []) (d ∷ []) && starts_with prefix s

unfoldable pub should_trace_path : Text → Bool
unfolding mem_text starts_with
should_trace_path path =
    if mem_text path skip_paths then false else not (starts_with (text "/static/") path)

-- `key == name`
abbrev pub is_key : Text → Key → Bool
is_key name (named key) = eq_text key name
is_key name (raw bs) = false
is_key name scalar = false

-- `key in ("data", "current", "previous")`
abbrev pub is_dump_key : Key → Bool
is_dump_key key =
    is_key (text "data") key || (is_key (text "current") key || is_key (text "previous") key)

-- One entry, which says how much was left out.
abbrev pub note : Text → ℕ → Value
note key n = dict (entry (named key) (number n) empty)

unfoldable pub count_items : Items → ℕ
count_items nil = 0
count_items (cons v vs) = suc (count_items vs)

-- What follows the first 32 items.
abbrev pub truncated : ℕ → Items
truncated n = if ltb 32 n then cons (note (text "_truncated") (n - 32)) nil else nil

-- What stands under a key in place of `item`, which redacts to `redacted`; `dump` says that the key
-- is one of the three.
unfoldable pub redact_under : Bool → Value → Value → Value
redact_under true (str s) redacted = note (text "_omitted_hex_chars") (length s)
redact_under dump item redacted = redacted

unfoldable mutual
  pub redact_value : Value → Value
  redact_value (bytes bs) = note (text "_omitted_bytes") (length bs)
  redact_value (dict entries) = dict (redact_entries entries)
  redact_value (list items) = list (redact_items 32 items (truncated (count_items items)))
  redact_value (fields entries) = dict (redact_entries entries)
  redact_value (str s) = str s
  redact_value (number n) = number n
  redact_value null = null
  redact_value (holder items) = holder items

  -- The loop over `value.items()`.
  pub redact_entries : Entries → Entries
  redact_entries empty = empty
  redact_entries (entry key item rest) =
      if is_key (text "self") key
      then redact_entries rest
      else entry key (redact_under (is_dump_key key) item (redact_value item)) (redact_entries rest)

  -- The first `n` items, and then `rest`.
  pub redact_items : ℕ → Items → Items → Items
  redact_items zero items rest = rest
  redact_items (suc n) nil rest = rest
  redact_items (suc n) (cons v items) rest = cons (redact_value v) (redact_items n items rest)
