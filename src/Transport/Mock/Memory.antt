-- ===== src/Transport/Mock/Memory.antt =====
-- `read`, `write` and `poke_u32` of `MockTransport`.
pub mod RoundTrip
use nite_pr.Base.{
  ℕ, zero, suc, ◌+◌, ◌-◌, Bool, ◌&&◌, [], ◌∷◌, ◌++◌, leb, ltb, ◌==◌, length, if◌then◌else◌,
}
use nite_pr.Base.Int.{pos}
use nite_pr.Base.Exec.{raise_if, gets, modify, ◌>>=◌, ◌>>◌}
use nite_pr.Constants.{read_max, write_max}
use nite_pr.Types.{Dyn, Bytes}
use nite_pr.Errors.{read_too_large, invalid_read_size, invalid_write_size, write_too_large, foreign}
use nite_pr.Scan.Match.{u32_to_bytes}
use nite_pr.Transport.Mock.{Action, ram_base, require, maybe_drop}

-- `ram[off]` where the offset is in range; 0 is never read.
unfoldable pub byte_or_zero : Bytes → ℕ → ℕ
byte_or_zero [] off = 0
byte_or_zero (b ∷ bs) zero = b
byte_or_zero (b ∷ bs) (suc off) = byte_or_zero bs off

-- `ram[off] = b` where the offset is in range, and nothing where it is not.
unfoldable pub set_byte : Bytes → ℕ → ℕ → Bytes
set_byte [] off b = []
set_byte (x ∷ xs) zero b = b ∷ xs
set_byte (x ∷ xs) (suc off) b = x ∷ set_byte xs off b

-- `0 <= off < len(self._ram)`, for the offset of an address.
abbrev pub in_ram : Bytes → ℕ → Bool
in_ram ram address = leb ram_base address && ltb (address - ram_base) (length ram)

-- The loop of `read`: a byte outside the RAM stays 0.
unfoldable pub read_ram : Bytes → ℕ → ℕ → Bytes
unfolding byte_or_zero
read_ram ram address zero = []
read_ram ram address (suc n) =
    (if in_ram ram address then byte_or_zero ram (address - ram_base) else 0)
    ∷ read_ram ram (address + 1) n

-- The loop of `write`: a byte outside the RAM is dropped.
unfoldable pub write_ram : Bytes → ℕ → Bytes → Bytes
unfolding set_byte
write_ram ram address [] = ram
write_ram ram address (b ∷ bs) =
    write_ram (if in_ram ram address then set_byte ram (address - ram_base) b else ram)
      (address + 1) bs

unfoldable pub read : (pid address len : ℕ) → Action Bytes
unfolding require maybe_drop read_ram
read pid address len = do
  require
  maybe_drop
  raise_if (ltb read_max len) (read_too_large len read_max)
  raise_if (len == 0) (invalid_read_size (Dyn.int (pos len)))
  gets (λ t. read_ram t.ram address len)

unfoldable pub write : (pid address : ℕ) → Bytes → Action (Unit {0})
unfolding require maybe_drop write_ram
write pid address payload = do
  require
  maybe_drop
  raise_if (length payload == 0) (invalid_write_size (Dyn.int (pos 0)))
  raise_if (ltb write_max (length payload)) (write_too_large (length payload) write_max)
  modify (λ t. record t { write_calls = t.write_calls ++ (pid, address, payload) ∷ [] })
  modify (λ t. record t { ram = write_ram t.ram address payload })

-- `poke_u32` refuses an address outside the RAM by a `ValueError`.
unfoldable pub poke_u32 : ℕ → ℕ → Action (Unit {0})
unfolding write_ram u32_to_bytes
poke_u32 address value = do
  size ← gets (λ t. length t.ram)
  raise_if (ltb address ram_base) foreign
  raise_if (ltb size (address - ram_base + 4)) foreign
  modify (λ t. record t { ram = write_ram t.ram address (u32_to_bytes value) })
