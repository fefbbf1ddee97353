-- ===== src/Wire/Pack.antt =====
-- `struct.pack` and `struct.unpack` for little-endian unsigned integers.
pub mod Laws
use nite_pr.Base.{ℕ, zero, suc, ◌+◌, ◌*◌, ◌/◌, ◌%◌, ◌^◌, List, [], ◌∷◌, ltb, if◌then◌else◌}
use nite_pr.Base.Exec.{Outcome, ok, err}
use nite_pr.Types.{Bytes}
use nite_pr.Wire.{Failure, struct_error}

-- The `n` low bytes, the lowest first.
unfoldable pub le_bytes : ℕ → ℕ → Bytes
le_bytes zero v = []
le_bytes (suc n) v = v % 256 ∷ le_bytes n (v / 256)

-- The number that bytes stand for, the lowest first.
unfoldable pub le_value : Bytes → ℕ
le_value [] = 0
le_value (b ∷ bs) = b + 256 * le_value bs

-- `struct.pack("<B", v)`, `struct.pack("<I", v)` and `struct.pack("<Q", v)`
unfoldable pub pack_u8 : ℕ → Outcome Failure Bytes
unfolding le_bytes
pack_u8 v = if ltb v 256 then ok (le_bytes 1 v) else err struct_error

unfoldable pub pack_u32 : ℕ → Outcome Failure Bytes
unfolding le_bytes
pack_u32 v = if ltb v 0x1_0000_0000 then ok (le_bytes 4 v) else err struct_error

unfoldable pub pack_u64 : ℕ → Outcome Failure Bytes
unfolding le_bytes
pack_u64 v = if ltb v 0x1_0000_0000_0000_0000 then ok (le_bytes 8 v) else err struct_error
