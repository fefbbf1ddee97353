-- ===== src/Wire/Pack/Laws.antt =====
-- Numbers that are packed and unpacked.
use nite_pr.Base.{ℕ, zero, suc, ◌/◌, ◌<◌, ◌≡◌, refl, ap, [], ◌∷◌, ◌++◌, length, take, drop, arith}
use nite_pr.Base.Exec.{ok}
use nite_pr.Types.{Bytes}
use nite_pr.Wire.Pack.{le_bytes, le_value, pack_u32, pack_u64}

-- The number has no more than `n` bytes.
abbrev pub FitsBytes : ℕ → ℕ → Type 0
FitsBytes zero v = v ≡ 0
FitsBytes (suc n) v = FitsBytes n (v / 256)

pub le_value-le_bytes : (n v : ℕ) → FitsBytes n v → le_value (le_bytes n v) ≡ v
unfolding le_value le_bytes
le_value-le_bytes zero v h = omega arith
le_value-le_bytes (suc n) v h = omega (arith, le_value-le_bytes n (v / 256) h)

pub length-le_bytes : (n v : ℕ) → length (le_bytes n v) ≡ n
unfolding le_bytes
length-le_bytes zero v = refl
length-le_bytes (suc n) v = ap suc (length-le_bytes n (v / 256))

pub take-append : (xs ys : Bytes) → take (length xs) (xs ++ ys) ≡ xs
take-append [] ys = refl
take-append (x ∷ xs) ys = ap (λ l. x ∷ l) (take-append xs ys)

pub drop-append : (xs ys : Bytes) → drop (length xs) (xs ++ ys) ≡ ys
drop-append [] ys = refl
drop-append (x ∷ xs) ys = drop-append xs ys

pub pack_u32_ok : (v : ℕ) → v < 0x1_0000_0000 → (pack_u32 v ≡ ok (le_bytes 4 v)) × FitsBytes 4 v
unfolding pack_u32
pack_u32_ok v h = (ground arith, omega arith)

pub pack_u64_ok :
    (v : ℕ) → v < 0x1_0000_0000_0000_0000 → (pack_u64 v ≡ ok (le_bytes 8 v)) × FitsBytes 8 v
unfolding pack_u64
pack_u64_ok v h = (ground arith, omega arith)
