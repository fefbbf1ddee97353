-- ===== src/Transport/Mock/Memory/RoundTrip.antt =====
-- A read of the mock console after a write to it.
use nite_pr.Base.{
  ℕ, zero, suc, ◌+◌, ◌-◌, ◌≤◌, ◌<◌, ◌≡◌, refl, ap, ◌∙◌, true, false, [], ◌∷◌, length, arith,
}
use nite_pr.Base.Exec.{ok, ◌>>=◌, ◌>>◌}
use nite_pr.Constants.{write_max}
use nite_pr.Types.{Bytes}
use nite_pr.Transport.Mock.{Mock, ram_base}
use nite_pr.Transport.Mock.Memory.{byte_or_zero, set_byte, read_ram, write_ram, read, write}

length-set_byte : (ram : Bytes) (off b : ℕ) → length (set_byte ram off b) ≡ length ram
unfolding set_byte
length-set_byte [] off b = refl
length-set_byte (x ∷ xs) zero b = refl
length-set_byte (x ∷ xs) (suc off) b = ap suc (length-set_byte xs off b)

length-write_ram :
    (ram : Bytes) (address : ℕ) (bs : Bytes) → length (write_ram ram address bs) ≡ length ram
unfolding write_ram
length-write_ram ram address [] = refl
length-write_ram ram address (b ∷ bs) = ground (
  arith,
  length-write_ram ram (address + 1) bs,
  length-write_ram (set_byte ram (address - ram_base) b) (address + 1) bs,
  length-set_byte ram (address - ram_base) b,
)

byte_or_zero-set_byte :
    (ram : Bytes) (off b : ℕ) → off < length ram → byte_or_zero (set_byte ram off b) off ≡ b
unfolding byte_or_zero set_byte
byte_or_zero-set_byte [] off b h = absurd (omega arith)
byte_or_zero-set_byte (x ∷ xs) zero b h = refl
byte_or_zero-set_byte (x ∷ xs) (suc off) b h = byte_or_zero-set_byte xs off b (omega arith)

set_byte_elsewhere :
    (ram : Bytes) (off k b : ℕ) → k < off → byte_or_zero (set_byte ram off b) k ≡ byte_or_zero ram k
unfolding byte_or_zero set_byte
set_byte_elsewhere [] off k b h = refl
set_byte_elsewhere (x ∷ xs) zero k b h = absurd (omega arith)
set_byte_elsewhere (x ∷ xs) (suc off) zero b h = refl
set_byte_elsewhere (x ∷ xs) (suc off) (suc k) b h = set_byte_elsewhere xs off k b (omega arith)

write_ram_elsewhere :
    (ram : Bytes) (address k : ℕ) (bs : Bytes)
    → ram_base + k < address
    → byte_or_zero (write_ram ram address bs) k ≡ byte_or_zero ram k
unfolding write_ram
write_ram_elsewhere ram address k [] h = refl
write_ram_elsewhere ram address k (b ∷ bs) h = ground (
  arith,
  write_ram_elsewhere ram (address + 1) k bs,
  write_ram_elsewhere (set_byte ram (address - ram_base) b) (address + 1) k bs,
  set_byte_elsewhere ram (address - ram_base) k b,
)

write_ram_inside :
    (ram : Bytes) (address b : ℕ) (bs : Bytes)
    → ram_base ≤ address
    → address - ram_base < length ram
    → write_ram ram address (b ∷ bs)
      ≡ write_ram (set_byte ram (address - ram_base) b) (address + 1) bs
unfolding write_ram
write_ram_inside ram address b bs lo hi = ground arith

read_ram_inside :
    (ram : Bytes) (address n : ℕ)
    → ram_base ≤ address
    → address - ram_base < length ram
    → read_ram ram address (suc n)
      ≡ byte_or_zero ram (address - ram_base) ∷ read_ram ram (address + 1) n
unfolding read_ram
read_ram_inside ram address n lo hi = ground arith

read_ram_nothing : (ram : Bytes) (address : ℕ) → read_ram ram address 0 ≡ []
unfolding read_ram
read_ram_nothing ram address = refl

read_ram-write_ram :
    (ram : Bytes) (address : ℕ) (bs : Bytes)
    → ram_base ≤ address
    → address - ram_base + length bs ≤ length ram
    → read_ram (write_ram ram address bs) address (length bs) ≡ bs
read_ram-write_ram ram address [] lo hi = read_ram_nothing (write_ram ram address []) address
read_ram-write_ram ram address (b ∷ bs) lo hi =
    let ram' = set_byte ram (address - ram_base) b in
    let same = length-set_byte ram (address - ram_base) b in
    ap (λ r. read_ram r address (suc (length bs)))
      (write_ram_inside ram address b bs lo (omega arith))
    ∙ read_ram_inside (write_ram ram' (address + 1) bs) address (length bs) lo
        (omega (arith, length-write_ram ram' (address + 1) bs, same))
    ∙ ap (λ x. x ∷ read_ram (write_ram ram' (address + 1) bs) (address + 1) (length bs))
        (write_ram_elsewhere ram' (address + 1) (address - ram_base) bs (omega arith)
          ∙ byte_or_zero-set_byte ram (address - ram_base) b (omega arith))
    ∙ ap (λ l. b ∷ l) (read_ram-write_ram ram' (address + 1) bs (omega arith) (omega (arith, same)))

-- On a connected mock console that is not told to drop its socket, a read of the bytes that were
-- just written returns them, for a write of 1 to 4096 bytes that lies in the RAM.
pub read-write :
    (t : Mock) (pid reader address : ℕ) (bs : Bytes)
    → t.is_connected ≡ true
    → t.drop_io ≡ false
    → ram_base ≤ address
    → address - ram_base + length bs ≤ length t.ram
    → 1 ≤ length bs
    → length bs ≤ write_max
    → ((write pid address bs >> read reader address (length bs)) t).0 ≡ ok bs
unfolding read write ◌>>=◌
read-write t pid reader address bs up keeps lo hi some_bytes few =
    ground (arith, read_ram-write_ram t.ram address bs lo hi)
