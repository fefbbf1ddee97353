-- ===== src/Wire/Stream.antt =====
-- What the code relies on of a connection: a read takes the next bytes that have come in.
use nite_pr.Base.{ℕ, ◌≤◌, ◌<◌, ◌≡◌, refl, ap, ◌∙◌, subst, List, [], ◌∷◌, ◌++◌, length, arith, All}
use nite_pr.Base.Exec.{ok}
use nite_pr.Types.{Bytes}
use nite_pr.Wire.{Conn, lib, as_raised}
use nite_pr.Wire.Pack.{le_bytes, le_value}
use nite_pr.Wire.Pack.Laws.{FitsBytes, le_value-le_bytes, length-le_bytes}
use nite_pr.Wire.Requests.{sentinel, result_block_max}

-- The connection in state `s` has at least these bytes to read, and `rest` after them.
pub record Reads {S : Type 0} (conn : Conn S) (incoming : S → Bytes) : Type 0 where
  pub exact :
      (s : S) (bs rest : Bytes)
      → incoming s ≡ bs ++ rest
      → ((conn.recv_exact (length bs) s).0 ≡ ok bs)
        × (incoming (conn.recv_exact (length bs) s).1 ≡ rest)
  pub u64 :
      (s : S) (bs rest : Bytes)
      → incoming s ≡ bs ++ rest
      → length bs ≡ 8
      → ((conn.recv_u64 s).0 ≡ ok (le_value bs)) × (incoming (conn.recv_u64 s).1 ≡ rest)

-- Result blocks as the server sends them: each after its length, and the end mark.
unfoldable pub frames : List Bytes → Bytes
unfolding le_bytes
frames [] = le_bytes 8 sentinel
frames (b ∷ bs) = le_bytes 8 (length b) ++ (b ++ frames bs)

-- No block is longer than the code takes.
abbrev pub IsBlocks : List Bytes → Type 0
IsBlocks bs = All (λ b. length b ≤ result_block_max) bs

-- Progress values as the server sends them.
unfoldable pub ticks : List ℕ → Bytes
unfolding le_bytes
ticks [] = le_bytes 8 sentinel
ticks (v ∷ vs) = le_bytes 8 v ++ ticks vs

pub ++-assoc : (xs ys zs : Bytes) → (xs ++ ys) ++ zs ≡ xs ++ (ys ++ zs)
++-assoc [] ys zs = refl
++-assoc (x ∷ xs) ys zs = ap (λ l. x ∷ l) (++-assoc xs ys zs)

FitsBytes-u64 : (v : ℕ) → v < 0x1_0000_0000_0000_0000 → FitsBytes 8 v
FitsBytes-u64 v h = omega arith

module _ {S : Type 0} (conn : Conn S) (incoming : S → Bytes) (reads : Reads conn incoming) where
  -- A number that comes in is the number that was packed.
  pub recv_u64_packed :
      (s : S) (v : ℕ) (rest : Bytes)
      → v < 0x1_0000_0000_0000_0000
      → incoming s ≡ le_bytes 8 v ++ rest
      → ((lib conn.recv_u64 s).0 ≡ ok v) × (incoming (lib conn.recv_u64 s).1 ≡ rest)
  unfolding lib
  recv_u64_packed s v rest h came =
      let r = reads.u64 s (le_bytes 8 v) rest came (length-le_bytes 8 v) in
      (ap as_raised r.0 ∙ ap ok (le_value-le_bytes 8 v (FitsBytes-u64 v h)), r.1)

  recv_exact_lib :
      (s : S) (bs rest : Bytes)
      → incoming s ≡ bs ++ rest
      → ((lib (conn.recv_exact (length bs)) s).0 ≡ ok bs)
        × (incoming (lib (conn.recv_exact (length bs)) s).1 ≡ rest)
  unfolding lib
  recv_exact_lib s bs rest came = let r = reads.exact s bs rest came in (ap as_raised r.0, r.1)

  -- The same, with the number of bytes that are asked for.
  pub recv_exact_next :
      (n : ℕ) (s : S) (bs rest : Bytes)
      → length bs ≡ n
      → incoming s ≡ bs ++ rest
      → ((lib (conn.recv_exact n) s).0 ≡ ok bs) × (incoming (lib (conn.recv_exact n) s).1 ≡ rest)
  recv_exact_next n s bs rest e came =
      subst
        (λ n.
          ((lib (conn.recv_exact n) s).0 ≡ ok bs) × (incoming (lib (conn.recv_exact n) s).1 ≡ rest))
        e (recv_exact_lib s bs rest came)
