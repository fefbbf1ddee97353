-- ===== src/Scan/Match/Laws.antt =====
-- What `match_u32` decides, and the round trips of the four bytes of a u32.
use nite_pr.Base.{ℕ, ◌%◌, ◌^◌, ◌<◌, ◌≡◌, ◌≢◌, ◌↔◌, ◌⊎◌, true, false, [], ◌∷◌, ◌++◌, All, arith}
use nite_pr.Base.Exec.{ok}
use nite_pr.Constants.{
  scan_compare_exact, scan_compare_increased, scan_compare_decreased, scan_compare_changed,
  scan_compare_unchanged, scan_compare_unknown,
}
use nite_pr.Types.{Bytes}
use nite_pr.Scan.Parse.{require_first_compare, require_next_compare}
use nite_pr.Scan.Match.{mask32, u32_from_bytes, u32_to_bytes, match_u32}

-- The verdict that an accepted comparison stands for, as a relation between the masked values.
abbrev pub Verdict : ℕ → ℕ → ℕ → ℕ → Type 0
Verdict c cur prev val =
    ((c ≡ scan_compare_exact) × (cur ≡ val))
    ⊎ ((c ≡ scan_compare_increased) × (prev < cur))
    ⊎ ((c ≡ scan_compare_decreased) × (cur < prev))
    ⊎ ((c ≡ scan_compare_changed) × (cur ≢ prev))
    ⊎ ((c ≡ scan_compare_unchanged) × (cur ≡ prev))
    ⊎ ((c ≡ scan_compare_unknown) × (0 < cur))

-- `match_u32` keeps a hit exactly when the masked values stand in the relation of the comparison;
-- this is stated for every comparison id, also for one that it refuses.
pub match_u32_iff :
    (c cur prev val : ℕ)
    → (match_u32 c cur prev val ≡ ok true) ↔ Verdict c (mask32 cur) (mask32 prev) (mask32 val)
unfolding match_u32
match_u32_iff c cur prev val = (λ h. ground arith, λ v. ground arith)

-- A comparison that the first scan or a next scan accepts never makes `match_u32` raise: it
-- answers with a Boolean.
pub match_u32_total :
    (c cur prev val : ℕ)
    → (require_first_compare c ≡ ok tt) ⊎ (require_next_compare c ≡ ok tt)
    → (match_u32 c cur prev val ≡ ok true) ⊎ (match_u32 c cur prev val ≡ ok false)
unfolding match_u32 require_first_compare require_next_compare
match_u32_total c cur prev val h = ground arith

-- Packing a number as a u32 and unpacking it gives the number modulo 2 ^ 32, whatever bytes
-- follow; the packed form is four bytes, each below 256.
pub u32_from_bytes-u32_to_bytes :
    (v : ℕ) (rest : Bytes)
    → (u32_from_bytes (u32_to_bytes v ++ rest) ≡ ok (v % 2 ^ 32))
      × All (λ b. b < 256) (u32_to_bytes v)
unfolding u32_from_bytes u32_to_bytes
u32_from_bytes-u32_to_bytes v rest = ground arith

-- Unpacking four bytes and packing the number again gives the four bytes back.
pub u32_to_bytes-u32_from_bytes :
    (a b c d : ℕ) {v : ℕ}
    → All (λ b. b < 256) (a ∷ b ∷ c ∷ d ∷ [])
    → u32_from_bytes (a ∷ b ∷ c ∷ d ∷ []) ≡ ok v
    → u32_to_bytes v ≡ a ∷ b ∷ c ∷ d ∷ []
unfolding u32_from_bytes u32_to_bytes
u32_to_bytes-u32_from_bytes a b c d h e = ground arith
