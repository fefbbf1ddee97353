-- ===== src/Base/Dict.antt =====
-- A Python `dict` with numbers for keys, in insertion order.
use Prim.Native.Nat.{ℕ, suc, ◌≤◌, ◌<◌}
use mathlib.Core.Path.{◌≡◌, refl, ap}
use mathlib.Core.Logic.{◌≢◌}
use mathlib.Core.Option.{Option, none, some}
use mathlib.Core.List.{List, [], ◌∷◌}
use native.Mathlib.Omega.{arith}
use nite_pr.Base.Tests.{◌==◌, if◌then◌else◌}
use nite_pr.Base.Lists.{length}

abbrev pub Dict : Type 0 → Type 0
Dict V = List (ℕ × V)

module _ {V : Type 0} where
  -- `d.get(k)`
  unfoldable pub lookup : ℕ → Dict V → Option V
  lookup k [] = none
  lookup k ((j, v) ∷ d) = if k == j then some v else lookup k d

  -- `d[k] = v`
  unfoldable pub insert : ℕ → V → Dict V → Dict V
  insert k v [] = (k, v) ∷ []
  insert k v ((j, w) ∷ d) = if k == j then (k, v) ∷ d else (j, w) ∷ insert k v d

  -- `del d[k]`
  unfoldable pub erase : ℕ → Dict V → Dict V
  erase k [] = []
  erase k ((j, w) ∷ d) = if k == j then d else (j, w) ∷ erase k d

  -- `d.values()`
  unfoldable pub values : Dict V → List V
  values [] = []
  values ((j, w) ∷ d) = w ∷ values d

  -- Every key is below `n`.
  abbrev pub KeysBelow : ℕ → Dict V → Type 0
  KeysBelow n [] = Unit
  KeysBelow n ((j, w) ∷ d) = (j < n) × KeysBelow n d

  -- No key is listed twice.
  abbrev pub KeysDiffer : Dict V → Type 0
  KeysDiffer [] = Unit
  KeysDiffer ((j, w) ∷ d) = (lookup j d ≡ none) × KeysDiffer d

  pub lookup-insert :
      (k j : ℕ) (v : V) (d : Dict V)
      → lookup j (insert k v d) ≡ (if j == k then some v else lookup j d)
  unfolding lookup insert
  lookup-insert k j v [] = ground arith
  lookup-insert k j v ((i, w) ∷ d) = ground (arith, lookup-insert k j v d)

  pub lookup-erase_ne : (k j : ℕ) (d : Dict V) → j ≢ k → lookup j (erase k d) ≡ lookup j d
  unfolding lookup erase
  lookup-erase_ne k j [] h = refl
  lookup-erase_ne k j ((i, w) ∷ d) h = ground (arith, lookup-erase_ne k j d h)

  pub lookup-erase_self : (k : ℕ) (d : Dict V) → KeysDiffer d → lookup k (erase k d) ≡ none
  unfolding lookup erase
  lookup-erase_self k [] h = refl
  lookup-erase_self k ((i, w) ∷ d) h = ground (arith, lookup-erase_self k d h.1)

  pub lookup-KeysBelow : (n : ℕ) (d : Dict V) → KeysBelow n d → lookup n d ≡ none
  unfolding lookup
  lookup-KeysBelow n [] h = refl
  lookup-KeysBelow n ((i, w) ∷ d) h = ground (arith, lookup-KeysBelow n d h.1)

  pub KeysBelow-mono : (n : ℕ) (d : Dict V) → KeysBelow n d → KeysBelow (suc n) d
  KeysBelow-mono n [] h = tt
  KeysBelow-mono n ((i, w) ∷ d) h = (omega arith, KeysBelow-mono n d h.1)

  pub KeysBelow-erase : (n k : ℕ) (d : Dict V) → KeysBelow n d → KeysBelow n (erase k d)
  unfolding erase
  KeysBelow-erase n k [] h = tt
  KeysBelow-erase n k ((i, w) ∷ d) h = ground (arith, KeysBelow-erase n k d h.1)

  pub KeysDiffer-erase : (k : ℕ) (d : Dict V) → KeysDiffer d → KeysDiffer (erase k d)
  unfolding erase
  KeysDiffer-erase k [] h = tt
  KeysDiffer-erase k ((i, w) ∷ d) h =
      ground (arith, KeysDiffer-erase k d h.1, lookup-erase_ne k i d)

  pub length-erase-le : (k : ℕ) (d : Dict V) → length (erase k d) ≤ length d
  unfolding erase
  length-erase-le k [] = omega arith
  length-erase-le k ((i, w) ∷ d) = ground (arith, length-erase-le k d)

  pub length-values : (d : Dict V) → length (values d) ≡ length d
  unfolding values
  length-values [] = refl
  length-values ((i, w) ∷ d) = ap suc (length-values d)

  -- What a fresh key adds.
  pub insert_fresh :
      (n : ℕ) (v : V) (d : Dict V)
      → KeysBelow n d
      → KeysDiffer d
      → KeysBelow (suc n) (insert n v d)
        × KeysDiffer (insert n v d)
        × (length (insert n v d) ≡ suc (length d))
  unfolding insert lookup
  insert_fresh n v [] b u = (omega arith, (refl, tt), refl)
  insert_fresh n v ((i, w) ∷ d) b u =
      ground (arith, insert_fresh n v d b.1 u.1, lookup-insert n i v d)
