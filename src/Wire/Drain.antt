-- ===== src/Wire/Drain.antt =====
-- The two loops that read until the end mark: over the result blocks of a value scan, and over the
-- progress values of a snapshot.
use nite_pr.Base.{
  ℕ, zero, suc, ◌≤◌, ◌<◌, ◌≡◌, refl, ap, sym, ◌∙◌, subst, ◌&&◌, List, [], ◌∷◌, ◌++◌, length, arith,
  All, ltb, ◌==◌, if◌then◌else◌,
}
use nite_pr.Base.Exec.{Outcome, ok, err, pure, raise, ◌>>=◌, ◌>>◌}
use nite_pr.Base.Exec.Steps.{bind-ok, catch-ok}
use nite_pr.Types.{Bytes}
use nite_pr.Errors.{scan_unsupported}
use nite_pr.Wire.{Failure, own, Conn, lib}
use nite_pr.Wire.Pack.{le_bytes}
use nite_pr.Wire.Requests.{
  sentinel, result_block_max, drain_result_blocks, drain_progress, unsupported_if, is_broken,
}
use nite_pr.Wire.Stream.{Reads, frames, IsBlocks, ticks, ++-assoc, recv_u64_packed, recv_exact_next}

-- A call has returned `a` and left `rest` to be read.
abbrev pub Leaves :
    {S A : Type 0} → (incoming : S → Bytes) → A → Bytes → Outcome Failure A × S → Type 0
Leaves incoming a rest r = (r.0 ≡ ok a) × (incoming r.1 ≡ rest)

-- A call has raised that the scan is not supported, with `rest` not read.
abbrev pub Refuses :
    {S A : Type 0} → (incoming : S → Bytes) → Bytes → Outcome Failure A × S → Type 0
Refuses incoming rest r = (r.0 ≡ err (own scan_unsupported)) × (incoming r.1 ≡ rest)

module _ {S : Type 0} (conn : Conn S) (incoming : S → Bytes) (reads : Reads conn incoming) where
  -- The loop's turn on a length that has come in.
  drain_turn :
      (fuel v : ℕ) (s : S) (rest : Bytes)
      → v < 0x1_0000_0000_0000_0000
      → incoming s ≡ le_bytes 8 v ++ rest
      → (t : S) × (incoming t ≡ rest)
        × (drain_result_blocks conn (suc fuel) s
            ≡ (if v == sentinel
                  then pure tt
                  else (if ltb result_block_max v
                      then raise (own scan_unsupported)
                      else (lib (conn.recv_exact v) >> drain_result_blocks conn fuel)))
                t)
  unfolding drain_result_blocks
  drain_turn fuel v s rest h came =
      let r = recv_u64_packed conn incoming reads s v rest h came in
      ((lib conn.recv_u64 s).1, r.1, bind-ok (lib conn.recv_u64) _ s r.0)

  -- The end mark ends the loop.
  drain_end :
      (fuel : ℕ) (s : S) (rest : Bytes)
      → incoming s ≡ le_bytes 8 sentinel ++ rest
      → Leaves incoming tt rest (drain_result_blocks conn (suc fuel) s)
  unfolding pure
  drain_end fuel s rest came =
      let (t, at, turn) = drain_turn fuel sentinel s rest (omega arith) came in
      subst (Leaves incoming tt rest) (sym turn) (refl, at)

  -- A block is read whole, and the loop goes on.
  drain_block :
      (fuel : ℕ) (b : Bytes) (s : S) (rest : Bytes)
      → length b ≤ result_block_max
      → incoming s ≡ le_bytes 8 (length b) ++ (b ++ rest)
      → (t : S) × (incoming t ≡ rest)
        × (drain_result_blocks conn (suc fuel) s ≡ drain_result_blocks conn fuel t)
  unfolding ◌>>=◌
  drain_block fuel b s rest h came =
      let (t, at, turn) = drain_turn fuel (length b) s (b ++ rest) (omega arith) came in
      let r = recv_exact_next conn incoming reads (length b) t b rest refl at in
      let taken : (if length b == sentinel
              then pure tt
              else (if ltb result_block_max (length b)
                  then raise (own scan_unsupported)
                  else (lib (conn.recv_exact (length b)) >> drain_result_blocks conn fuel)))
            t
          ≡ (lib (conn.recv_exact (length b)) >> drain_result_blocks conn fuel) t =
        ground arith in
      (
        (lib (conn.recv_exact (length b)) t).1,
        r.1,
        turn
            ∙ taken
            ∙ bind-ok (lib (conn.recv_exact (length b))) (λ _. drain_result_blocks conn fuel) t r.0,
      )

  -- The blocks up to the end mark, and nothing after it.
  pub drain_result_blocks-frames :
      (fuel : ℕ) (bs : List Bytes) (s : S) (rest : Bytes)
      → length bs < fuel
      → IsBlocks bs
      → incoming s ≡ frames bs ++ rest
      → Leaves incoming tt rest (drain_result_blocks conn fuel s)
  unfolding frames
  drain_result_blocks-frames zero bs s rest few small came = absurd (omega arith)
  drain_result_blocks-frames (suc fuel) [] s rest few small came = drain_end fuel s rest came
  drain_result_blocks-frames (suc fuel) (b ∷ bs) s rest few (h, small) came =
      let split =
        came
        ∙ ++-assoc (le_bytes 8 (length b)) (b ++ frames bs) rest
        ∙ ap (λ l. le_bytes 8 (length b) ++ l) (++-assoc b (frames bs) rest) in
      let (t, at, step) = drain_block fuel b s (frames bs ++ rest) h split in
      subst (Leaves incoming tt rest) (sym step)
        (drain_result_blocks-frames fuel bs t rest (omega arith) small at)

  -- A block that is too long is refused where its length has been read.
  pub drain_result_blocks-too_long :
      (fuel v : ℕ) (s : S) (rest : Bytes)
      → result_block_max < v
      → v < sentinel
      → incoming s ≡ le_bytes 8 v ++ rest
      → Refuses incoming rest (drain_result_blocks conn (suc fuel) s)
  unfolding raise
  drain_result_blocks-too_long fuel v s rest big below came =
      let (t, at, turn) = drain_turn fuel v s rest (omega arith) came in
      let refused : (if v == sentinel
              then pure tt
              else (if ltb result_block_max v
                  then raise (own scan_unsupported)
                  else (lib (conn.recv_exact v) >> drain_result_blocks conn fuel)))
            t
          ≡ (err (own scan_unsupported), t) =
        ground arith in
      subst (Refuses incoming rest) (sym (turn ∙ refused)) (refl, at)

-- A progress value that the plan allows.
abbrev pub InPlan : (total_bytes v : ℕ) → Type 0
InPlan total_bytes v = (v < sentinel) × (0 < total_bytes → v ≤ total_bytes)

module _ {S : Type 0} (conn : Conn S) (incoming : S → Bytes) (reads : Reads conn incoming) where
  progress_turn :
      (left total v : ℕ) (s : S) (rest : Bytes)
      → v < 0x1_0000_0000_0000_0000
      → incoming s ≡ le_bytes 8 v ++ rest
      → (t : S) × (incoming t ≡ rest)
        × (drain_progress conn (suc left) total s
            ≡ (if v == sentinel
                  then pure tt
                  else (if ltb 0 total && ltb total v
                      then raise (own scan_unsupported)
                      else drain_progress conn left total))
                t)
  unfolding drain_progress
  progress_turn left total v s rest h came =
      let r = recv_u64_packed conn incoming reads s v rest h came in
      let m = unsupported_if is_broken (lib conn.recv_u64) in
      let caught = catch-ok (lib conn.recv_u64) _ s r.0 in
      ((m s).1, ap (λ x. incoming x.1) caught ∙ r.1, bind-ok m _ s (ap (λ x. x.0) caught))

  -- Progress within the plan is read up to the end mark, and nothing after it.
  pub drain_progress-ticks :
      (left total : ℕ) (vs : List ℕ) (s : S) (rest : Bytes)
      → length vs < left
      → All (InPlan total) vs
      → incoming s ≡ ticks vs ++ rest
      → Leaves incoming tt rest (drain_progress conn left total s)
  unfolding ticks pure
  drain_progress-ticks zero total vs s rest few inside came = absurd (omega arith)
  drain_progress-ticks (suc left) total [] s rest few inside came =
      let (t, at, turn) = progress_turn left total sentinel s rest (omega arith) came in
      subst (Leaves incoming tt rest) (sym turn) (refl, at)
  drain_progress-ticks (suc left) total (v ∷ vs) s rest few ((below, plan), inside) came =
      let (t, at, turn) =
        progress_turn left total v s (ticks vs ++ rest) (omega arith)
          (came ∙ ++-assoc (le_bytes 8 v) (ticks vs) rest) in
      let goes_on : (if v == sentinel
              then pure tt
              else (if ltb 0 total && ltb total v
                  then raise (own scan_unsupported)
                  else drain_progress conn left total))
            t
          ≡ drain_progress conn left total t =
        ground arith in
      subst (Leaves incoming tt rest) (sym (turn ∙ goes_on))
        (drain_progress-ticks left total vs t rest (omega arith) inside at)

  -- More progress than the plan has is refused.
  pub drain_progress-too_much :
      (left total v : ℕ) (s : S) (rest : Bytes)
      → 0 < total
      → total < v
      → v < sentinel
      → incoming s ≡ le_bytes 8 v ++ rest
      → Refuses incoming rest (drain_progress conn (suc left) total s)
  unfolding raise
  drain_progress-too_much left total v s rest some_bytes much below came =
      let (t, at, turn) = progress_turn left total v s rest (omega arith) came in
      let refused : (if v == sentinel
              then pure tt
              else (if ltb 0 total && ltb total v
                  then raise (own scan_unsupported)
                  else drain_progress conn left total))
            t
          ≡ (err (own scan_unsupported), t) =
        ground arith in
      subst (Refuses incoming rest) (sym (turn ∙ refused)) (refl, at)
