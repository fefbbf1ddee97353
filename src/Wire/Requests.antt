-- ===== src/Wire/Requests.antt =====
-- The functions of web/nitepr5_core/scan.py and of web/nitepr5_core/transport.py that speak the
-- protocol: `_start_body`, `_send_segments`, `drain_result_blocks`,
-- `turbo_start_resident_segments`, `turbo_start_snapshot_segments` and `proc_write_phased`.
use nite_pr.Base.{
  ℕ, zero, suc, ◌*◌, ◌%◌, Bool, true, false, ◌&&◌, ◌||◌, List, [], ◌∷◌, ◌++◌, length, take, drop,
  ltb, leb, ◌==◌, if◌then◌else◌,
}
use nite_pr.Base.Exec.{
  Outcome, ok, err, blocked, Exec, pure, raise, raise_if, lift, catch, ◌>>=◌, ◌>>◌,
}
use nite_pr.Base.Result
use nite_pr.Constants.{scan_segment_min, scan_segment_max, scan_compare_unknown}
use nite_pr.Types.{Bytes}
use nite_pr.Errors.{scan_unsupported}
use nite_pr.Scan.Segments.{Segment}
use nite_pr.Scan.Classify.{turbo_start_flags}
use nite_pr.Wire.{Failure, raised, own, proc_write, turboscan_start, Conn, lib, as_raised}
use nite_pr.Wire.Pack.{le_value, pack_u8, pack_u32, pack_u64}

-- `_SENTINEL_U64`, `_RESULT_BLOCK_MAX` and `_SNAPSHOT_PROGRESS_MAX`
abbrev pub sentinel : ℕ
sentinel = 0xffff_ffff_ffff_ffff

abbrev pub result_block_max : ℕ
result_block_max = 16 * 1024 * 1024

abbrev pub snapshot_progress_max : ℕ
snapshot_progress_max = 10_000_000

-- The fields of one `struct.pack`, one after another.
unfoldable pub pack_all : List (Outcome Failure Bytes) → Outcome Failure Bytes
pack_all [] = ok []
pack_all (r ∷ rs) = Result.◌>>=◌ r λ bs. Result.◌>>=◌ (pack_all rs) λ rest. ok (bs ++ rest)

-- `_start_body`: `& 0xFF` and `& 0xFFFFFFFF` are the remainders.
unfoldable pub start_body :
    (pid address len value_type compare_type alignment value_len flags : ℕ) → Outcome Failure Bytes
unfolding pack_all pack_u8 pack_u32 pack_u64
start_body pid address len value_type compare_type alignment value_len flags = pack_all (
    pack_u32 pid
    ∷ pack_u64 address
    ∷ pack_u32 len
    ∷ pack_u8 (value_type % 256)
    ∷ pack_u8 (compare_type % 256)
    ∷ pack_u8 (alignment % 256)
    ∷ pack_u32 value_len
    ∷ pack_u32 (flags % 0x1_0000_0000)
    ∷ [])

-- `struct.pack("<QI", addr, length)` for each segment.
unfoldable pub pack_segments : List Segment → Outcome Failure Bytes
unfolding pack_u32 pack_u64
pack_segments [] = ok []
pack_segments ((addr, len) ∷ segments) = Result.◌>>=◌ (pack_u64 addr) λ a.
    Result.◌>>=◌ (pack_u32 len)
      λ n. Result.◌>>=◌ (pack_segments segments) λ rest. ok (a ++ n ++ rest)

-- What `_send_segments` sends.
unfoldable pub segments_blob : List Segment → Outcome Failure Bytes
unfolding pack_segments pack_u32
segments_blob segments =
    if leb scan_segment_min (length segments) && leb (length segments) scan_segment_max
    then (Result.◌>>=◌ (pack_u32 (length segments))
        λ n. Result.◌>>=◌ (pack_segments segments) λ rest. ok (n ++ rest))
    else err (own scan_unsupported)

-- The classes `(OSError, ProtocolError, ConnectionLost)`, which the reading of a snapshot's progress
-- turns into `ScanUnsupported`, and with `struct.error` those of its plan and its trailer.
abbrev pub is_broken : Failure → Bool
is_broken (raised k) = k.is_os_error || (k.is_protocol_error || k.is_connection_lost)
is_broken (own e) = false

abbrev pub is_unsafe : Failure → Bool
is_unsafe (raised k) = is_broken (raised k) || k.is_struct_error
is_unsafe (own e) = false

-- `except (…) as exc: raise ScanUnsupported(…) from exc`
abbrev pub unsupported_if : {S A : Type 0} → (Failure → Bool) → Exec Failure S A → Exec Failure S A
unsupported_if test m = catch m (λ e. if test e then raise (own scan_unsupported) else raise e)

module _ {S : Type 0} (conn : Conn S) where
  unfoldable pub proc_write_phased : (pid address : ℕ) → Bytes → Exec Failure S (Unit {0})
  unfolding lib pack_all pack_u32 pack_u64
  proc_write_phased pid address payload = do
    packet ← lift (pack_all (pack_u32 pid ∷ pack_u64 address ∷ pack_u32 (length payload) ∷ []))
    lib (conn.send_request proc_write packet)
    lib conn.expect_success
    if ltb 0 (length payload) then lib (conn.sendall payload) else pure tt
    lib conn.expect_success

  unfoldable pub send_segments : List Segment → Exec Failure S (Unit {0})
  unfolding lib segments_blob
  send_segments segments = do blob ← lift (segments_blob segments); lib (conn.sendall blob)

  -- `drain_result_blocks` with fuel for its `while True`: without fuel it has not come back.
  unfoldable pub drain_result_blocks : ℕ → Exec Failure S (Unit {0})
  unfolding lib
  drain_result_blocks zero = lift blocked
  drain_result_blocks (suc fuel) = do
    block_len ← lib conn.recv_u64
    let rest = drain_result_blocks fuel
    if block_len == sentinel
        then pure tt
        else (if ltb result_block_max block_len
            then raise (own scan_unsupported)
            else (lib (conn.recv_exact block_len) >> rest))

  -- `turbo_start_resident_segments`: whether the list is resident, and the count.
  unfoldable pub turbo_start_resident_segments :
      (fuel pid : ℕ)
      → List Segment
      → (value_type compare_type alignment value : ℕ) → (use_aliasing : Bool)
      → Exec Failure S (ℕ × ℕ)
  unfolding lib start_body send_segments drain_result_blocks le_value turbo_start_flags
  turbo_start_resident_segments fuel pid segments value_type compare_type alignment value
        use_aliasing =
      do
        vbytes ← lift (as_raised (conn.scan_value_bytes value_type value))
        body ← lift (
            start_body pid 0 0 value_type compare_type alignment (length vbytes)
              (turbo_start_flags false use_aliasing))
        lib (conn.send_value_after_ack turboscan_start body vbytes)
        send_segments segments
        reply ← lib (conn.recv_exact 12)
        let stored = le_value (take 4 reply)
        let count = le_value (drop 4 reply)
        if stored == 0 then drain_result_blocks fuel else pure tt
        lib conn.expect_success
        pure (stored, count)

  -- The `for` loop over the progress stream, with the rounds that are left.
  unfoldable pub drain_progress : (rounds total_bytes : ℕ) → Exec Failure S (Unit {0})
  unfolding lib
  drain_progress zero total_bytes = raise (own scan_unsupported)
  drain_progress (suc rounds) total_bytes = do
    done ← unsupported_if is_broken (lib conn.recv_u64)
    let rest = drain_progress rounds total_bytes
    if done == sentinel
        then pure tt
        else (if ltb 0 total_bytes && ltb total_bytes done
            then raise (own scan_unsupported)
            else rest)

  -- `turbo_start_snapshot_segments`: the count of the survivors.
  unfoldable pub turbo_start_snapshot_segments :
      (pid : ℕ)
      → List Segment
      → (value_type alignment : ℕ) → (use_aliasing : Bool) → Exec Failure S ℕ
  unfolding lib start_body send_segments drain_progress le_value turbo_start_flags
  turbo_start_snapshot_segments pid segments value_type alignment use_aliasing = do
    vbytes ← lift (as_raised (conn.scan_value_bytes value_type 0))
    body ← lift (
        start_body pid 0 0 value_type scan_compare_unknown alignment (length vbytes)
          (turbo_start_flags true use_aliasing))
    lib (conn.send_value_after_ack turboscan_start body vbytes)
    send_segments segments
    plan ← unsupported_if is_unsafe (lib (conn.recv_exact 16))
    drain_progress snapshot_progress_max (le_value (drop 8 plan))
    trailer ← unsupported_if is_unsafe (lib (conn.recv_exact 12))
    lib conn.expect_success
    raise_if (le_value (take 4 trailer) == 0) (own scan_unsupported)
    pure (le_value (drop 4 trailer))
