-- ===== src/Wire/Layout.antt =====
-- The bytes of the requests: the body of a turbo start, and the list of segments after it.
use nite_pr.Base.{
  ℕ, zero, suc, ◌+◌, ◌*◌, ◌%◌, ◌≤◌, ◌<◌, ◌≡◌, refl, ap, sym, ◌∙◌, true, ◌&&◌, ◌||◌, List, [], ◌∷◌,
  ◌++◌, length, take, drop, arith, All, leb, if◌then◌else◌, length-append, Bool-cases, inl, inr,
}
use nite_pr.Base.Exec.{Outcome, ok, err}
use nite_pr.Base.Result
use nite_pr.Constants.{scan_segment_min, scan_segment_max}
use nite_pr.Types.{Bytes}
use nite_pr.Scan.Ranges.{Range, covers}
use nite_pr.Scan.Segments.{Segment, ranges_to_segments, in_segment, reaches}
use nite_pr.Scan.Segments.Laws.{HasWireLength, reaches-ranges_to_segments, ranges_to_segments_shape}
use nite_pr.Errors.{scan_unsupported}
use nite_pr.Wire.{Failure, own}
use nite_pr.Wire.Pack.{le_bytes, le_value, pack_u8, pack_u32}
use nite_pr.Wire.Pack.Laws.{le_value-le_bytes, length-le_bytes, pack_u32_ok, pack_u64_ok}
use nite_pr.Wire.Requests.{pack_all, start_body, pack_segments, segments_blob}

-- `n` entries of a request, an address of eight bytes and a length of four each.
unfoldable pub entries : ℕ → Bytes → List Segment
unfolding le_value
entries zero bs = []
entries (suc n) bs = (le_value (take 8 bs), le_value (take 4 (drop 8 bs))) ∷ entries n (drop 12 bs)

-- A segment fits the fields of its entry.
abbrev pub FitsEntry : Segment → Type 0
FitsEntry g = (g.0 < 0x1_0000_0000_0000_0000) × (g.1 < 0x1_0000_0000)

entries_step :
    (n : ℕ) (g : Segment) (rest : Bytes)
    → FitsEntry g
    → entries (suc n) (le_bytes 8 g.0 ++ (le_bytes 4 g.1 ++ rest)) ≡ g ∷ entries n rest
unfolding entries le_value le_bytes
entries_step n (addr, len) rest (ha, hl) =
    let ea : le_value (le_bytes 8 addr) ≡ addr = le_value-le_bytes 8 addr (pack_u64_ok addr ha).1 in
    let el : le_value (le_bytes 4 len) ≡ len = le_value-le_bytes 4 len (pack_u32_ok len hl).1 in
    ap (λ a. (a, le_value (le_bytes 4 len)) ∷ entries n rest) ea
    ∙ ap (λ l. (addr, l) ∷ entries n rest) el

-- What `pack_segments` makes of segments that fit their entries.
pack_segments_ok :
    (gs : List Segment)
    → All FitsEntry gs
    → (bs : Bytes) × (pack_segments gs ≡ ok bs)
      × (length bs ≡ 12 * length gs)
      × (entries (length gs) bs ≡ gs)
unfolding pack_segments entries
pack_segments_ok [] fit = ([], refl, refl, refl)
pack_segments_ok ((addr, len) ∷ gs) ((ha, hl), fit) =
    let (bs, packed, size, back) = pack_segments_ok gs fit in
    let head = le_bytes 8 addr ++ (le_bytes 4 len ++ bs) in
    let sent : pack_segments ((addr, len) ∷ gs) ≡ ok head =
      ap
        (λ r. Result.◌>>=◌ r λ a.
          Result.◌>>=◌ (pack_u32 len)
            λ n. Result.◌>>=◌ (pack_segments gs) λ rest. ok (a ++ n ++ rest))
        (pack_u64_ok addr ha).0
      ∙ ap
          (λ r.
            Result.◌>>=◌ r
              λ n. Result.◌>>=◌ (pack_segments gs) λ rest. ok (le_bytes 8 addr ++ n ++ rest))
          (pack_u32_ok len hl).0
      ∙ ap (λ r. Result.◌>>=◌ r λ rest. ok (le_bytes 8 addr ++ le_bytes 4 len ++ rest)) packed in
    let total : length head ≡ 12 * suc (length gs) = omega (
      arith,
      length-append (le_bytes 8 addr) (le_bytes 4 len ++ bs),
      length-append (le_bytes 4 len) bs,
      length-le_bytes 8 addr,
      length-le_bytes 4 len,
      size,
    ) in
    (
      head,
      sent,
      total,
      entries_step (length gs) (addr, len) bs (ha, hl) ∙ ap (λ l. (addr, len) ∷ l) back,
    )

pub segments_blob_ok :
    (gs : List Segment)
    → All FitsEntry gs
    → scan_segment_min ≤ length gs
    → length gs ≤ scan_segment_max
    → (blob : Bytes) × (segments_blob gs ≡ ok blob)
      × (length blob ≡ 4 + 12 * length gs)
      × (le_value (take 4 blob) ≡ length gs)
      × (entries (length gs) (drop 4 blob) ≡ gs)
unfolding segments_blob le_value le_bytes
segments_blob_ok gs fit lo hi =
    let (bs, packed, size, back) = pack_segments_ok gs fit in
    let n = length gs in
    let blob = le_bytes 4 n ++ bs in
    let counted = pack_u32_ok n (omega arith) in
    let in_range : (leb scan_segment_min n && leb n scan_segment_max) ≡ true = ground arith in
    let sent : segments_blob gs ≡ ok blob =
      ap
        (λ b.
          if b
          then (Result.◌>>=◌ (pack_u32 n)
              λ n. Result.◌>>=◌ (pack_segments gs) λ rest. ok (n ++ rest))
          else err (own scan_unsupported))
        in_range
      ∙ ap (λ r. Result.◌>>=◌ r λ n. Result.◌>>=◌ (pack_segments gs) λ rest. ok (n ++ rest))
          counted.0
      ∙ ap (λ r. Result.◌>>=◌ r λ rest. ok (le_bytes 4 n ++ rest)) packed in
    let total : length blob ≡ 4 + 12 * n =
      omega (arith, length-append (le_bytes 4 n) bs, length-le_bytes 4 n, size) in
    (blob, sent, total, le_value-le_bytes 4 n counted.1, back)

-- No range ends above the addresses that eight bytes hold.
abbrev pub IsAddressable : List Range → Type 0
IsAddressable rs = All (λ r. r.1 ≤ 0x1_0000_0000_0000_0000) rs

covered_below :
    (a : ℕ) (rs : List Range) → IsAddressable rs → covers a rs ≡ true → a < 0x1_0000_0000_0000_0000
unfolding covers
covered_below a [] fit h = ground arith
covered_below a ((s, e) ∷ rs) (he, fit) h = elim (Bool-cases (covers a rs)) [
  | inl k ↦ covered_below a rs fit k
  | inr k ↦ ground arith
]

-- Segments whose addresses all lie below a bound that holds of every address they reach.
FitsEntry-reached :
    (gs : List Segment)
    → All HasWireLength gs
    → ((a : ℕ) → reaches a gs ≡ true → a < 0x1_0000_0000_0000_0000)
    → All FitsEntry gs
unfolding reaches
FitsEntry-reached [] wire below = tt
FitsEntry-reached ((addr, len) ∷ gs) ((lo, hi), wire) below =
    let own_address : (in_segment addr (addr, len) || reaches addr gs) ≡ true = ground arith in
    ((below addr own_address, omega arith), FitsEntry-reached gs wire λ a h. below a (ground arith))

-- The list of segments that a scan plan makes of addressable ranges is always sent: its blob holds
-- the number of segments in four bytes, and then, in twelve bytes each, the segments themselves.
pub segments_blob-ranges_to_segments :
    (rs : List Range) {gs : List Segment}
    → ranges_to_segments rs ≡ ok gs
    → IsAddressable rs
    → (blob : Bytes) × (segments_blob gs ≡ ok blob)
      × (length blob ≡ 4 + 12 * length gs)
      × (le_value (take 4 blob) ≡ length gs)
      × (entries (length gs) (drop 4 blob) ≡ gs)
segments_blob-ranges_to_segments rs {gs} h fit =
    let (wire, _, lo, hi) = ranges_to_segments_shape rs h in
    let below : (a : ℕ) → reaches a gs ≡ true → a < 0x1_0000_0000_0000_0000 =
      λ a k. covered_below a rs fit (sym (reaches-ranges_to_segments a rs h) ∙ k) in
    segments_blob_ok gs (FitsEntry-reached gs wire below) lo hi

pack_u8_low : (v : ℕ) → pack_u8 (v % 256) ≡ ok (le_bytes 1 (v % 256))
unfolding pack_u8
pack_u8_low v = ground arith

record Packs (rs : List (Outcome Failure Bytes)) (bs : Bytes) : Type 0 where
  at : pack_all rs ≡ ok bs

Packs-nil : Packs [] []
unfolding pack_all
Packs-nil = record { at = refl }

Packs-step :
    {r : Outcome Failure Bytes} {rs : List (Outcome Failure Bytes)} {x y : Bytes}
    → r ≡ ok x
    → Packs rs y
    → Packs (r ∷ rs) (x ++ y)
unfolding pack_all
Packs-step {rs} {x} e f = record {
  at =
      ap (λ r. Result.◌>>=◌ r λ bs. Result.◌>>=◌ (pack_all rs) λ rest. ok (bs ++ rest)) e
      ∙ ap (λ r. Result.◌>>=◌ r λ rest. ok (x ++ rest)) f.at;
}

-- The fields of a turbo start's body, in the order of the format "<IQIBBBII".
unfoldable pub start_fields :
    (pid address len value_type compare_type alignment value_len flags : ℕ) → Bytes
unfolding le_bytes
start_fields pid address len value_type compare_type alignment value_len flags =
    le_bytes 4 pid
    ++ (le_bytes 8 address
        ++ (le_bytes 4 len
            ++ (le_bytes 1 (value_type % 256)
                ++ (le_bytes 1 (compare_type % 256)
                    ++ (le_bytes 1 (alignment % 256)
                        ++ (le_bytes 4 value_len ++ (le_bytes 4 (flags % 0x1_0000_0000) ++ [])))))))

pub start_body_ok :
    (pid address len value_type compare_type alignment value_len flags : ℕ)
    → pid < 0x1_0000_0000
    → address < 0x1_0000_0000_0000_0000
    → len < 0x1_0000_0000
    → value_len < 0x1_0000_0000
    → start_body pid address len value_type compare_type alignment value_len flags
      ≡ ok (start_fields pid address len value_type compare_type alignment value_len flags)
unfolding start_body start_fields
start_body_ok pid address len value_type compare_type alignment value_len flags hp ha hl hv =
    let p1 = Packs-step (pack_u32_ok (flags % 0x1_0000_0000) (omega arith)).0 Packs-nil in
    let p2 = Packs-step (pack_u32_ok value_len hv).0 p1 in
    let p3 = Packs-step (pack_u8_low alignment) p2 in
    let p4 = Packs-step (pack_u8_low compare_type) p3 in
    let p5 = Packs-step (pack_u8_low value_type) p4 in
    let p6 = Packs-step (pack_u32_ok len hl).0 p5 in
    let p7 = Packs-step (pack_u64_ok address ha).0 p6 in (Packs-step (pack_u32_ok pid hp).0 p7).at
