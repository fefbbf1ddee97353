-- ===== src/Tests/Pipe.antt =====
-- A connection whose incoming bytes are a list. Its status of success and its acknowledgement are
-- four bytes each.
use nite_pr.Base.{
  ℕ, ◌≡◌, refl, ap, sym, ◌∙◌, true, [], ◌∷◌, ◌++◌, length, take, drop, leb, le→leb, length-append,
  arith, if◌then◌else◌,
}
use nite_pr.Base.Exec.{Outcome, ok, err, blocked, Exec}
use nite_pr.Types.{Bytes}
use nite_pr.Wire.{Kind, no_kind, Conn}
use nite_pr.Wire.Pack.{le_bytes, le_value}
use nite_pr.Wire.Pack.Laws.{take-append, drop-append}
use nite_pr.Wire.Stream.{Reads}
use nite_pr.Wire.InSync.{Speaks}

abbrev pub no_peer : Kind
no_peer = record no_kind { is_connection_lost = true }

abbrev pub status : Bytes
status = 0 ∷ 0 ∷ 0 ∷ 64 ∷ []

unfoldable pub recv : ℕ → Exec Kind Bytes Bytes
recv n s = if leb n (length s) then (ok (take n s), drop n s) else (err no_peer, s)

-- A number is read, or a call comes back without a value.
abbrev answer : {A : Type 0} → (Bytes → A) → Outcome Kind Bytes × Bytes → Outcome Kind A × Bytes
answer f (ok bs, s) = (ok (f bs), s)
answer f (err k, s) = (err k, s)
answer f (blocked, s) = (blocked, s)

abbrev pub pipe : Conn Bytes
pipe = record {
  send_request = λ cmd bs s. (ok tt, s);
  sendall = λ bs s. (ok tt, s);
  recv_exact = recv;
  recv_u64 = λ s. answer le_value (recv 8 s);
  expect_success = λ s. answer (λ bs. tt) (recv 4 s);
  send_value_after_ack = λ cmd body value s. answer (λ bs. tt) (recv 4 s);
  scan_value_bytes = λ value_type value. ok (le_bytes 4 value);
}

recv_append : (bs rest : Bytes) → recv (length bs) (bs ++ rest) ≡ (ok bs, rest)
unfolding recv
recv_append bs rest =
    let fits : leb (length bs) (length (bs ++ rest)) ≡ true =
      le→leb _ _ (omega (arith, length-append bs rest)) in
    ap
      (λ b.
        if b
        then (ok (take (length bs) (bs ++ rest)), drop (length bs) (bs ++ rest))
        else (err no_peer, bs ++ rest))
      fits
    ∙ ap (λ xs. (ok xs, drop (length bs) (bs ++ rest))) (take-append bs rest)
    ∙ ap (λ xs. (ok bs, xs)) (drop-append bs rest)

recv_came : (n : ℕ) (s bs rest : Bytes) → length bs ≡ n → s ≡ bs ++ rest → recv n s ≡ (ok bs, rest)
recv_came n s bs rest e came =
    ap (λ m. recv m s) (sym e) ∙ ap (recv (length bs)) came ∙ recv_append bs rest

pub pipe-Reads : Reads pipe (λ s. s)
pipe-Reads = record {
  exact = λ s bs rest came.
      let e = recv_came (length bs) s bs rest refl came in (ap (λ r. r.0) e, ap (λ r. r.1) e);
  u64 = λ s bs rest came size.
      let e = ap (answer le_value) (recv_came 8 s bs rest size came) in
      (ap (λ r. r.0) e, ap (λ r. r.1) e);
}

pub pipe-Speaks : Speaks pipe (λ s. s) status status
pipe-Speaks = record {
  reads = pipe-Reads;
  sends = λ s bs. (refl, refl);
  starts = λ s cmd body value rest came.
      let e = ap (answer (λ bs. tt)) (recv_came 4 s status rest refl came) in
      (ap (λ r. r.0) e, ap (λ r. r.1) e);
  succeeds = λ s rest came.
      let e = ap (answer (λ bs. tt)) (recv_came 4 s status rest refl came) in
      (ap (λ r. r.0) e, ap (λ r. r.1) e);
}
