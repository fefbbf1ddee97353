-- ===== src/Session/Lock/Values.antt =====
-- What a call returns under the locks and the brackets around it.
use nite_pr.Base.{ℕ, Bool, Bool-cases, inl, inr}
use nite_pr.Base.Exec.Returns.{OfValue, Returns, Returns-ensure}
use nite_pr.Session.{Method}
use nite_pr.Session.Lock.{owns, refuses, held_by_other, take_io, release_io, guarded, hold_io}

module _ {T A : Type 0} (P : A → Type 0) where
  guarded-Returns :
      (block already : Bool) (body : Method T A)
      → Returns P body
      → Returns P (guarded block already body)
  unfolding guarded
  guarded-Returns block already body r = record {
    at = λ s. elim (Bool-cases (refuses block already s)) [
      | inl refused ↦ rw (refused, OfValue) tt
      | inr free ↦ rw (free, OfValue) (r.at s)
    ];
  }

  pub hold_io-Returns :
      (me : ℕ) (block : Bool) (body : Method T A)
      → Returns P body
      → Returns P (hold_io me block body)
  unfolding hold_io
  hold_io-Returns me block body r = record {
    at = λ s. elim (Bool-cases (refuses block (owns me s.io_owner) s)) [
      | inl refused ↦ rw (refused, OfValue) tt
      | inr free ↦
          rw (free, OfValue)
            (elim (Bool-cases (held_by_other me s)) [
              | inl held ↦ rw (held, OfValue) tt
              | inr ours ↦
                  rw (ours, OfValue)
                    ((Returns-ensure P (guarded block (owns me s.io_owner) body) release_io
                        (guarded-Returns block (owns me s.io_owner) body r)).at
                      (take_io me s))
            ])
    ];
  }
