-- ===== src/Purse/Pick.antt =====
-- The rule by which the three searches choose, stated apart from their loops: each candidate has an
-- amount, the first that suffices wins, and otherwise a largest one.
use binglib.Base.{
  ℕ, String, ◌≡◌, refl, ◌≤◌, ◌<◌, ◌⊎◌, inl, inr, List, [], ◌∷◌, ◌++◌, arith, leb, if◌then◌else◌,
  All, Any, here, there, ap, leb→le, leb→gt, Bool-cases,
}

module _ {R : Type 0} (amount : R → ℕ) (requested : ℕ) (candidate : String → R) where
  -- `r` is what a search over the addresses returns that starts with `best`.
  pub data IsPick (best : R) (addresses : List String) (r : R) : Type 0 where
    first :
        (before : List String) (a : String) (after : List String)
        → addresses ≡ before ++ a ∷ after
        → All (λ b. amount (candidate b) < requested) before
        → requested ≤ amount (candidate a)
        → r ≡ candidate a
        → IsPick best addresses r
    most :
        All (λ b. amount (candidate b) < requested) addresses
        → All (λ b. amount (candidate b) ≤ amount r) addresses
        → amount best ≤ amount r
        → (r ≡ best) ⊎ Any (λ b. r ≡ candidate b) addresses
        → IsPick best addresses r

  pub IsPick-nil : (best : R) → IsPick best [] best
  IsPick-nil best = most tt tt (omega arith) (inl refl)

  pub IsPick-here :
      (best : R) (a : String) (rest : List String)
      → requested ≤ amount (candidate a)
      → IsPick best (a ∷ rest) (candidate a)
  IsPick-here best a rest h = first [] a rest refl tt h refl

  -- One round of a loop that does not end the search.
  pub IsPick-next :
      (best : R) (a : String) (rest : List String) (r : R)
      → amount (candidate a) < requested
      → IsPick (if leb (amount best) (amount (candidate a)) then candidate a else best) rest r
      → IsPick best (a ∷ rest) r
  IsPick-next best a rest r small (first before b after split below enough e) =
      first (a ∷ before) b after (ap (◌∷◌ a) split) (small, below) enough e
  IsPick-next best a rest r small (most below largest above from) =
      elim (Bool-cases (leb (amount best) (amount (candidate a)))) [
        | inl better ↦
            let above' = rw better at above in
            let from' = rw better at from in
            most (small, below) (above', largest) (omega (arith, leb→le _ _ better))
              (inr (elim from' [ inl e ↦ here e | inr other ↦ there other ]))
        | inr worse ↦
            let above' = rw worse at above in
            let from' = rw worse at from in
            most (small, below) (omega (arith, leb→gt _ _ worse), largest) above'
              (elim from' [ inl e ↦ inl e | inr other ↦ inr (there other) ])
      ]
