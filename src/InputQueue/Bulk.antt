-- ===== src/InputQueue/Bulk.antt =====
-- What a bulk request gets.
use mathlib.Core.List.{Perm, perm_middle}
use mathlib.Core.List.Perm
use binglib.Base.{
  ◌≡◌, ◌≢◌, refl, inl, inr, Bool, true, false, List, [], ◌∷◌, ◌++◌, if◌then◌else◌, All, ℕ,
}
use binglib.Base.Int.{ℤ}
use binglib.InputQueue.{ElectrumMessage, matches, pop_reply_bulk}
use binglib.InputQueue.Reply.{IsNewest, extract_cases}

-- The counter gives every request an id of its own.
abbrev pub IsDistinct : List ℕ → Type 0
IsDistinct [] = Unit {0}
IsDistinct (n ∷ ns) = All (λ k. k ≢ n) ns × IsDistinct ns

module _ {J : Type 0} where
  -- The messages answer the ids one by one, in order, as far as they go.
  abbrev pub Answers : List ℤ → List (ElectrumMessage J) → Type 0
  Answers ids [] = Unit {0}
  Answers [] (m ∷ ms) = ⊥
  Answers (id ∷ ids) (m ∷ ms) = (matches id m ≡ true) × Answers ids ms

  pub Perm-IsNewest :
      {id : ℤ} {queue rest : List (ElectrumMessage J)} {m : ElectrumMessage J}
      → IsNewest id queue rest m
      → Perm queue (m ∷ rest)
  Perm-IsNewest newest = rw (newest.split, newest.joined) (perm_middle newest.newer newest.older)

  -- A bulk request returns messages for a run of its ids from the front, in the order of the ids,
  -- and loses none: what it returns and what it leaves are together what the queue held.
  pub pop_reply_bulk-Answers :
      (ids : List ℤ) (queue : List (ElectrumMessage J))
      → Answers ids (pop_reply_bulk ids queue).0
        × Perm queue ((pop_reply_bulk ids queue).0 ++ (pop_reply_bulk ids queue).1)
  unfolding pop_reply_bulk
  pop_reply_bulk-Answers [] queue = (tt, Perm.refl queue)
  pop_reply_bulk-Answers (id ∷ ids) queue = elim (extract_cases id queue) [
    | inl (misses, e) ↦ rw e (tt, Perm.refl queue)
    | inr (m, rest, newest, e) ↦
        let (answers, perm) = pop_reply_bulk-Answers ids rest in
        rw e ((newest.hit, answers), Perm.trans (Perm-IsNewest newest) (Perm.cons m perm))
  ]

  abbrev any_match : ℤ → List (ElectrumMessage J) → Bool
  any_match id [] = false
  any_match id (m ∷ queue) = if matches id m then true else any_match id queue
