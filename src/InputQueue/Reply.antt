-- ===== src/InputQueue/Reply.antt =====
-- Which message a waiting caller gets.
use mathlib.Core.List.{append_assoc, reverse-cons}
use binglib.Base.{
  ℕ, zero, suc, ◌≡◌, refl, sym, ap, ◌∙◌, ◌⊎◌, inl, inr, true, false, none, some, List, [], ◌∷◌,
  ◌++◌, reverse, arith, Bool-cases, Option-cases, All, length,
}
use binglib.Base.Int.{ℤ, negsuc}
use binglib.InputQueue.{ElectrumMessage, matches, push, extract, contains_msg_with_id, pop_reply}

module _ {J : Type 0} where
  -- `m` is the newest message for `id`, and `rest` is the queue without it, in the same order.
  pub record IsNewest (id : ℤ) (queue rest : List (ElectrumMessage J)) (m : ElectrumMessage J)
      : Type 0 where
    pub newer : List (ElectrumMessage J)
    pub older : List (ElectrumMessage J)
    pub split : queue ≡ newer ++ m ∷ older
    pub joined : rest ≡ newer ++ older
    pub hit : matches id m ≡ true
    pub misses : All (λ n. matches id n ≡ false) newer

  pub extract_cases :
      (id : ℤ) (queue : List (ElectrumMessage J))
      → (All (λ n. matches id n ≡ false) queue × (extract id queue ≡ none))
        ⊎ ((m : ElectrumMessage J) × (rest : List (ElectrumMessage J)) × IsNewest id queue rest m
            × (extract id queue ≡ some (m, rest)))
  unfolding extract
  extract_cases id [] = inl (tt, refl)
  extract_cases id (n ∷ queue) = elim (Bool-cases (matches id n)) [
    | inl hit ↦ inr (
      n,
      queue,
      record { newer = []; older = queue; split = refl; joined = refl; hit = hit; misses = tt },
      rw hit refl,
    )
    | inr miss ↦ elim (extract_cases id queue) [
      | inl (misses, e) ↦ inl ((miss, misses), rw (miss, e) refl)
      | inr (m, rest, newest, e) ↦ inr (
        m,
        n ∷ rest,
        record {
          newer = n ∷ newest.newer;
          older = newest.older;
          split = ap (◌∷◌ n) newest.split;
          joined = ap (◌∷◌ n) newest.joined;
          hit = newest.hit;
          misses = (miss, newest.misses);
        },
        rw (miss, e) refl,
      )
    ]
  ]

  pub pop_reply-extract :
      (id : ℤ) (queue : List (ElectrumMessage J)) → pop_reply id queue ≡ extract id queue
  unfolding pop_reply contains_msg_with_id
  pop_reply-extract id queue = elim (Option-cases (extract id queue)) [
    | inl e ↦ ground arith
    | inr (found, e) ↦ ground arith
  ]

  -- pop_reply is blocked exactly while no message in the queue is for the id; otherwise it returns
  -- the newest that is, and takes it and nothing else out of the queue.
  pub pop_reply_cases :
      (id : ℤ) (queue : List (ElectrumMessage J))
      → (All (λ n. matches id n ≡ false) queue × (pop_reply id queue ≡ none))
        ⊎ ((m : ElectrumMessage J) × (rest : List (ElectrumMessage J)) × IsNewest id queue rest m
            × (pop_reply id queue ≡ some (m, rest)))
  pop_reply_cases id queue = rw (pop_reply-extract id queue) (extract_cases id queue)

  abbrev pub push_all :
      List (ElectrumMessage J) → List (ElectrumMessage J) → List (ElectrumMessage J)
  push_all [] queue = queue
  push_all (m ∷ ms) queue = push_all ms (push m queue)

  -- get_subscription_event, called `n` times while the queue does not run out of notifications
  abbrev pub drain_notifications :
      ℕ → List (ElectrumMessage J) → List (ElectrumMessage J) × List (ElectrumMessage J)
  drain_notifications zero queue = ([], queue)
  drain_notifications (suc n) queue = elim (pop_reply (negsuc 0) queue) [
    | none ↦ ([], queue)
    | some (m, rest) ↦ (m ∷ (drain_notifications n rest).0, (drain_notifications n rest).1)
  ]

  push_all-append : (ms queue : List (ElectrumMessage J)) → push_all ms queue ≡ reverse ms ++ queue
  unfolding push
  push_all-append [] queue = refl
  push_all-append (m ∷ ms) queue =
      push_all-append ms (m ∷ queue)
      ∙ sym (append_assoc (reverse ms) (m ∷ []) queue)
      ∙ ap (λ xs. xs ++ queue) (sym (reverse-cons m ms))

  drain-append :
      (ms queue : List (ElectrumMessage J))
      → All (λ m. m.has_correlation_id ≡ false) ms
      → drain_notifications (length ms) (ms ++ queue) ≡ (ms, queue)
  unfolding pop_reply contains_msg_with_id extract
  drain-append [] queue h = refl
  drain-append (m ∷ ms) queue h = rw h.0 (rw (drain-append ms queue h.1) refl)

  -- Notifications come back in the reverse of the order in which the server sent them: after some
  -- were pushed one by one, as many calls of get_subscription_event return the last one first.
  pub drain-push_all :
      (ms queue : List (ElectrumMessage J))
      → All (λ m. m.has_correlation_id ≡ false) (reverse ms)
      → drain_notifications (length (reverse ms)) (push_all ms queue) ≡ (reverse ms, queue)
  drain-push_all ms queue h = rw (push_all-append ms queue) (drain-append (reverse ms) queue h)
