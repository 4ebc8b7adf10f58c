-- ===== src/InputQueue/Threads.antt =====
-- The reader's thread and the callers' threads on one queue. Each operation holds the mutex while
-- it works, so an execution is a sequence of operations.
use mathlib.Core.List.{Perm, perm_append_comm, append_assoc}
use mathlib.Core.List.Perm
use binglib.Base.{◌≡◌, inl, inr, some, List, [], ◌∷◌, ◌++◌}
use binglib.Base.Int.{ℤ}
use binglib.InputQueue.{ElectrumMessage, push, pop_reply, pop_reply_bulk}
use binglib.InputQueue.Reply.{pop_reply_cases}
use binglib.InputQueue.Bulk.{Perm-IsNewest, pop_reply_bulk-Answers}

module _ {J : Type 0} where
  -- One operation: the messages that came in, the messages that were handed out, and the queue
  -- before and after. A bulk request may go on at any queue, since its wait also ends by the
  -- timeout.
  pub data Step (before after arrived taken : List (ElectrumMessage J)) : Type 0 where
    arrival :
        (m : ElectrumMessage J)
        → after ≡ push m before
        → arrived ≡ m ∷ []
        → taken ≡ []
        → Step before after arrived taken
    reply :
        (id : ℤ) (m : ElectrumMessage J)
        → pop_reply id before ≡ some (m, after)
        → arrived ≡ []
        → taken ≡ m ∷ []
        → Step before after arrived taken
    replies :
        (ids : List ℤ)
        → pop_reply_bulk ids before ≡ (taken, after)
        → arrived ≡ []
        → Step before after arrived taken

  pub data Steps (before : List (ElectrumMessage J))
      : List (ElectrumMessage J)
        → List (ElectrumMessage J)
        → List (ElectrumMessage J)
        → Type 0 where
    none_yet : Steps before before [] []
    then_step :
        {middle after arrived taken more_arrived more_taken : List (ElectrumMessage J)}
        → Steps before middle arrived taken
        → Step middle after more_arrived more_taken
        → Steps before after (arrived ++ more_arrived) (taken ++ more_taken)

  pop_reply-Perm :
      (id : ℤ) (queue rest : List (ElectrumMessage J)) (m : ElectrumMessage J)
      → pop_reply id queue ≡ some (m, rest)
      → Perm queue (m ∷ rest)
  pop_reply-Perm id queue rest m e = elim (pop_reply_cases id queue) [
    | inl (misses, blocked) ↦ cc
    | inr (n, others, newest, found) ↦
        let same : n ≡ m = cc in
        let left : others ≡ rest = cc in rw (← same, ← left) (Perm-IsNewest newest)
  ]

  Step-Perm :
      {before after arrived taken : List (ElectrumMessage J)}
      → Step before after arrived taken
      → Perm (arrived ++ before) (taken ++ after)
  unfolding push
  Step-Perm (arrival m e f g) = rw (e, f, g) (Perm.refl _)
  Step-Perm {before} {after} (reply id m e f g) = rw (f, g) (pop_reply-Perm id before after m e)
  Step-Perm {before} {after} {taken = taken} (replies ids e f) =
      let same : (pop_reply_bulk ids before).0 ≡ taken = cc in
      let left : (pop_reply_bulk ids before).1 ≡ after = cc in
      rw (f, ← same, ← left) (pop_reply_bulk-Answers ids before).1

  -- No interleaving of the threads loses a message, hands one out twice or makes one up: what came
  -- in and what the queue held are together what was handed out and what the queue holds.
  pub Steps-Perm :
      {before after arrived taken : List (ElectrumMessage J)}
      → Steps before after arrived taken
      → Perm (arrived ++ before) (taken ++ after)
  Steps-Perm none_yet = Perm.refl _
  Steps-Perm {before} {after}
        (then_step {middle = q} {arrived = a} {taken = t} {more_arrived = a'} {more_taken = t'}
          steps step) =
      Perm.trans (Perm.append_right before (perm_append_comm a a')) (
        rw (append_assoc a' a before) (
          Perm.trans (Perm.append_left a' (Steps-Perm steps)) (
            rw (← append_assoc a' t q) (
              Perm.trans (Perm.append_right q (perm_append_comm a' t)) (
                rw (append_assoc t a' q, append_assoc t t' after)
                  (Perm.append_left t (Step-Perm step)))))))
