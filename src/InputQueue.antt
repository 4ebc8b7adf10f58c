-- ===== src/InputQueue.antt =====
-- src/ronghuaclient/ronghua_input_queue.cpp: what the server has sent and nobody has taken yet. The
-- deque is a list, its front, which is the newest message, first. `J` is the type of JSON values.
pub mod Reply
pub mod Bulk
pub mod Threads
mod Tests
use binglib.Base.{
  ℕ, String, Bool, true, false, ◌&&◌, not, Option, none, some, List, [], ◌∷◌, if◌then◌else◌,
}
use binglib.Base.Int.{ℤ, pos, leb_ℤ, eqb_ℤ}

-- electrum_model.hpp
pub record ElectrumMessage (J : Type 0) : Type 0 where
  pub message : J
  pub method : String
  pub has_correlation_id : Bool
  pub correlation_id : ℤ
  pub params : List String

module _ {J : Type 0} where
  abbrev pub matches : ℤ → ElectrumMessage J → Bool
  matches id m =
      if leb_ℤ (pos 0) id
      then m.has_correlation_id && eqb_ℤ m.correlation_id id
      else not m.has_correlation_id

  unfoldable pub push : ElectrumMessage J → List (ElectrumMessage J) → List (ElectrumMessage J)
  push m queue = m ∷ queue

  abbrev keep_front :
      ElectrumMessage J
      → Option (ElectrumMessage J × List (ElectrumMessage J))
      → Option (ElectrumMessage J × List (ElectrumMessage J))
  keep_front m none = none
  keep_front m (some (found, rest)) = some (found, m ∷ rest)

  -- find_msg_with_id and the erase of what it finds
  unfoldable pub extract :
      ℤ → List (ElectrumMessage J) → Option (ElectrumMessage J × List (ElectrumMessage J))
  extract id [] = none
  extract id (m ∷ queue) = if matches id m then some (m, queue) else keep_front m (extract id queue)

  unfoldable pub contains_msg_with_id : ℤ → List (ElectrumMessage J) → Bool
  contains_msg_with_id id queue = elim (extract id queue) [ none ↦ false | some _ ↦ true ]

  unfoldable pub contains_msg_with_id_bulk : List ℤ → List (ElectrumMessage J) → Bool
  contains_msg_with_id_bulk [] queue = true
  contains_msg_with_id_bulk (id ∷ ids) queue =
      if contains_msg_with_id id queue then contains_msg_with_id_bulk ids queue else false

  -- `none` while the wait's condition does not hold: the caller is blocked.
  unfoldable pub pop_reply :
      ℤ → List (ElectrumMessage J) → Option (ElectrumMessage J × List (ElectrumMessage J))
  pop_reply id queue = if contains_msg_with_id id queue then extract id queue else none

  abbrev take_more :
      (List (ElectrumMessage J) → List (ElectrumMessage J) × List (ElectrumMessage J))
      → List (ElectrumMessage J)
      → Option (ElectrumMessage J × List (ElectrumMessage J))
      → List (ElectrumMessage J) × List (ElectrumMessage J)
  take_more more queue none = ([], queue)
  take_more more queue (some (m, rest)) = (m ∷ (more rest).0, (more rest).1)

  -- What pop_reply_bulk does once its wait has ended, by the condition or by the timeout: it stops
  -- at the first id that has no message.
  unfoldable pub pop_reply_bulk :
      List ℤ → List (ElectrumMessage J) → List (ElectrumMessage J) × List (ElectrumMessage J)
  pop_reply_bulk [] queue = ([], queue)
  pop_reply_bulk (id ∷ ids) queue = take_more (pop_reply_bulk ids) queue (extract id queue)
