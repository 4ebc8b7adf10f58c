-- ===== src/Socket/Interrupt.antt =====
-- Who wakes up when the client is interrupted.
use binglib.Base.{ℕ, ◌≡◌, refl, false, none, some, List, [], ◌∷◌, arith}
use binglib.Base.Int.{pos, negsuc}
use binglib.Base.Effect.{ok, err, blocked}
use binglib.Json.{JsonLibrary}
use binglib.InputQueue.Reply.{pop_reply-extract}
use binglib.InputQueue.{ElectrumMessage, pop_reply, push, extract, contains_msg_with_id}
use binglib.Socket.{
  Network, ReadEvent, SocketClient, do_reads, get_subscription_event, receive_response,
  do_interrupt, poison_message,
}

module _ {J W : Type 0} (json : JsonLibrary J) (network : Network W) where
  do_reads_off :
      (events : List ReadEvent) (s : SocketClient J W) (w : W)
      → s.reading ≡ false
      → do_reads json events (s, w) ≡ (s, w)
  unfolding do_reads
  do_reads_off [] s w off = refl
  do_reads_off (event ∷ events) s w off = rw off refl

  pop_reply-poison_message :
      (queue : List (ElectrumMessage J))
      → pop_reply (negsuc 0) (push (poison_message json) queue) ≡ some (poison_message json, queue)
  unfolding pop_reply contains_msg_with_id extract push
  pop_reply-poison_message queue = refl

  pop_reply-poison :
      (n : ℕ) (queue : List (ElectrumMessage J))
      → pop_reply (pos n) queue ≡ none
      → pop_reply (pos n) (push (poison_message json) queue) ≡ none
  unfolding extract push
  pop_reply-poison n queue missing = ground (
    arith,
    pop_reply-extract (pos n) (push (poison_message json) queue),
    pop_reply-extract (pos n) queue,
  )

  -- After do_interrupt a call of get_subscription_event returns the poison message, whatever else the
  -- queue holds, and takes it out again; but if the reply to a request is not in the queue by then, a
  -- caller that waits for it waits for ever.
  pub get_subscription_event-do_interrupt :
      (s : SocketClient J W) (w : W) (n : ℕ)
      → pop_reply (pos n) s.queue ≡ none
      → ((get_subscription_event json network (do_interrupt json s, w)).0
          ≡ ok (poison_message json))
        × ((get_subscription_event json network (do_interrupt json s, w)).1.0.queue ≡ s.queue)
        × ((receive_response json network (pos n) (do_interrupt json s, w)).0 ≡ err blocked)
  unfolding do_interrupt get_subscription_event receive_response
  get_subscription_event-do_interrupt s w n missing =
      let off = do_interrupt json s in
      let event = network.reads (negsuc 0) w in
      let reply = network.reads (pos n) w in
      let taken = pop_reply-poison_message s.queue in
      (
        rw (do_reads_off event.0 off event.1 refl, taken) refl,
        rw (do_reads_off event.0 off event.1 refl, taken) refl,
        rw (do_reads_off reply.0 off reply.1 refl, pop_reply-poison n s.queue missing) refl,
      )
