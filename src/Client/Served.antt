-- ===== src/Client/Served.antt =====
-- A request from its call to its answer: the client, the socket client and the queue together.
use mathlib.Core.List.{map-append}
use binglib.Base.{
  ℕ, suc, ◌≡◌, ◌<◌, refl, ap, ◌∙◌, true, false, String, some, List, [], ◌∷◌, ◌++◌, map, length,
  le→leb, All,
}
use binglib.Base.Int.{ℤ, pos}
use binglib.Base.Effect.{ok}
use binglib.Json.{JsonLibrary}
use binglib.Electrum.Requests.{electrum_request_to_json}
use binglib.InputQueue.{ElectrumMessage, matches, push, extract, pop_reply}
use binglib.InputQueue.Reply.{push_all, pop_reply-extract}
use binglib.Socket.{Network, ElectrumErrorCallback, request_text, from_json, do_reads}
use binglib.Socket
use binglib.Socket.Reassembly.{Response, IsCut, listening, reads_of, do_reads-reads_of}
use binglib.Client.{Reader, answered, request_as, send_request}
use binglib.Client.Wire.{wire}

module _ {J : Type 0} where
  push_all-append :
      (ms ns queue : List (ElectrumMessage J))
      → push_all (ms ++ ns) queue ≡ push_all ns (push_all ms queue)
  push_all-append [] ns queue = refl
  push_all-append (m ∷ ms) ns queue = push_all-append ms ns (push m queue)

  -- Messages that come later and are not for the id change nothing about which one is found.
  extract-push_all :
      (id : ℤ) (m : ElectrumMessage J) (later queue rest : List (ElectrumMessage J))
      → extract id queue ≡ some (m, rest)
      → All (λ n. matches id n ≡ false) later
      → extract id (push_all later queue) ≡ some (m, push_all later rest)
  unfolding extract push
  extract-push_all id m [] queue rest found misses = found
  extract-push_all id m (n ∷ later) queue rest found misses =
      extract-push_all id m later (push n queue) (push n rest) (rw (misses.0, found)) misses.1

  pop_reply-push_all :
      (id : ℤ) (m : ElectrumMessage J) (earlier later queue : List (ElectrumMessage J))
      → matches id m ≡ true
      → All (λ n. matches id n ≡ false) later
      → pop_reply id (push_all (earlier ++ m ∷ later) queue)
        ≡ some (m, push_all later (push_all earlier queue))
  unfolding extract push
  pop_reply-push_all id m earlier later queue hit misses =
      pop_reply-extract id _
      ∙ ap (extract id) (push_all-append earlier (m ∷ later) queue)
      ∙ extract-push_all id m later (push m (push_all earlier queue)) (push_all earlier queue)
          (rw hit) misses

module _ {J W : Type 0} (json : JsonLibrary J) (network : Network W)
    (callbacks : List (ElectrumErrorCallback W)) where
  abbrev messages : List (Response J) → List (ElectrumMessage J)
  messages responses = map (λ r. from_json json r.value) responses

  misses_of :
      (id : ℤ) (responses : List (Response J))
      → All (λ r. matches id (from_json json r.value) ≡ false) responses
      → All (λ n. matches id n ≡ false) (messages responses)
  misses_of id [] misses = tt
  misses_of id (r ∷ responses) misses = (misses.0, misses_of id responses misses.1)

  -- What a wait for a reply returns and leaves, when the reply comes during it.
  receive_response-Response :
      (id : ℤ) (queue : List (ElectrumMessage J)) (earlier later : List (Response J))
      (reply : Response J) (w w' : W)
      → network.reads id w ≡ (reads_of (earlier ++ reply ∷ later), w')
      → All (IsCut json) (earlier ++ reply ∷ later)
      → matches id (from_json json reply.value) ≡ true
      → All (λ r. matches id (from_json json r.value) ≡ false) later
      → Socket.receive_response json network id (listening json queue [] callbacks, w) ≡ (
        ok reply.value,
        (
          listening json
              (push_all (messages later) (push_all (messages earlier) queue))
              []
              callbacks,
          w',
        ),
      )
  unfolding Socket.receive_response from_json
  receive_response-Response id queue earlier later reply w w' come cuts hit misses =
      let put = do_reads-reads_of json callbacks w' queue (earlier ++ reply ∷ later) cuts in
      let taken =
        ap (λ ms. pop_reply id (push_all ms queue))
          (map-append (λ r. from_json json r.value) earlier (reply ∷ later))
        ∙ pop_reply-push_all id (from_json json reply.value) (messages earlier) (messages later)
            queue hit (misses_of id later misses) in
      rw (come, put, taken) refl

  -- If a request fits the array, the network takes it, and the responses that come while the caller waits
  -- are cut into non-empty reads none of which holds parts of two, each being JSON at its last read and
  -- not before, and one of them is for the request's id and none after it is, then a request method
  -- returns what it reads from that response. It takes the response out of the queue, and every other
  -- response is in the queue afterwards, in the order in which they came.
  pub request_as-Response :
      {A : Type 0} (msg method : String) (params : List String) (read : Reader json A) (c : ℕ)
      (queue : List (ElectrumMessage J)) (earlier later : List (Response J)) (reply : Response J)
      (w w' w'' : W)
      → let request =
          electrum_request_to_json json
            (record { method = method; id = pos (suc c); params = params }) in
        length (request_text json request) < 1536
        → network.write (request_text json request) w ≡ (ok tt, w')
        → network.reads (pos (suc c)) w' ≡ (reads_of (earlier ++ reply ∷ later), w'')
        → All (IsCut json) (earlier ++ reply ∷ later)
        → matches (pos (suc c)) (from_json json reply.value) ≡ true
        → All (λ r. matches (pos (suc c)) (from_json json r.value) ≡ false) later
        → request_as json
            (wire json network)
            msg
            method
            params
            read
            (record { id_counter = c }, (listening json queue [] callbacks, w))
          ≡ (
            answered json msg read (ok reply.value),
            (
              record { id_counter = suc c },
              (
                listening json
                    (push_all (messages later) (push_all (messages earlier) queue))
                    []
                    callbacks,
                w'',
              ),
            ),
          )
  unfolding request_as send_request Socket.send_request
  request_as-Response msg method params read c queue earlier later reply w w' w'' fits taken come
        cuts hit misses =
      let received =
        receive_response-Response (pos (suc c)) queue earlier later reply w' w'' come cuts hit
          misses in
      rw (le→leb _ _ fits, taken, received) refl
