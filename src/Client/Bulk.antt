-- ===== src/Client/Bulk.antt =====
-- The bulk requests of RonghuaClient. Their loops take fuel, the number of rounds; a loop that uses it up
-- is `blocked`.
pub mod Sends
pub mod Complete
pub mod Silent
mod Tests
use binglib.Base.{
  ℕ, zero, suc, String, Bool, List, [], ◌∷◌, ◌++◌, length, take, drop, ltb, if◌then◌else◌,
}
use binglib.Base.Int.{ℤ, pos}
use binglib.Base.Effect.{Action, Result, ok, err, blocked, pure, throw, lift, on_world, ◌>>=◌, ◌>>◌}
use binglib.Json.{JsonLibrary}
use binglib.Electrum.{AddressHistory}
use binglib.Electrum.Requests.{electrum_request_to_json}
use binglib.Client.{
  Connection, Call, Reader, next_id, current_id, send_request_no_response, answered, result_by,
  history_reader,
}

module _ {J W : Type 0} (json : JsonLibrary J) (connection : Connection J W) where
  -- The first loop of a bulk request: a request for each parameter, and their ids.
  unfoldable pub send_all : String → List String → Call W (List ℤ)
  unfolding send_request_no_response
  send_all method [] = pure []
  send_all method (param ∷ params) = do
    id ← next_id
    let json_request =
        electrum_request_to_json json (record { method = method; id = pos id; params = param ∷ [] })
    id' ← current_id
    sent ← send_request_no_response json connection json_request id'
    ids ← send_all method params
    pure (sent ∷ ids)

module _ {J A : Type 0} (json : JsonLibrary J) (msg : String) (read : Reader json A) where
  abbrev add_answer : List A → Result A → (List A → Result (List A)) → Result (List A)
  add_answer found (err e) more = err e
  add_answer found (ok a) more = more (found ++ a ∷ [])

  -- The second loop: the responses, read and added one by one.
  unfoldable pub read_all : List J → List A → Result (List A)
  read_all [] found = ok found
  read_all (r ∷ responses) found =
      add_answer found (answered json msg read (ok r)) (read_all responses)

module _ {J W A : Type 0} (json : JsonLibrary J) (connection : Connection J W) (method : String)
    (read : Reader json A) where
  -- doGetHistoryBulk and doGetTransactionBulk
  unfoldable pub do_bulk : List String → List A → Call W (List A)
  do_bulk params found = do
    ids ← send_all json connection method params
    responses ← on_world (connection.receive_response_bulk ids)
    lift (read_all json method read responses found)

  -- The loop of getHistoryBulk and getTransactionBulk: cur_pos is the number of answers found.
  unfoldable pub bulk_loop : ℕ → ℕ → List String → List A → Call W (List A)
  bulk_loop chunk_factor zero params found = throw blocked
  bulk_loop chunk_factor (suc fuel) params found =
      if ltb (length found) (length params)
      then (do
        more ← do_bulk (take chunk_factor (drop (length found) params)) found
        bulk_loop chunk_factor fuel params more)
      else pure found

module _ {J W : Type 0} (json : JsonLibrary J) (connection : Connection J W) (fuel : ℕ) where
  unfoldable pub get_history_bulk : (ℕ → Bool) → List String → Call W (List AddressHistory)
  get_history_bulk memory addresses =
      bulk_loop json connection "blockchain.scripthash.get_history" (history_reader json memory) 25
        fuel addresses []

  unfoldable pub get_transaction_bulk : List String → Call W (List String)
  get_transaction_bulk txids =
      bulk_loop json connection "blockchain.transaction.get" (result_by json json.get_string) 100
        fuel txids []
