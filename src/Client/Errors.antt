-- ===== src/Client/Errors.antt =====
-- What becomes of an error that the server reports.
use binglib.Base.{refl, suc, ◌∙◌, ◌∷◌, All, ℕ, ◌≡◌, Bool, true, false, String, List, []}
use binglib.Base.Int.{ℤ, pos}
use binglib.Base.Text.{is_empty, signed_decimal}
use binglib.Base.Effect.{Result, ok, err, invalid_argument, foreign}
use binglib.Json.{JsonLibrary}
use binglib.Electrum.Requests.{electrum_request_to_json}
use binglib.Client.{
  Connection, RonghuaClient, error_of, process_exception, send_request, answered, result_by, Reader,
  request_as, get_history, get_transaction, get_balance, get_utxos, get_block_header,
  broadcast_transaction,
}

-- A response with an error's message and no result, and what the library documents of it and of null:
-- at throws on a missing key and on null, operator[] adds a null for a missing key, and a null has no items.
pub record IsError {J : Type 0} (json : JsonLibrary J) (response with_null : J) (message : String)
    : Type 0 where
  pub what_at : String
  pub what_null : String
  pub nonempty : json.is_empty response ≡ false
  pub reports : error_of json response ≡ ok message
  pub no_result : json.at "result" response ≡ err (foreign what_at)
  pub adds : json.index "result" response ≡ ok (json.null, with_null)
  pub nonempty_then : json.is_empty with_null ≡ false
  pub reports_then : error_of json with_null ≡ ok message
  pub null_is_null : json.is_null json.null ≡ true
  pub null_items : json.items json.null ≡ []
  pub null_at : json.at "confirmed" json.null ≡ err (foreign what_null)

module _ {J W : Type 0} (json : JsonLibrary J) (connection : Connection J W) (response : J) where
  -- Called in the state `s`, a request's method sends a request that is taken, and the wait for its id then
  -- ends with the response.
  abbrev pub IsReplied : RonghuaClient × W → String × List String → Type 0
  IsReplied s (method, params) =
      let id = suc s.0.id_counter in
      let request =
        electrum_request_to_json json (record { method = method; id = pos id; params = params }) in
      let sent = connection.send_request request s.1 in
      (sent.0 ≡ ok tt) × ((connection.receive_response (pos id) sent.1).0 ≡ ok response)

  request_as-answered :
      {A : Type 0} (msg method : String) (params : List String) (read : Reader json A)
      (s : RonghuaClient × W)
      → IsReplied s (method, params)
      → (request_as json connection msg method params read s).0
        ≡ answered json msg read (ok response)
  unfolding request_as send_request
  request_as-answered msg method params read s replied = rw (replied.0, replied.1) refl

module _ {J : Type 0} (json : JsonLibrary J) (response with_null : J) (message : String)
    (error : IsError json response with_null message) where
  result_thrown :
      {A : Type 0} (msg : String) (get : J → Result A)
      → answered json msg (result_by json get) (ok response) ≡ err (invalid_argument message)
  unfolding process_exception
  result_thrown msg get = rw (error.no_result, error.nonempty, error.reports)

module _ {J W : Type 0} (json : JsonLibrary J) (connection : Connection J W)
    (response with_null : J) (message : String)
    (error : IsError json response with_null message) where
  -- A null in place of the result is read as a history with no items.
  pub get_history_lost :
      (memory : ℕ → Bool) (address : String) (s : RonghuaClient × W)
      → IsReplied json connection response s ("blockchain.scripthash.get_history", address ∷ [])
      → (get_history json connection memory address s).0 ≡ ok []
  unfolding get_history
  get_history_lost memory address s replied =
      request_as-answered json connection response _ _ _ _ s replied
      ∙ rw (error.adds, error.null_items) refl

  -- The requests that the methods make for a key or a height.
  abbrev pub requests : String → ℤ → List (String × List String)
  requests key height =
      ("blockchain.transaction.get", key ∷ [])
      ∷ ("blockchain.scripthash.get_balance", key ∷ [])
      ∷ ("blockchain.block.header", signed_decimal height ∷ "0" ∷ [])
      ∷ ("blockchain.transaction.broadcast", key ∷ [])
      ∷ ("blockchain.scripthash.get_history", key ∷ [])
      ∷ ("blockchain.scripthash.listunspent", key ∷ [])
      ∷ []

  -- If, whichever of these requests is made in a state, it is taken and answered with an error under its
  -- id, then for a key that is not the empty text a request for a transaction, a balance, a block header
  -- or a broadcast throws std::invalid_argument with the server's message; but a request for a
  -- history or for outputs returns an empty list, as if there were none.
  pub server_error_cases :
      (memory : ℕ → Bool) (key : String) (height : ℤ) (s : RonghuaClient × W)
      → is_empty key ≡ false
      → All (IsReplied json connection response s) (requests key height)
      → ((get_transaction json connection key s).0 ≡ err (invalid_argument message))
        × ((get_balance json connection key s).0 ≡ err (invalid_argument message))
        × ((get_block_header json connection height s).0 ≡ err (invalid_argument message))
        × ((broadcast_transaction json connection key s).0 ≡ err (invalid_argument message))
        × ((get_history json connection memory key s).0 ≡ ok [])
        × ((get_utxos json connection key s).0 ≡ ok [])
  unfolding get_transaction get_balance get_block_header broadcast_transaction get_utxos
      process_exception
  server_error_cases memory key height s given replied =
      let thrown = result_thrown json response with_null message error in
      (
        rw given (request_as-answered json connection response _ _ _ _ s replied.0 ∙ thrown _ _),
        request_as-answered json connection response _ _ _ _ s replied.1.0
            ∙ rw (error.adds, error.null_at, error.nonempty_then, error.reports_then) refl,
        request_as-answered json connection response _ _ _ _ s replied.1.1.0 ∙ thrown _ _,
        request_as-answered json connection response _ _ _ _ s replied.1.1.1.0 ∙ thrown _ _,
        get_history_lost memory key s replied.1.1.1.1.0,
        request_as-answered json connection response _ _ _ _ s replied.1.1.1.1.1.0
            ∙ rw (error.adds, error.null_is_null) refl,
      )
