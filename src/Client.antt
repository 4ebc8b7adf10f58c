-- ===== src/Client.antt =====
-- src/ronghuaclient/ronghua_client.cpp: the client of an Electrum server. The socket client is the parameter
-- Connection, which Client/Wire fills by the functions of Socket. The methods that only pass a call on to
-- it, or change what it shares, are those of Socket.
pub mod Bulk
pub mod Wire
pub mod Errors
pub mod Race
pub mod Limits
pub mod Cached
pub mod Served
pub mod Lifecycle
mod Tests
use binglib.Base.{ℕ, suc, String, Bool, List, [], ◌∷◌, ◌++◌, if◌then◌else◌}
use binglib.Base.Int.{ℤ, pos}
use binglib.Base.Text.{concat, is_empty, decimal, signed_decimal}
use binglib.Base.Effect.{
  Action, Exception, Result, ok, err, invalid_argument, caught, then_ok, pure, throw, lift, gets,
  on_world, on_object, ◌>>=◌, ◌>>◌,
}
use binglib.Json.{JsonLibrary}
use binglib.Electrum.{AddressHistory, AddressBalance, Utxo}
use binglib.Electrum.Requests.{electrum_request_to_json, version_request_to_json}
use binglib.Electrum.Answers.{
  address_history_from_json, address_balance_from_json, utxos_from_json, ServerInfo,
}

-- The operations of RonghuaSocketClient that the requests make.
pub record Connection (J W : Type 0) : Type 0 where
  pub send_request : J → Action W (Unit {0})
  pub receive_response : ℤ → Action W J
  pub receive_response_bulk : List ℤ → Action W (List J)
  pub eat_response : ℤ → Action W (Unit {0})

-- The state of the object that is its own: an int, which does not overflow here.
pub record RonghuaClient : Type 0 where
  pub id_counter : ℕ

abbrev pub Call : Type 0 → Type 0 → Type 0
Call W A = Action (RonghuaClient × W) A

-- ++id_counter
abbrev pub next_id : {W : Type 0} → Call W ℕ
next_id = on_object (λ c. (suc c.id_counter, record { id_counter = suc c.id_counter }))

-- id_counter, read again
abbrev pub current_id : {W : Type 0} → Call W ℕ
current_id = gets (λ s. s.0.id_counter)

module _ {J W : Type 0} (json : JsonLibrary J) (connection : Connection J W) where
  unfoldable pub send_request : J → ℕ → Call W J
  send_request json_request id = do
    on_world (connection.send_request json_request)
    on_world (connection.receive_response (pos id))

  unfoldable pub send_request_no_response : J → ℕ → Call W ℤ
  send_request_no_response json_request id = do
    on_world (connection.send_request json_request)
    pure (pos id)

  unfoldable pub send_request_eat_response : J → ℕ → Call W (Unit {0})
  send_request_eat_response json_request id = do
    on_world (connection.send_request json_request)
    on_world (connection.eat_response (pos id))

module _ {J : Type 0} (json : JsonLibrary J) where
  -- The server's message, if the response has one.
  abbrev pub error_of : J → Result String
  error_of response =
      then_ok (then_ok (json.at "error" response) (json.at "message")) json.get_string

  abbrev message_or : String → J → Result String → Exception
  message_or msg response (ok error_message) = invalid_argument error_message
  message_or msg response (err e) =
      invalid_argument
        (concat msg (concat " failed: " (concat (json.dump response) (concat " " (json.what e)))))

  -- What process_exception throws.
  unfoldable pub process_exception : Exception → J → String → Exception
  process_exception e response msg =
      if json.is_empty response
      then invalid_argument (concat msg (concat " failed: " (json.what e)))
      else message_or msg response (error_of response)

  -- How a response is read: what comes out, or the exception, and the response afterwards.
  abbrev pub Reader : Type 0 → Type 0
  Reader A = J → Result A × J

  abbrev pub result_by : {A : Type 0} → (J → Result A) → Reader A
  result_by get response = (then_ok (json.at "result" response) get, response)

  abbrev indexed_by : {A : Type 0} → (J → J → Result A) → J → Result (J × J) → Result A × J
  indexed_by get response (err e) = (err e, response)
  indexed_by get response (ok (value, response')) = (get value response', response')

  -- json_response["result"], which adds a null where there is none
  abbrev pub indexed_result_by : {A : Type 0} → (J → Result A) → Reader A
  indexed_result_by get response =
      indexed_by (λ value response'. get value) response (json.index "result" response)

  abbrev pub history_reader : (ℕ → Bool) → Reader AddressHistory
  history_reader memory = indexed_result_by (address_history_from_json json memory)

  abbrev pub utxos_reader : Reader (List Utxo)
  utxos_reader response =
      indexed_by
        (λ value response'.
          if json.is_null value
          then ok []
          else then_ok (json.at "result" response') (utxos_from_json json))
        response (json.index "result" response)

  -- The handler of a method's try block.
  abbrev handled : {A : Type 0} → String → Result A × J → Result A
  handled msg (ok a, response) = ok a
  handled msg (err e, response) = err (caught e (λ x. process_exception x response msg))

  -- The try block, from the outcome of send_request on.
  abbrev pub answered : {A : Type 0} → String → Reader A → Result J → Result A
  answered msg read (err e) = handled msg (err e, json.null)
  answered msg read (ok response) = handled msg (read response)

module _ {J W : Type 0} (json : JsonLibrary J) (connection : Connection J W) where
  abbrev pub attempt : {A : Type 0} → String → Reader json A → Call W J → Call W A
  attempt msg read sent s = (answered json msg read (sent s).0, (sent s).1)

  -- A method behind the increment of the counter: the counter is read again, for the id to wait for.
  abbrev pub exchange : {A : Type 0} → String → String → List String → Reader json A → ℕ → Call W A
  exchange msg method params read id = do
    let json_request =
        electrum_request_to_json json (record { method = method; id = pos id; params = params })
    id' ← current_id
    attempt msg read (send_request json connection json_request id')

  -- The methods that make one request have this form, with `msg` for their failures.
  unfoldable pub request_as :
      {A : Type 0} → String → String → List String → Reader json A → Call W A
  request_as msg method params read = do id ← next_id; exchange msg method params read id

  abbrev request : {A : Type 0} → String → List String → Reader json A → Call W A
  request method = request_as method method

  unfoldable pub request_eaten : String → List String → Call W (Unit {0})
  request_eaten method params = do
    id ← next_id
    let json_request =
        electrum_request_to_json json (record { method = method; id = pos id; params = params })
    id' ← current_id
    send_request_eat_response json connection json_request id'

  unfoldable pub get_history : (ℕ → Bool) → String → Call W AddressHistory
  get_history memory address =
      request "blockchain.scripthash.get_history" (address ∷ []) (history_reader json memory)

  unfoldable pub scripthash_subscribe : String → Call W (Unit {0})
  scripthash_subscribe scripthash =
      request_eaten "blockchain.scripthash.subscribe" (scripthash ∷ [])

  abbrev pub scripthash_subscribe_bulk : List String → Call W (Unit {0})
  scripthash_subscribe_bulk scripthashes =
      throw (invalid_argument "scripthashSubscribeBulk not implemented")

  abbrev pub get_server_peers : Call W (List ServerInfo)
  get_server_peers = throw (invalid_argument "getServerPeers not implemented")

  unfoldable pub get_utxos : String → Call W (List Utxo)
  get_utxos scripthash =
      request "blockchain.scripthash.listunspent" (scripthash ∷ []) (utxos_reader json)

  unfoldable pub get_transaction : String → Call W String
  get_transaction txid =
      if is_empty txid
      then throw (invalid_argument "getTransaction txid is empty")
      else request "blockchain.transaction.get" (txid ∷ []) (result_by json json.get_string)

  unfoldable pub get_balance : String → Call W AddressBalance
  get_balance address =
      request "blockchain.scripthash.get_balance" (address ∷ [])
        (indexed_result_by json (address_balance_from_json json))

  unfoldable pub get_block_header : ℤ → Call W String
  get_block_header height =
      request "blockchain.block.header" (signed_decimal height ∷ "0" ∷ [])
        (result_by json json.get_string)

  unfoldable pub ping : Call W (Unit {0})
  ping = request_eaten "server.ping" []

  -- A double is what `get_double` gets.
  unfoldable pub estimate_fee : {D : Type 0} → (J → Result D) → ℤ → Call W D
  estimate_fee get_double wait_blocks =
      request "blockchain.estimatefee" (signed_decimal wait_blocks ∷ []) (result_by json get_double)

  unfoldable pub broadcast_transaction : String → Call W String
  broadcast_transaction tx_hex =
      request "blockchain.transaction.broadcast" (tx_hex ∷ []) (result_by json json.get_string)

  unfoldable pub get_version : String → List String → Call W (List String)
  get_version client_name protocol_min_max = do
    id ← next_id
    let json_request = version_request_to_json json (record {
      method = "server.version";
      id = pos id;
      param1 = client_name;
      param2 = protocol_min_max;
    })
    id' ← current_id
    attempt "blockchain.transaction.broadcast" (result_by json json.get_strings)
        (send_request json connection json_request id')
