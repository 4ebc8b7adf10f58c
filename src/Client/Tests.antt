-- ===== src/Client/Tests.antt =====
-- Clients of servers that answer with an error and that answer in between notifications.
use binglib.Base.{
  All, none, ℕ, zero, suc, ◌≡◌, refl, String, Bool, false, true, List, [], ◌∷◌, leb→le, arith,
}
use binglib.Base.Int.{pos}
use binglib.Base.Text.{codes, concat, decimal}
use binglib.Base.Effect.{ok, err, undefined_behaviour, invalid_argument}
use binglib.Converter.{base58_to_spkh_hex}
use binglib.Sample.{sample_lib}
use binglib.WalletState.{WalletState, fresh_state}
use binglib.WalletState
use binglib.Json.Samples.{
  Value, Members, sample_reply, reply_text, dump, dump_elements, dump_members, sample_json,
  sample_json_of,
}
use binglib.Bitcoin.{Bytes}
use binglib.Json.{JsonLibrary}
use binglib.Socket.{
  Network, SocketClient, ReadEvent, from_json, do_reads, do_read, receive, async_read,
}
use binglib.Socket
use binglib.Client.{
  Connection, RonghuaClient, result_by, get_transaction, get_balance, get_block_header, get_history,
  get_utxos, request_as, broadcast_transaction, send_request,
}
use binglib.Client.Wire.{wire, ronghua_interface}
use binglib.Client.Errors.{IsError, IsReplied, requests, server_error_cases}
use binglib.Client.Limits.{broadcast_too_long}
use binglib.Client.Cached.{history_error_cached}
use binglib.InputQueue.{push, pop_reply, extract, contains_msg_with_id}
use binglib.Socket.Reassembly.{Response, IsCut, listening, reads_of}
use binglib.Client.Served.{request_as-Response}
use binglib.Client.Race.{Progress, Calls, Reach}

abbrev object : List (String × Value) → Value
object fields = sample_json.object fields

abbrev error_fields : List (String × Value)
error_fields =
    ("id", Value.number (pos 1)) ∷ ("error", object (("message", Value.text "busy") ∷ [])) ∷ []

abbrev error_response : Value
error_response = object error_fields

abbrev with_result : Value
with_result = object (
    ("id", Value.number (pos 1))
    ∷ ("error", object (("message", Value.text "busy") ∷ []))
    ∷ ("result", Value.nothing)
    ∷ [])

-- A network on which each request is answered by the error, under id 1. The world counts what is written.
abbrev error_text : Bytes
error_text = codes "{\"id\":1,\"error\":{\"message\":\"busy\"}}"

abbrev error_json : JsonLibrary Value
error_json = sample_json_of ((error_text, error_response) ∷ [])

abbrev error_network : Network ℕ
error_network = record {
  write = λ bytes w. (ok tt, suc w);
  reads = λ id w. (record { error = none; bytes = error_text } ∷ [], w);
  reads_bulk = λ ids w. ([], w);
}

error_response-IsError : IsError error_json error_response with_result "busy"
error_response-IsError = record {
  what_at = "key not found";
  what_null = "wrong type";
  nonempty = refl;
  reports = refl;
  no_result = refl;
  adds = refl;
  nonempty_then = refl;
  reports_then = refl;
  null_is_null = refl;
  null_items = refl;
  null_at = refl;
}

abbrev failing : Connection Value (SocketClient Value ℕ × ℕ)
failing = wire error_json error_network

abbrev new_client : ℕ → RonghuaClient × (SocketClient Value ℕ × ℕ)
new_client w = (record { id_counter = 0 }, (listening error_json [] [] [], w))

abbrev memory : ℕ → Bool
memory i = false

requests-IsReplied : All (IsReplied error_json failing error_response (new_client 7)) (
    requests error_json failing error_response with_result "busy" error_response-IsError "11"
      (pos 3))
unfolding dump dump_elements dump_members decimal from_json push Socket.send_request
    Socket.receive_response do_reads do_read receive async_read pop_reply extract
    contains_msg_with_id
requests-IsReplied = (
  (refl, refl),
  ((refl, refl), ((refl, refl), ((refl, refl), ((refl, refl), ((refl, refl), tt))))),
)

history-IsReplied :
    IsReplied error_json failing error_response
      (new_client 7)
      ("blockchain.scripthash.get_history", "09876543210987654321" ∷ [])
unfolding dump dump_elements dump_members decimal from_json push Socket.send_request
    Socket.receive_response do_reads do_read receive async_read pop_reply extract
    contains_msg_with_id
history-IsReplied = (refl, refl)

server_error_cases_example :
    ((get_transaction error_json failing "11" (new_client 7)).0 ≡ err (invalid_argument "busy"))
    × ((get_balance error_json failing "11" (new_client 7)).0 ≡ err (invalid_argument "busy"))
    × ((get_block_header error_json failing (pos 3) (new_client 7)).0
        ≡ err (invalid_argument "busy"))
    × ((broadcast_transaction error_json failing "11" (new_client 7)).0
        ≡ err (invalid_argument "busy"))
    × ((get_history error_json failing memory "11" (new_client 7)).0 ≡ ok [])
    × ((get_utxos error_json failing "11" (new_client 7)).0 ≡ ok [])
server_error_cases_example =
    server_error_cases error_json failing error_response with_result "busy" error_response-IsError
      memory "11" (pos 3) (new_client 7) refl requests-IsReplied

abbrev wallet : WalletState (RonghuaClient × (SocketClient Value ℕ × ℕ))
wallet = fresh_state ("src" ∷ []) [] []

history_error_cached_example :
    let electrum = ronghua_interface error_json failing memory 4 in
    let asked = WalletState.get_history sample_lib electrum "src" [] (wallet, new_client 7) in
    let again = WalletState.get_history sample_lib electrum "src" [] (asked.1.0, new_client 9) in
    (asked.0 ≡ ok []) × (again.0 ≡ ok []) × (again.1.1 ≡ new_client 9)
unfolding base58_to_spkh_hex
history_error_cached_example =
    history_error_cached sample_lib error_json failing error_response with_result "busy"
      error_response-IsError memory 4 "src" "09876543210987654321" wallet (new_client 7)
      (new_client 9) history-IsReplied refl refl refl

abbrev zeros : ℕ → String
zeros zero = ""
zeros (suc n) = concat "0" (zeros n)

abbrev network : Network ℕ
network = record {
  write = λ bytes w. (ok tt, suc w);
  reads = λ id w. ([], w);
  reads_bulk = λ ids w. ([], w);
}

abbrev socket : SocketClient Value ℕ
socket = record {
  queue = [];
  oss = [];
  reading = true;
  interrupt_requested = false;
  electrum_error_callbacks = [];
}

broadcast_too_long_example :
    ((broadcast_transaction sample_json
        (wire sample_json network)
        (zeros 1536)
        (record { id_counter = 0 }, (socket, 7))).0
      ≡ err undefined_behaviour)
    × (Socket.send_request sample_json network sample_reply (socket, 7) ≡ (ok tt, (socket, 8)))
unfolding dump dump_elements dump_members decimal
broadcast_too_long_example =
    broadcast_too_long sample_json network (zeros 1536) sample_reply (record { id_counter = 0 })
      socket 7 (leb→le _ _ refl) (leb→le _ _ refl) (leb→le _ _ refl)

-- A network on which a notification comes during each wait, and the reply to request 4 in two reads.
abbrev in_one : Response Value
in_one = record {
  text = codes "{}";
  value = Value.object Members.no_members;
  chunks = codes "{}" ∷ [];
}

abbrev in_two : Response Value
in_two = record {
  text = reply_text;
  value = sample_reply;
  chunks = codes "{\"id\":4,\"resu" ∷ codes "lt\":\"12\"}" ∷ [];
}

abbrev busy_network : Network ℕ
busy_network = record {
  write = λ bytes w. (ok tt, suc w);
  reads = λ id w. (reads_of (in_one ∷ in_two ∷ in_one ∷ []), suc w);
  reads_bulk = λ ids w. ([], w);
}

in_one-IsCut : IsCut sample_json in_one
in_one-IsCut = record {
  whole = refl;
  parses = refl;
  parts = tt;
  some_chunk = refl;
  nonempty = (refl, tt);
}

in_two-IsCut : IsCut sample_json in_two
in_two-IsCut = record {
  whole = refl;
  parses = refl;
  parts = (refl, tt);
  some_chunk = refl;
  nonempty = (refl, (refl, tt));
}

request_as-Response_example :
    request_as sample_json
      (wire sample_json busy_network)
      "blockchain.transaction.get"
      "blockchain.transaction.get"
      ("11" ∷ [])
      (result_by sample_json sample_json.get_string)
      (record { id_counter = 3 }, (listening sample_json [] [] [], 7))
    ≡ (
      ok "12",
      (
        record { id_counter = 4 },
        (
          listening sample_json
              (from_json sample_json (Value.object Members.no_members)
                ∷ from_json sample_json (Value.object Members.no_members)
                ∷ [])
              []
              [],
          9,
        ),
      ),
    )
unfolding dump dump_elements dump_members decimal from_json push
request_as-Response_example =
    request_as-Response sample_json busy_network [] "blockchain.transaction.get"
      "blockchain.transaction.get" ("11" ∷ []) (result_by sample_json sample_json.get_string) 3 []
      (in_one ∷ []) (in_one ∷ []) in_two 7 8 9 (omega arith) refl refl
      (in_one-IsCut, (in_two-IsCut, (in_one-IsCut, tt))) refl (refl, tt)

-- Two calls of getTransaction.
abbrev get : String
get = "blockchain.transaction.get"

abbrev ReachCalls : Calls → Calls → Type 0
ReachCalls = Reach sample_json get get ("11" ∷ []) (result_by sample_json sample_json.get_string)

-- The second call has made its request, and the first waits for its own.
abbrev in_turn : Calls
in_turn = record { id_counter = 5; first = Progress.waiting 4 4; second = Progress.numbered 5 }
