-- ===== src/Client/Bulk/Tests.antt =====
-- Bulk requests over the socket client, to a server that answers one request at each wait, and to one that
-- does not answer.
use binglib.Base.{
  ℕ, suc, ◌≡◌, ◌==◌, refl, String, none, List, [], ◌∷◌, map, arith, if◌then◌else◌, take,
}
use binglib.Base.Int.{pos}
use binglib.Base.Text.{codes, decimal, written}
use binglib.Base.Effect.{ok, err, blocked}
use binglib.Bitcoin.{Bytes}
use binglib.Json.{JsonLibrary}
use binglib.Json.Samples.{Value, dump, dump_elements, dump_members, sample_json, sample_json_of}
use binglib.InputQueue.{push, extract, pop_reply_bulk}
use binglib.Socket.{
  Network, SocketClient, ReadEvent, from_json, do_reads, do_read, receive, async_read,
}
use binglib.Socket
use binglib.Socket.Reassembly.{listening}
use binglib.Client.{Connection, result_by}
use binglib.Client.Wire.{wire}
use binglib.Client.Bulk.{bulk_loop}
use binglib.Client.Bulk.Complete.{Rounds, bulk_loop_complete}
use binglib.Client.Bulk.Silent.{AreSilent, after_rounds, bulk_loop-silent}
use binglib.Client.Bulk.Sends.{client}

abbrev object : List (String × Value) → Value
object fields = sample_json.object fields

abbrev get : String
get = "blockchain.transaction.get"

-- No wait gets an answer. The world counts what is written.
abbrev silent_network : Network ℕ
silent_network = record {
  write = λ bytes w. (ok tt, suc w);
  reads = λ id w. ([], w);
  reads_bulk = λ ids w. ([], w);
}

abbrev silent : Connection Value (SocketClient Value ℕ × ℕ)
silent = wire sample_json silent_network

abbrev idle_world : ℕ → SocketClient Value ℕ × ℕ
idle_world w = (listening sample_json [] [] [], w)

abbrev three_ids : List String
three_ids = "11" ∷ "12" ∷ "13" ∷ []

two_rounds :
    AreSilent sample_json silent get
      (result_by sample_json sample_json.get_string)
      (take 2 three_ids)
      2
      3
      (idle_world 7)
unfolding dump dump_elements dump_members decimal Socket.send_request Socket.receive_response_bulk
    do_reads pop_reply_bulk extract
two_rounds = ((refl, (refl, tt)), refl, ((refl, (refl, tt)), refl, tt))

bulk_loop-silent_example :
    bulk_loop sample_json silent get
      (result_by sample_json sample_json.get_string)
      2
      2
      three_ids
      []
      (client 3, idle_world 7)
    ≡ (
      err blocked,
      (
        client 7,
        after_rounds sample_json silent get
            (result_by sample_json sample_json.get_string)
            (take 2 three_ids)
            2
            3
            (idle_world 7),
      ),
    )
bulk_loop-silent_example =
    bulk_loop-silent sample_json silent get (result_by sample_json sample_json.get_string) 2 2 "11"
      ("12" ∷ "13" ∷ []) 3 (idle_world 7) two_rounds

-- A server whose answer to each parameter is that parameter.
abbrev answer_with : ℕ → String → Value
answer_with id param = object (("id", Value.number (pos id)) ∷ ("result", Value.text param) ∷ [])

abbrev text_with : String → String → Bytes
text_with id param = codes (written ("{\"id\":" ∷ id ∷ ",\"result\":\"" ∷ param ∷ "\"}" ∷ []))

abbrev event_of : String → String → ReadEvent
event_of id param = record { error = none; bytes = text_with id param }

abbrev answering_json : JsonLibrary Value
answering_json = sample_json_of (
    (text_with "1" "11", answer_with 1 "11")
    ∷ (text_with "3" "12", answer_with 3 "12")
    ∷ (text_with "4" "13", answer_with 4 "13")
    ∷ [])

-- In the first wait the answer to request 1 comes, in the second those to 3 and 4. The world counts what is
-- written.
abbrev answering_network : Network ℕ
answering_network = record {
  write = λ bytes w. (ok tt, suc w);
  reads = λ id w. ([], w);
  reads_bulk = λ ids w.
      (if w == 2 then event_of "1" "11" ∷ [] else event_of "3" "12" ∷ event_of "4" "13" ∷ [], w);
}

abbrev answering : Connection Value (SocketClient Value ℕ × ℕ)
answering = wire answering_json answering_network

rounds :
    Rounds answering_json answering get
      (result_by answering_json answering_json.get_string)
      answer_with
      (λ param. param)
      (λ id param. refl)
      2
      three_ids
      0
      (listening answering_json [] [] [], 0)
unfolding dump dump_elements dump_members decimal Socket.send_request Socket.receive_response_bulk
    do_reads do_read receive async_read from_json push pop_reply_bulk extract
rounds =
    Rounds.round 1 (omega arith) (refl, (refl, tt)) refl refl
      (Rounds.round 2 (omega arith) (refl, (refl, tt)) refl refl Rounds.over)

bulk_loop_complete_example :
    (bulk_loop answering_json answering get
      (result_by answering_json answering_json.get_string)
      2
      4
      three_ids
      []
      (client 0, (listening answering_json [] [] [], 0))).0
    ≡ ok (map (λ param. param) three_ids)
bulk_loop_complete_example =
    bulk_loop_complete answering_json answering get
      (result_by answering_json answering_json.get_string) answer_with (λ param. param)
      (λ id param. refl) 2 4 three_ids 0 (listening answering_json [] [] [], 0) (omega arith)
      (omega arith) rounds
