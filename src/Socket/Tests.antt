-- ===== src/Socket/Tests.antt =====
-- A client whose server sends the text of an object with no entries.
use binglib.Base.{arith, ℕ, suc, ◌≡◌, ◌++◌, refl, List, [], ◌∷◌, true}
use binglib.Base.Int.{pos}
use binglib.Base.Effect.{ok, err, blocked}
use binglib.Bitcoin.{Bytes}
use binglib.Json.Samples.{Value, Members, sample_json, sample_laws}
use binglib.InputQueue.{pop_reply, contains_msg_with_id, extract}
use binglib.InputQueue.Reply.{push_all}
use binglib.Electrum.Requests.{ElectrumRequest, electrum_request_to_json}
use binglib.Socket.{
  Network, SocketClient, from_json, do_reads, get_subscription_event, receive_response,
  do_interrupt, poison_message,
}
use binglib.Socket.Reassembly.{Response, IsCut, read, listening, reads_of, do_reads-reads_of}
use binglib.Socket.Stuck.{do_reads-stuck}
use binglib.Socket.RoundTrip.{from_json-electrum_request_to_json}
use binglib.Socket.Interrupt.{get_subscription_event-do_interrupt}

abbrev braces : Bytes
braces = 123 ∷ 125 ∷ []

abbrev response_in : List Bytes → Response Value
response_in chunks = record {
  text = braces;
  value = Value.object Members.no_members;
  chunks = chunks;
}

abbrev at_once : Response Value
at_once = response_in (braces ∷ [])

abbrev in_two : Response Value
in_two = response_in ((123 ∷ []) ∷ (125 ∷ []) ∷ [])

at_once-IsCut : IsCut sample_json at_once
at_once-IsCut = record {
  whole = refl;
  parses = refl;
  parts = tt;
  some_chunk = refl;
  nonempty = (refl, tt);
}

in_two-IsCut : IsCut sample_json in_two
in_two-IsCut = record {
  whole = refl;
  parses = refl;
  parts = (refl, tt);
  some_chunk = refl;
  nonempty = (refl, (refl, tt));
}

do_reads-reads_of_example :
    do_reads sample_json
      (reads_of (in_two ∷ at_once ∷ []))
      (listening {W = ℕ} sample_json [] [] [], 7)
    ≡ (
      listening sample_json
          (push_all
            (from_json sample_json (Value.object Members.no_members)
              ∷ from_json sample_json (Value.object Members.no_members)
              ∷ [])
            [])
          []
          [],
      7,
    )
do_reads-reads_of_example =
    do_reads-reads_of sample_json [] 7 [] (in_two ∷ at_once ∷ [])
      (in_two-IsCut, (at_once-IsCut, tt))

do_reads-stuck_example :
    (do_reads sample_json
      (read (braces ++ braces) ∷ read braces ∷ [])
      (listening {W = ℕ} sample_json [] [] [], 7)).0.queue
    ≡ []
do_reads-stuck_example =
    do_reads-stuck sample_json [] [] 7 braces braces (read braces ∷ []) (λ more. refl)

abbrev history_request : ElectrumRequest
history_request = record {
  method = "blockchain.scripthash.get_history";
  id = pos 3;
  params = "11" ∷ [];
}

from_json-electrum_request_to_json_example :
    from_json sample_json (electrum_request_to_json sample_json history_request) ≡ record {
      message = electrum_request_to_json sample_json history_request;
      method = "blockchain.scripthash.get_history";
      has_correlation_id = true;
      correlation_id = pos 3;
      params = "11" ∷ [];
    }
from_json-electrum_request_to_json_example =
    from_json-electrum_request_to_json sample_json sample_laws history_request (omega arith)

-- A network that takes every write, and from which a byte comes during each wait.
abbrev network : Network ℕ
network = record {
  write = λ bytes w. (ok tt, suc w);
  reads = λ id w. (read (123 ∷ []) ∷ [], suc w);
  reads_bulk = λ ids w. ([], suc w);
}

abbrev idle_client : SocketClient Value ℕ
idle_client = listening sample_json [] [] []

get_subscription_event-do_interrupt_example :
    ((get_subscription_event sample_json network (do_interrupt sample_json idle_client, 7)).0
      ≡ ok (poison_message sample_json))
    × ((get_subscription_event sample_json network
          (do_interrupt sample_json idle_client, 7)).1.0.queue
        ≡ [])
    × ((receive_response sample_json network (pos 3) (do_interrupt sample_json idle_client, 7)).0
        ≡ err blocked)
unfolding pop_reply contains_msg_with_id extract
get_subscription_event-do_interrupt_example =
    get_subscription_event-do_interrupt sample_json network idle_client 7 3 refl
