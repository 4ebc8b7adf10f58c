-- ===== src/Socket.antt =====
-- src/ronghuaclient/ronghua_socket_client.cpp: the connection to an Electrum server. The socket itself is
-- the parameter Network: what it writes, and what the reader's thread is handed while a caller waits.
-- The flag and the callbacks that RonghuaClient shares with it by reference are fields here.
pub mod Reassembly
pub mod Stuck
pub mod RoundTrip
pub mod Interrupt
mod Tests
use binglib.Base.{
  ℕ, ◌≤◌, String, Bool, true, false, not, Option, none, some, List, [], ◌∷◌, ◌++◌, map, length,
  null, leb, if◌then◌else◌, suc, ◌==◌,
}
use binglib.Base.Int.{ℤ, pos, negsuc}
use binglib.Base.Text.{codes, concat}
use binglib.Base.Effect.{
  Action, Result, ok, err, undefined_behaviour, blocked, then_ok, or_value, is_ok, throw, pure,
  modify, on_world, on_object, ◌>>=◌, ◌>>◌,
}
use binglib.Bitcoin.{Bytes}
use binglib.Json.{JsonLibrary}
use binglib.InputQueue.{ElectrumMessage, pop_reply, pop_reply_bulk}
use binglib.InputQueue

-- electrum_interface.hpp
pub record ElectrumErrorEvent : Type 0 where
  pub error_code : ℤ
  pub error_message : String

-- A callback returns; what it does is a change of the world.
abbrev pub ElectrumErrorCallback : Type 0 → Type 0
ElectrumErrorCallback W = ElectrumErrorEvent → W → W

-- What async_read_some hands to do_read: an error or none, and the bytes that were read.
pub record ReadEvent : Type 0 where
  pub error : Option ElectrumErrorEvent
  pub bytes : Bytes

pub record Network (W : Type 0) : Type 0 where
  -- boost::asio::write
  pub write : Bytes → Action W (Unit {0})
  -- the reads until the wait for a reply ends, or all that ever come if it does not end
  pub reads : ℤ → W → List ReadEvent × W
  -- the reads until the wait for several replies ends, also by its timeout
  pub reads_bulk : List ℤ → W → List ReadEvent × W

pub record SocketClient (J W : Type 0) : Type 0 where
  pub queue : List (ElectrumMessage J)
  pub oss : Bytes
  -- whether an async_read_some is under way, with do_read as its handler
  pub reading : Bool
  -- atomic<bool>& interrupt_requested_
  pub interrupt_requested : Bool
  -- vector<ElectrumErrorCallback>& electrum_error_callbacks_
  pub electrum_error_callbacks : List (ElectrumErrorCallback W)

module _ {J : Type 0} (json : JsonLibrary J) where
  unfoldable pub from_json : J → ElectrumMessage J
  from_json message =
      let id = then_ok (json.at "id" message) json.get_int in
      record {
        message = message;
        method = or_value "" (then_ok (json.at "method" message) json.get_string);
        has_correlation_id = is_ok id;
        correlation_id = or_value (pos 0) id;
        params = or_value [] (then_ok (json.at "params" message) json.get_strings);
      }

abbrev pub notify : {W : Type 0} → ElectrumErrorEvent → List (ElectrumErrorCallback W) → W → W
notify event [] w = w
notify event (f ∷ callbacks) w = notify event callbacks (f event w)

module _ {J W : Type 0} where
  unfoldable pub push_error : ElectrumErrorEvent → SocketClient J W × W → SocketClient J W × W
  push_error event (s, w) = (s, notify event s.electrum_error_callbacks w)

  unfoldable pub async_read : SocketClient J W → SocketClient J W
  async_read s = if not s.interrupt_requested then record s { reading = true } else s

module _ {J W : Type 0} (json : JsonLibrary J) where
  -- What do_read makes of the text so far: a message if it can be parsed, else it keeps reading.
  abbrev pub take_response : Bytes → Option J → SocketClient J W → SocketClient J W
  take_response candidate_response none s = record s { oss = candidate_response }
  take_response candidate_response (some parsed_response) s = record s {
    queue = InputQueue.push (from_json json parsed_response) s.queue;
    oss = [];
  }

  unfoldable pub receive : Bytes → SocketClient J W → SocketClient J W
  receive bytes s =
      let candidate_response = s.oss ++ bytes in
      if null bytes then s else take_response candidate_response (json.parse candidate_response) s

  abbrev report : Option ElectrumErrorEvent → SocketClient J W × W → SocketClient J W × W
  report none s = s
  report (some event) s = push_error event s

  -- The read that is under way ends by the call.
  unfoldable pub do_read : ReadEvent → SocketClient J W × W → SocketClient J W × W
  unfolding async_read push_error receive
  do_read event (s, w) =
      let (s', w') = report event.error (record s { reading = false }, w) in
      (async_read (receive event.bytes s'), w')

  -- What the reader's thread does with some reads: none once no read is under way.
  unfoldable pub do_reads : List ReadEvent → SocketClient J W × W → SocketClient J W × W
  do_reads [] s = s
  do_reads (event ∷ events) (s, w) =
      let rest = do_reads events (do_read event (s, w)) in if s.reading then rest else (s, w)

-- run_receiving_loop, whose thread runs the io_context
abbrev pub run_receiving_loop : {J W : Type 0} → SocketClient J W → SocketClient J W
run_receiving_loop = async_read

abbrev pub max_length : ℕ
max_length = 1536

-- What strcpy copies into `char request_[max_length]`, and then a terminator. A dump holds no 0, so strlen is
-- its length.
abbrev pub request_text : {J : Type 0} → JsonLibrary J → J → Bytes
request_text json json_request = codes (concat (json.dump json_request) "\n")

-- Whether the copy stays within the array, and what the code goes on with. If it does not, the behaviour is
-- undefined from the copy on: the result says so, whatever the rest does.
abbrev pub strcpy_outcome : {S : Type 0} → Bool → Action S (Unit {0}) → Action S (Unit {0})
strcpy_outcome true rest s = rest s
strcpy_outcome false rest s = (err undefined_behaviour, (rest s).1)

module _ {J W : Type 0} (json : JsonLibrary J) (network : Network W) where
  unfoldable pub send_request : J → Action (SocketClient J W × W) (Unit {0})
  send_request json_request =
      let req = request_text json json_request in
      strcpy_outcome (leb (suc (length req)) max_length) (on_world (network.write req))

  -- The part of a wait in which the reader's thread works.
  abbrev wait_with : (W → List ReadEvent × W) → Action (SocketClient J W × W) (Unit {0})
  wait_with reads (s, w) = let (events, w') = reads w in (ok tt, do_reads json events (s, w'))

  abbrev take_reply :
      Option (ElectrumMessage J × List (ElectrumMessage J))
      → SocketClient J W × W
      → Result (ElectrumMessage J) × (SocketClient J W × W)
  take_reply none s = (err blocked, s)
  take_reply (some (m, rest)) (s, w) = (ok m, (record s { queue = rest }, w))

  -- queue_.pop_reply(id), a wait included
  abbrev wait_reply : ℤ → Action (SocketClient J W × W) (ElectrumMessage J)
  wait_reply id = do wait_with (network.reads id); λ s. take_reply (pop_reply id s.0.queue) s

  unfoldable pub receive_response : ℤ → Action (SocketClient J W × W) J
  receive_response id = do reply_message ← wait_reply id; pure reply_message.message

  unfoldable pub receive_response_bulk : List ℤ → Action (SocketClient J W × W) (List J)
  receive_response_bulk ids = do
    wait_with (network.reads_bulk ids)
    reply_messages ←
        on_object (λ s.
          ((pop_reply_bulk ids s.queue).0, record s { queue = (pop_reply_bulk ids s.queue).1 }))
    pure (map (λ reply_message. reply_message.message) reply_messages)

  unfoldable pub eat_response : ℤ → Action (SocketClient J W × W) (Unit {0})
  eat_response id = do wait_reply id; pure tt

  unfoldable pub get_subscription_event : Action (SocketClient J W × W) (ElectrumMessage J)
  get_subscription_event = wait_reply (negsuc 0)

-- json::parse("{}")
abbrev pub poison_message : {J : Type 0} → JsonLibrary J → ElectrumMessage J
poison_message json = record {
  message = json.object [];
  method = "";
  has_correlation_id = false;
  correlation_id = pos 0;
  params = [];
}

module _ {J W : Type 0} (json : JsonLibrary J) where
  -- Stopping the io_context ends the reader's thread.
  unfoldable pub do_interrupt : SocketClient J W → SocketClient J W
  do_interrupt s = record s {
    queue = InputQueue.push (poison_message json) s.queue;
    reading = false;
  }
