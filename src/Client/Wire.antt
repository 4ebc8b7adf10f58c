-- ===== src/Client/Wire.antt =====
-- The client over the socket client, and as the interface that the wallet uses.
use binglib.Base.{ℕ, Bool}
use binglib.Json.{JsonLibrary}
use binglib.Electrum.{ElectrumInterface}
use binglib.Socket.{
  Network, SocketClient, ElectrumErrorCallback, send_request, receive_response,
  receive_response_bulk, eat_response, do_interrupt,
}
use binglib.Base.{◌++◌, [], ◌∷◌, true}
use binglib.Client.{
  Connection, RonghuaClient, get_history, get_transaction, get_balance, get_utxos,
  scripthash_subscribe, scripthash_subscribe_bulk,
}
use binglib.Client.Bulk.{get_history_bulk, get_transaction_bulk}

module _ {J W : Type 0} (json : JsonLibrary J) (network : Network W) where
  abbrev pub wire : Connection J (SocketClient J W × W)
  wire = record {
    send_request = send_request json network;
    receive_response = receive_response json network;
    receive_response_bulk = receive_response_bulk json network;
    eat_response = eat_response json network;
  }

module _ {J W : Type 0} where
  -- RonghuaClient::subscribe_to_error_events and clear_error_events_subscriptions
  unfoldable pub subscribe_to_error_events :
      ElectrumErrorCallback W → SocketClient J W → SocketClient J W
  subscribe_to_error_events callback s = record s {
    electrum_error_callbacks = s.electrum_error_callbacks ++ callback ∷ [];
  }

  unfoldable pub clear_error_events_subscriptions : SocketClient J W → SocketClient J W
  clear_error_events_subscriptions s = record s { electrum_error_callbacks = [] }

-- RonghuaClient::do_interrupt
unfoldable pub interrupt : {J W : Type 0} → JsonLibrary J → SocketClient J W → SocketClient J W
interrupt json s = do_interrupt json (record s { interrupt_requested = true })

module _ {J W : Type 0} (json : JsonLibrary J) (connection : Connection J W) (memory : ℕ → Bool)
    (fuel : ℕ) where
  abbrev pub ronghua_interface : ElectrumInterface (RonghuaClient × W)
  ronghua_interface = record {
    scripthash_subscribe = scripthash_subscribe json connection;
    scripthash_subscribe_bulk = scripthash_subscribe_bulk json connection;
    get_history = get_history json connection memory;
    get_history_bulk =
        λ addresses callbacks. get_history_bulk json connection fuel memory addresses;
    get_transaction = get_transaction json connection;
    get_transaction_bulk = λ txids callbacks. get_transaction_bulk json connection fuel txids;
    get_balance = get_balance json connection;
    get_utxos = get_utxos json connection;
  }
