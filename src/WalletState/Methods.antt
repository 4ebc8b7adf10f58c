-- ===== src/WalletState/Methods.antt =====
-- The methods of WalletState that ask the server or change the state.
use binglib.Base.{
  ℕ, suc, String, Bool, true, false, Option, none, some, List, [], ◌∷◌, ◌++◌, map, null, length,
  get_elem?, if◌then◌else◌,
}
use binglib.Base.Text.{is_empty}
use binglib.Base.Dict.{Dict, insert, index}
use binglib.Base.Effect.{
  Result, ok, err, invalid_argument, out_of_range, pure, throw, lift, gets, on_world, on_object,
  ◌>>=◌, ◌>>◌,
}
use binglib.Bitcoin.{Libbitcoin, Transaction}
use binglib.Electrum.{
  ElectrumInterface, AddressHistory, AddressHistoryItem, ProgressCallback, ProgressEvent,
}
use binglib.Converter.{base58_to_spkh_hex}
use binglib.Queue
use mathlib.Core.Option
use binglib.Queue.{BlockingQueue}
use binglib.WalletState.Defs.{
  WalletState, Method, TransactionInfo, HistoryViewRow, update, hex_2_tx, txids_of, with_freshness,
  set_insert_all, sort_history,
}

abbrev or_out_of_range : {A : Type 0} → Option A → Result A
or_out_of_range none = err out_of_range
or_out_of_range (some a) = ok a

module _ {W : Type 0} (lib : Libbitcoin) (electrum : ElectrumInterface W) where
  abbrev pub read_txhex : String → Method W String
  read_txhex txid = on_object λ s.
      let (tx_hex, cache) = index "" txid s.txid_to_txhex_cache in
      (tx_hex, record s { txid_to_txhex_cache = cache })

  abbrev pub write_txhex : String → String → Method W (Unit {0})
  write_txhex txid tx_hex =
      update λ s. record s { txid_to_txhex_cache = insert txid tx_hex s.txid_to_txhex_cache }

  abbrev pub fetch_txhex : String → Method W String
  fetch_txhex txid = do
    tx_hex ← on_world (electrum.get_transaction txid)
    write_txhex txid tx_hex
    pure tx_hex

  unfoldable pub get_transaction : String → Method W Transaction
  get_transaction txid = do
    cached ← read_txhex txid
    tx_hex ← (if is_empty cached then fetch_txhex txid else pure cached)
    lift (hex_2_tx lib tx_hex)

  abbrev pub read_empty : String → Method W Bool
  read_empty address = on_object λ s.
      let (known, cache) = index false address s.history_cache_empty in
      (known, record s { history_cache_empty = cache })

  abbrev pub read_history : String → Method W (List AddressHistoryItem)
  read_history address = on_object λ s.
      let (items, cache) = index [] address s.history_cache in
      (items, record s { history_cache = cache })

  abbrev pub write_history : String → List AddressHistoryItem → Method W (Unit {0})
  write_history address items =
      update λ s. record s { history_cache = insert address items s.history_cache }

  -- if (history_items.empty()) address_2_history_cache_empty_[address] = true;
  abbrev pub write_empty : String → List AddressHistoryItem → Method W (Unit {0})
  write_empty address items = update λ s. record s {
    history_cache_empty =
        if null items then insert address true s.history_cache_empty else s.history_cache_empty;
  }

  abbrev pub fetch_history : String → List AddressHistoryItem → Method W (List AddressHistoryItem)
  fetch_history address history_items = do
    address_spkh ← lift (base58_to_spkh_hex lib address)
    history ← on_world (electrum.get_history address_spkh)
    let items = history_items ++ map (with_freshness true) history
    write_history address items
    write_empty address items
    pure items

  -- The vector that the caller passes by reference goes in and comes back.
  unfoldable pub get_history : String → List AddressHistoryItem → Method W (List AddressHistoryItem)
  get_history address history_items = do
    known_empty ← read_empty address
    if known_empty then pure history_items else do
      address_history ← read_history address
      if null address_history
          then fetch_history address history_items
          else pure (history_items ++ map (with_freshness false) address_history)

  -- The loop of refresh_all_history, with the set so far.
  unfoldable pub gather_history :
      List String → List AddressHistoryItem → Method W (List AddressHistoryItem)
  gather_history [] ahi_set = pure ahi_set
  gather_history (address ∷ addresses) ahi_set = do
    history_items ← get_history address []
    gather_history addresses (set_insert_all history_items ahi_set)

  unfoldable pub refresh_all_history : Method W (Unit {0})
  refresh_all_history = do
    addresses ← gets (λ s. s.0.addresses)
    ahi_set ← gather_history addresses []
    update (λ s. record s { all_history = ahi_set })

  abbrev pub sort_all_history : Method W (Unit {0})
  sort_all_history = update λ s. record s { all_history = sort_history s.all_history }

  abbrev transaction_info : AddressHistoryItem → Transaction → TransactionInfo
  transaction_info item tx = record { tx = tx; height = item.height; fresh = item.fresh }

  unfoldable pub load_txs : List AddressHistoryItem → Method W (List TransactionInfo)
  load_txs [] = pure []
  load_txs (item ∷ items) = do
    tx ←
        (if is_empty item.txid
          then throw (invalid_argument "empty transaction id in get_all_txs_sorted")
          else get_transaction item.txid)
    txs ← load_txs items
    pure (transaction_info item tx ∷ txs)

  unfoldable pub get_all_txs_sorted : Method W (List TransactionInfo)
  get_all_txs_sorted = do
    refresh_all_history
    sort_all_history
    all_history ← gets (λ s. s.0.all_history)
    load_txs all_history

  -- push_progress_event, callback by callback
  unfoldable pub push_progress_event :
      ProgressEvent → List (ProgressCallback W) → Method W (Unit {0})
  push_progress_event event [] = pure tt
  push_progress_event event (c ∷ callbacks) = do
    on_world (c event)
    push_progress_event event callbacks

  unfoldable pub convert_all : List String → Result (List String)
  convert_all [] = ok []
  convert_all (a ∷ addresses) = elim (base58_to_spkh_hex lib a) [
    | err e ↦ err e
    | ok spkh ↦ elim (convert_all addresses) [ err e ↦ err e | ok spkhs ↦ ok (spkh ∷ spkhs) ]
  ]

  -- The loop over the histories, from index `i` on.
  unfoldable pub store_histories :
      List AddressHistory → ℕ → List AddressHistoryItem → Method W (List AddressHistoryItem)
  store_histories [] i ahi_set = pure ahi_set
  store_histories (history ∷ histories) i ahi_set = do
    addresses ← gets (λ s. s.0.addresses)
    address ← lift (or_out_of_range (get_elem? addresses i))
    write_history address history
    write_empty address history
    store_histories histories (suc i) (set_insert_all history ahi_set)

  unfoldable pub refresh_all_history_bulk : Method W (Unit {0})
  unfolding convert_all
  refresh_all_history_bulk = do
    addresses ← gets (λ s. s.0.addresses)
    callbacks ← gets (λ s. s.0.progress_callbacks)
    push_progress_event
        (record {
          history_read_delta = 0;
          history_total = length addresses;
          txs_read_delta = 0;
          txs_total = 0;
        })
        callbacks
    addresses_spkh ← lift (convert_all addresses)
    histories ← on_world (electrum.get_history_bulk addresses_spkh callbacks)
    ahi_set ← store_histories histories 0 []
    update (λ s. record s { all_history = ahi_set })

  -- The loop over all_history_ with the fetched texts, from index `i` on.
  unfoldable pub store_txs :
      List AddressHistoryItem → List String → ℕ → Method W (List TransactionInfo)
  store_txs [] tx_hexes i = pure []
  store_txs (item ∷ items) tx_hexes i = do
    tx_hex ← lift (or_out_of_range (get_elem? tx_hexes i))
    write_txhex item.txid tx_hex
    tx ← lift (hex_2_tx lib tx_hex)
    txs ← store_txs items tx_hexes (suc i)
    pure (transaction_info item tx ∷ txs)

  unfoldable pub get_all_txs_sorted_bulk : Method W (List TransactionInfo)
  get_all_txs_sorted_bulk = do
    refresh_all_history_bulk
    sort_all_history
    all_history ← gets (λ s. s.0.all_history)
    callbacks ← gets (λ s. s.0.progress_callbacks)
    tx_hexes ← on_world (electrum.get_transaction_bulk (txids_of all_history) callbacks)
    store_txs all_history tx_hexes 0

  unfoldable pub store_txhexes : List String → List String → ℕ → Method W (Unit {0})
  store_txhexes [] tx_hexes i = pure tt
  store_txhexes (txid ∷ txids) tx_hexes i = do
    tx_hex ← lift (or_out_of_range (get_elem? tx_hexes i))
    write_txhex txid tx_hex
    store_txhexes txids tx_hexes (suc i)

  unfoldable pub load_txs_bulk : List String → Method W (Unit {0})
  load_txs_bulk txids = do
    callbacks ← gets (λ s. s.0.progress_callbacks)
    funding_tx_hexes ← on_world (electrum.get_transaction_bulk txids callbacks)
    store_txhexes txids funding_tx_hexes 0

  unfoldable pub subscribe_address : String → Method W (Unit {0})
  subscribe_address address = do
    address_spkh ← lift (base58_to_spkh_hex lib address)
    on_world (electrum.scripthash_subscribe address_spkh)

  unfoldable pub subscribe_address_bulk : List String → Method W (Unit {0})
  unfolding convert_all
  subscribe_address_bulk addresses = do
    addresses_spkh ← lift (convert_all addresses)
    on_world (electrum.scripthash_subscribe_bulk addresses_spkh)

module _ {W : Type 0} where
  unfoldable pub clear_caches : WalletState W → WalletState W
  clear_caches s = record s {
    txid_to_txhex_cache = [];
    history_cache = [];
    history_cache_empty = [];
    all_history = [];
  }

  unfoldable pub clear_caches_for_address : String → WalletState W → WalletState W
  clear_caches_for_address address s = record s {
    all_history = [];
    history_cache = insert address [] s.history_cache;
    history_cache_empty = insert address false s.history_cache_empty;
  }

  unfoldable pub push_history_update : List HistoryViewRow → WalletState W → WalletState W
  push_history_update rows s = record s { history_queue = Queue.push rows s.history_queue }

  unfoldable pub push_balance_update : Dict ℕ → WalletState W → WalletState W
  push_balance_update balances s = record s { balance_queue = Queue.push balances s.balance_queue }

  unfoldable pub push_historyhash_update : Dict String → WalletState W → WalletState W
  push_historyhash_update hashes s = record s {
    historyhash_queue = Queue.push hashes s.historyhash_queue;
  }

  -- `none` while the caller is blocked
  unfoldable pub get_history_update : WalletState W → Option (List HistoryViewRow × WalletState W)
  get_history_update s =
      Option.map (λ r. (r.0, record s { history_queue = r.1 })) (Queue.pop s.history_queue)

  unfoldable pub get_balance_update : WalletState W → Option (Dict ℕ × WalletState W)
  get_balance_update s =
      Option.map (λ r. (r.0, record s { balance_queue = r.1 })) (Queue.pop s.balance_queue)

  unfoldable pub get_historyhash_update : WalletState W → Option (Dict String × WalletState W)
  get_historyhash_update s =
      Option.map (λ r. (r.0, record s { historyhash_queue = r.1 })) (Queue.pop s.historyhash_queue)

  unfoldable pub subscribe_to_progress_events : ProgressCallback W → WalletState W → WalletState W
  subscribe_to_progress_events callback s = record s {
    progress_callbacks = s.progress_callbacks ++ callback ∷ [];
  }

  unfoldable pub clear_progress_events_subscriptions : WalletState W → WalletState W
  clear_progress_events_subscriptions s = record s { progress_callbacks = [] }
