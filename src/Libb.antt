-- ===== src/Libb.antt =====
-- src/libbitcoinclient/libb_client.cpp: the requests to a libbitcoin server.
-- obelisk_client is not part of the repository: each of its calls, together with the `wait` that
-- runs its handlers, is an action that says which handler ran.
pub mod Send
pub mod Connect
mod Tests
use binglib.Base.{ℕ, String, Option, none, some, List, ◌++◌}
use binglib.Base.Int.{ℤ}
use binglib.Base.Text.{concat}
use binglib.Base.Effect.{Action, invalid_argument, undefined_behaviour, pure, throw, ◌>>=◌}
use binglib.Bitcoin.{Bytes, Libbitcoin, PaymentAddress, PointValue, Transaction}

-- Which handler `wait` ran: on_error with the message of its code, on_reply, or none of them.
pub data Reply (A : Type 0) : Type 0 where
  failed : String → Reply A
  replied : A → Reply A
  silent : Reply A

pub record ObeliskClient (W : Type 0) : Type 0 where
  -- address, satoshis and algorithm of select_outputs
  pub blockchain_fetch_unspent_outputs : PaymentAddress → ℕ → ℕ → Action W (Reply (List PointValue))
  pub blockchain_fetch_transaction : Bytes → Action W (Reply Transaction)
  -- a reply carries the message of a code other than success
  pub transaction_pool_broadcast : Transaction → Action W (Reply (Option String))
  pub blockchain_fetch_last_height : Action W (Reply ℕ)

module _ {W : Type 0} (client : ObeliskClient W) where
  -- on_error throws at once; with no reply `points_value` is as it was.
  abbrev utxo_reply : List PointValue → Reply (List PointValue) → Action W (List PointValue)
  utxo_reply points_value (failed message) =
      throw (invalid_argument (concat "Error Code: " message))
  utxo_reply points_value (replied pv) = pure pv
  utxo_reply points_value silent = pure points_value

  abbrev pub fetch_utxo : PaymentAddress → ℕ → ℕ → List PointValue → Action W (List PointValue)
  fetch_utxo address satoshis algorithm points_value = do
    reply ← client.blockchain_fetch_unspent_outputs address satoshis algorithm
    utxo_reply points_value reply

  -- `height` is uninitialised until a reply comes.
  abbrev height_reply : Reply ℕ → Action W ℕ
  height_reply (failed message) = throw (invalid_argument (concat "Error Code: " message))
  height_reply (replied block_height) = pure block_height
  height_reply silent = throw undefined_behaviour

  abbrev pub fetch_height : Action W ℕ
  fetch_height = do reply ← client.blockchain_fetch_last_height; height_reply reply

  -- on_error takes the message down, and it is thrown after the wait.
  abbrev tx_reply : Transaction → Reply Transaction → Action W Transaction
  tx_reply transaction (failed message) =
      throw (invalid_argument (concat "Fetch transaction failed with error code: " message))
  tx_reply transaction (replied fetched) = pure fetched
  tx_reply transaction silent = pure transaction

  -- The transaction that the caller passes by reference goes in and comes back.
  abbrev pub fetch_tx : Libbitcoin → String → Transaction → Action W Transaction
  fetch_tx lib tx_id transaction = do
    reply ← client.blockchain_fetch_transaction (lib.decode_hash tx_id)
    tx_reply transaction reply

  -- blockchain_fetch_history3 for an address, whose entries are added to the caller's.
  abbrev history_reply : {H : Type 0} → List H → Reply (List H) → Action W (List H)
  history_reply history (failed message) =
      throw (invalid_argument (concat "Fetch history failed with error code: " message))
  history_reply history (replied history_list) = pure (history ++ history_list)
  history_reply history silent = pure history

  abbrev fetch_history :
      {H : Type 0}
      → (PaymentAddress → Action W (Reply (List H)))
      → PaymentAddress
      → List H
      → Action W (List H)
  fetch_history blockchain_fetch_history3 address history = do
    reply ← blockchain_fetch_history3 address
    history_reply history reply

  -- blockchain_fetch_block_header for a height
  abbrev header_reply : {Header : Type 0} → Header → Reply Header → Action W Header
  header_reply header (failed message) =
      throw (invalid_argument (concat "Fetch header failed with error code: " message))
  header_reply header (replied fetched) = pure fetched
  header_reply header silent = pure header

  abbrev fetch_header :
      {Header : Type 0} → (ℤ → Action W (Reply Header)) → ℤ → Header → Action W Header
  fetch_header blockchain_fetch_block_header height header = do
    reply ← blockchain_fetch_block_header height
    header_reply header reply

  abbrev sent : Reply (Option String) → Action W (Unit {0})
  sent (failed message) = throw (invalid_argument (concat "Send failed with error code: " message))
  sent (replied (some message)) = throw (invalid_argument (concat "Send failed " message))
  sent (replied none) = pure tt
  sent silent = pure tt

  abbrev send_decoded : Option Transaction → Action W (Unit {0})
  send_decoded none = throw (invalid_argument "could not decode transaction")
  send_decoded (some tx) = do reply ← client.transaction_pool_broadcast tx; sent reply

  abbrev send_chunk : Libbitcoin → Option Bytes → Action W (Unit {0})
  send_chunk lib none = throw (invalid_argument "could not decode transaction from hex")
  send_chunk lib (some tx_chunk) = send_decoded (lib.tx_from_data tx_chunk)

  unfoldable pub send_tx : Libbitcoin → String → Action W (Unit {0})
  send_tx lib tx_hex = send_chunk lib (lib.decode_base16 tx_hex)
