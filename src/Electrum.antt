-- ===== src/Electrum.antt =====
-- src/electrumclient/electrum_model.hpp and electrum_interface.hpp: what the Electrum server
-- answers, and the interface that RonghuaClient implements. An implementation is a record of
-- actions on a world `W`, the server and the connection.
pub mod Requests
pub mod Answers
use binglib.Base.{ℕ, String, Bool, List}
use binglib.Base.Int.{ℤ}
use binglib.Base.Effect.{Action}

pub record AddressHistoryItem : Type 0 where
  pub txid : String
  pub height : ℤ
  pub fresh : Bool

abbrev pub AddressHistory : Type 0
AddressHistory = List AddressHistoryItem

-- long, signed
pub record AddressBalance : Type 0 where
  pub confirmed : ℤ
  pub unconfirmed : ℤ

pub record Utxo : Type 0 where
  pub tx_pos : ℕ
  pub tx_id : String
  pub value : ℕ
  pub height : ℤ

pub record ProgressEvent : Type 0 where
  pub history_read_delta : ℕ
  pub history_total : ℕ
  pub txs_read_delta : ℕ
  pub txs_total : ℕ

abbrev pub ProgressCallback : Type 0 → Type 0
ProgressCallback W = ProgressEvent → Action W (Unit {0})

-- The operations of the interface that the modelled components call.
pub record ElectrumInterface (W : Type 0) : Type 0 where
  pub scripthash_subscribe : String → Action W (Unit {0})
  pub scripthash_subscribe_bulk : List String → Action W (Unit {0})
  pub get_history : String → Action W AddressHistory
  pub get_history_bulk : List String → List (ProgressCallback W) → Action W (List AddressHistory)
  pub get_transaction : String → Action W String
  pub get_transaction_bulk : List String → List (ProgressCallback W) → Action W (List String)
  pub get_balance : String → Action W AddressBalance
  pub get_utxos : String → Action W (List Utxo)
