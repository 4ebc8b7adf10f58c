-- ===== src/Electrum/Answers.antt =====
-- The answers of an Electrum server, from JSON: src/electrumclient/electrum_model.cpp. What a conversion
-- fills is new at each of its calls, so it returns the value; where it throws, that is lost.
use binglib.Base.{ℕ, suc, String, Bool, List, [], ◌∷◌, if◌then◌else◌}
use binglib.Base.Text.{is_empty, str_eq, tail}
use binglib.Base.Effect.{Result, ok, then_ok, cons_ok, map_ok}
use binglib.Electrum.{AddressHistoryItem, AddressHistory, AddressBalance, Utxo}
use binglib.InputQueue.{ElectrumMessage}
use binglib.Json.{JsonLibrary}

pub record ServerInfo : Type 0 where
  pub host : String
  pub service : String
  pub version : String
  pub pruning : String

abbrev is_scripthash_update : {J : Type 0} → ElectrumMessage J → Bool
is_scripthash_update msg = str_eq msg.method "blockchain.scripthash.subscribe"

module _ {J : Type 0} (json : JsonLibrary J) where
  -- `fresh` is not set: it is what the memory of the new item holds.
  abbrev pub address_history_item_from_json : Bool → J → Result AddressHistoryItem
  address_history_item_from_json fresh j =
      then_ok (then_ok (json.at "tx_hash" j) json.get_string) λ txid.
        then_ok (then_ok (json.at "height" j) json.get_int)
          λ height. ok (record { txid = txid; height = height; fresh = fresh })

  -- The loop, from index `i` on; `memory i` is the uninitialised `fresh` of that item.
  abbrev history_items_from_json : (ℕ → Bool) → ℕ → List J → Result AddressHistory
  history_items_from_json memory i [] = ok []
  history_items_from_json memory i (j ∷ items) =
      cons_ok (address_history_item_from_json (memory i) j)
        (history_items_from_json memory (suc i) items)

  abbrev pub address_history_from_json : (ℕ → Bool) → J → Result AddressHistory
  address_history_from_json memory j = history_items_from_json memory 0 (json.items j)

  abbrev pub address_balance_from_json : J → Result AddressBalance
  address_balance_from_json j = then_ok (then_ok (json.at "confirmed" j) json.get_long) λ confirmed.
      then_ok (then_ok (json.at "unconfirmed" j) json.get_long)
        λ unconfirmed. ok (record { confirmed = confirmed; unconfirmed = unconfirmed })

  abbrev pub utxo_from_json : J → Result Utxo
  utxo_from_json j = then_ok (then_ok (json.at "tx_pos" j) json.get_uint32) λ tx_pos.
      then_ok (then_ok (json.at "value" j) json.get_uint64) λ value.
        then_ok (then_ok (json.at "tx_hash" j) json.get_string) λ tx_id.
          then_ok (then_ok (json.at "height" j) json.get_int)
            λ height. ok (record { tx_pos = tx_pos; tx_id = tx_id; value = value; height = height })

  abbrev pub utxos_from_json : J → Result (List Utxo)
  utxos_from_json j = map_ok utxo_from_json (json.items j)

  -- Index 1 of the inner loop of server_info_from_json; later ones change nothing.
  abbrev with_service : List J → ServerInfo → Result ServerInfo
  with_service [] server_info = ok server_info
  with_service (r ∷ features) server_info = then_ok (json.get_string r) λ service.
      ok (if is_empty service then server_info else record server_info { service = tail service })

  -- The inner loop.
  abbrev with_features : List J → ServerInfo → Result ServerInfo
  with_features [] server_info = ok server_info
  with_features (r ∷ features) server_info =
      then_ok (json.get_string r)
        λ version. with_service features (record server_info { version = version })

  -- The outer loop: index 0 and those from 3 on change nothing.
  abbrev with_items : List J → ServerInfo → Result ServerInfo
  with_items [] server_info = ok server_info
  with_items (ip ∷ []) server_info = ok server_info
  with_items (ip ∷ host ∷ []) server_info =
      then_ok (json.get_string host) λ name. ok (record server_info { host = name })
  with_items (ip ∷ host ∷ features ∷ items) server_info =
      then_ok (json.get_string host)
        λ name. with_features (json.items features) (record server_info { host = name })

  abbrev pub server_info_from_json : J → Result ServerInfo
  server_info_from_json j =
      with_items (json.items j) (record { host = ""; service = ""; version = ""; pruning = "" })

  abbrev pub server_infos_from_json : J → Result (List ServerInfo)
  server_infos_from_json j = map_ok server_info_from_json (json.items j)
