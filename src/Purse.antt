-- ===== src/Purse.antt =====
-- src/libbfunds/purse_accessor.cpp: which address of a wallet pays for a transfer, and the scans of
-- a wallet's balances, outputs and history. `W` is the world of the two servers. What a method
-- changes through a reference is a part of the state, so it stays changed if the method throws.
pub mod Pick
pub mod Search
pub mod Scan
pub mod Outputs
pub mod Pays
pub mod Refused
mod Tests
use binglib.Base.{
  ℕ, String, Bool, Option, none, some, List, [], ◌∷◌, ◌++◌, map, leb, ltb, null, if◌then◌else◌,
}
use binglib.Base.Int.{ℤ}
use binglib.Base.Word.{to_u64}
use binglib.Base.Dict.{Dict, lookup, insert, index}
use binglib.Base.Effect.{
  Action, Result, ok, err, out_of_range, pure, lift, modify, on_world, on_object, then_ok, ◌>>=◌,
  ◌>>◌,
}
use binglib.Bitcoin.{Libbitcoin, OutputPoint, PointValue}
use binglib.Electrum.{ElectrumInterface, AddressHistory, AddressHistoryItem, AddressBalance}
use binglib.Libb.{ObeliskClient, fetch_utxo}
use binglib.Converter.{base58_to_spkh_hex}
use binglib.Funds.{Gathered, find_funds}

pub record AddressFundsInfo : Type 0 where
  pub address : String
  pub requested_funds : ℕ
  pub actual_funds : ℕ

pub record AddressFunds : Type 0 where
  pub address : String
  pub requested_funds : ℕ
  pub actual_funds : ℕ
  pub points : List OutputPoint

pub record UtxoInfo : Type 0 where
  pub address : String
  pub tx : String
  pub output_index : ℕ
  pub value : ℕ
  pub script : String

pub record HistoryItem : Type 0 where
  pub address : String
  pub txid : String
  pub txhex : String
  pub height : ℤ

abbrev pub no_funds : AddressFunds
no_funds = record { address = ""; requested_funds = 0; actual_funds = 0; points = [] }

abbrev pub no_funds_info : AddressFundsInfo
no_funds_info = record { address = ""; requested_funds = 0; actual_funds = 0 }

module _ {W : Type 0} (lib : Libbitcoin) (client : ObeliskClient W) (requested : ℕ) where
  abbrev funds_of : String → Gathered → AddressFunds
  funds_of a (utxos, gathered) = record {
    address = a;
    requested_funds = requested;
    actual_funds = gathered;
    points = utxos;
  }

  unfoldable pub obtain_funds : String → Action W AddressFunds
  obtain_funds address = do
    points ← fetch_utxo client (lib.payment_address_of address) requested lib.select_individual []
    pure (funds_of address (find_funds lib requested points))

  -- The loop of look_for_funds, with the best so far.
  pub look_for_funds_from : List String → AddressFunds → Action W AddressFunds
  look_for_funds_from [] max_funds = pure max_funds
  look_for_funds_from (a ∷ addresses) max_funds = do
    funds ← obtain_funds a
    if leb requested funds.actual_funds
        then pure funds
        else look_for_funds_from addresses
            (if leb max_funds.actual_funds funds.actual_funds then funds else max_funds)

  unfoldable pub look_for_funds : List String → Action W AddressFunds
  unfolding look_for_funds_from
  look_for_funds addresses = look_for_funds_from addresses no_funds

module _ {W : Type 0} (lib : Libbitcoin) (electrum : ElectrumInterface W) where
  -- The confirmed balance of an address, a long, as the uint64_t that the code goes on with.
  unfoldable pub confirmed_balance : String → Action W ℕ
  confirmed_balance a = do
    address_spkh ← lift (base58_to_spkh_hex lib a)
    balance ← electrum.get_balance address_spkh
    pure (to_u64 balance.confirmed)

  -- The balance, also written into address_to_balance.
  unfoldable pub record_balance : String → Action (Dict ℕ × W) ℕ
  unfolding confirmed_balance
  record_balance a = do
    balance ← on_world (confirmed_balance a)
    on_object (λ balances. (balance, insert a balance balances))

  unfoldable pub scan_balances : List String → Action (Dict ℕ × W) (Unit {0})
  scan_balances [] = pure tt
  scan_balances (a ∷ addresses) = do record_balance a; scan_balances addresses

  abbrev history_item : String → AddressHistoryItem → String → HistoryItem
  history_item address item txhex = record {
    address = address;
    txid = item.txid;
    txhex = txhex;
    height = item.height;
  }

  pub append_items : String → AddressHistory → Action (List HistoryItem × W) (Unit {0})
  append_items address [] = pure tt
  append_items address (item ∷ history) = do
    txhex ← on_world (electrum.get_transaction item.txid)
    on_object (λ items. (tt {0}, items ++ history_item address item txhex ∷ []))
    append_items address history

  unfoldable pub find_history : List String → Action (List HistoryItem × W) (Unit {0})
  unfolding append_items
  find_history [] = pure tt
  find_history (address ∷ addresses) = do
    address_spkh ← lift (base58_to_spkh_hex lib address)
    history ← on_world (electrum.get_history address_spkh)
    append_items address history
    find_history addresses

module _ {W : Type 0} (lib : Libbitcoin) (electrum : ElectrumInterface W) (client : ObeliskClient W)
    (requested : ℕ) where
  abbrev balance_only : String → ℕ → AddressFunds
  balance_only a balance = record {
    address = a;
    requested_funds = requested;
    actual_funds = balance;
    points = [];
  }

  -- The loop of look_for_funds_by_balance, with the best so far.
  pub look_by_balance_from : List String → AddressFunds → Action (Dict ℕ × W) AddressFunds
  look_by_balance_from [] max_funds = pure max_funds
  look_by_balance_from (a ∷ addresses) max_funds = do
    balance ← record_balance lib electrum a
    if leb requested balance
        then (do
          funds ← on_world (obtain_funds lib client requested a)
          if leb requested funds.actual_funds
              then pure funds
              else look_by_balance_from addresses
                  (if leb max_funds.actual_funds funds.actual_funds then funds else max_funds))
        else look_by_balance_from addresses
            (if leb max_funds.actual_funds balance then balance_only a balance else max_funds)

  unfoldable pub look_for_funds_by_balance : List String → Action (Dict ℕ × W) AddressFunds
  unfolding look_by_balance_from
  look_for_funds_by_balance addresses = look_by_balance_from addresses no_funds

module _ (requested : ℕ) (address_to_balance : Dict ℕ) where
  abbrev info : String → ℕ → AddressFundsInfo
  info a balance = record { address = a; requested_funds = requested; actual_funds = balance }

  -- address_to_balance.at(a)
  abbrev pub balance_at : Option ℕ → Result ℕ
  balance_at none = err out_of_range
  balance_at (some balance) = ok balance

  pub look_for_address_from : List String → AddressFundsInfo → Result AddressFundsInfo
  look_for_address_from [] max_funds = ok max_funds
  look_for_address_from (a ∷ addresses) max_funds =
      then_ok (balance_at (lookup a address_to_balance)) λ balance.
        if leb requested balance
        then ok (info a balance)
        else look_for_address_from addresses
            (if leb max_funds.actual_funds balance then info a balance else max_funds)

  unfoldable pub look_for_address_with_balance : List String → Result AddressFundsInfo
  unfolding look_for_address_from
  look_for_address_with_balance addresses = look_for_address_from addresses no_funds_info

-- What find_utxos works on by reference: address_to_balance and address_to_utxos.
pub record Scans : Type 0 where
  pub balances : Dict ℕ
  pub utxos : Dict (List UtxoInfo)

module _ {W : Type 0} (lib : Libbitcoin) (client : ObeliskClient W) where
  abbrev utxo_info : String → PointValue → UtxoInfo
  utxo_info address p = record {
    address = address;
    tx = lib.encode_hash p.hash;
    output_index = p.index;
    value = p.value;
    script = "";
  }

  abbrev read_balance : String → Action (Scans × W) ℕ
  read_balance address = on_object λ scans.
      let (balance, balances) = index 0 address scans.balances in
      (balance, record scans { balances = balances })

  abbrev read_utxos : String → Action (Scans × W) (List UtxoInfo)
  read_utxos address = on_object λ scans.
      let (utxos, all_utxos) = index [] address scans.utxos in
      (utxos, record scans { utxos = all_utxos })

  abbrev load_utxos : String → Action (Scans × W) (Unit {0})
  load_utxos address = do
    points ←
        on_world (fetch_utxo client (lib.payment_address_of address) 1 lib.select_individual [])
    on_object (λ scans. (
      tt {0},
      record scans { utxos = insert address (map (utxo_info address) points) scans.utxos },
    ))

  -- One round of the loop of find_utxos.
  unfoldable pub visit_address : String → Action (Scans × W) (Unit {0})
  visit_address address = do
    balance ← read_balance address
    if ltb 0 balance
        then (do utxos ← read_utxos address; if null utxos then load_utxos address else pure tt)
        else pure tt

  unfoldable pub find_utxos : List String → Action (Scans × W) (Unit {0})
  find_utxos [] = pure tt
  find_utxos (address ∷ addresses) = do visit_address address; find_utxos addresses
