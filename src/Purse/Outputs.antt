-- ===== src/Purse/Outputs.antt =====
-- What find_utxos and find_history collect.
use mathlib.Core.List.{append-nil, append_assoc}
use binglib.Base.{
  false, ℕ, String, ◌≡◌, refl, Bool, ◌&&◌, List, [], ◌∷◌, ◌++◌, map, arith, ltb, null,
  if◌then◌else◌, All,
}
use binglib.Base.Text.{str_eq, str_eq_iff, contains}
use binglib.Base.Dict.{lookup, index, value_or, index-value, value-index, lookup-insert}
use binglib.Base.Effect.{ok}
use binglib.Bitcoin.{Libbitcoin, PointValue}
use binglib.Electrum.{ElectrumInterface, AddressHistory}
use binglib.Libb.{ObeliskClient, fetch_utxo}
use binglib.WalletState.Coherent.{IsAnswered}
use binglib.Base.Text.{is_empty}
use binglib.Converter.{base58_to_spkh_hex}
use binglib.Purse.{
  Scans, UtxoInfo, HistoryItem, utxo_info, visit_address, find_utxos, history_item, append_items,
  find_history,
}

-- A balance as address_to_balance[k] reads it, and the outputs as address_to_utxos[k] does.
abbrev pub balance_of : Scans → String → ℕ
balance_of s k = value_or 0 (lookup k s.balances)

abbrev pub utxos_of : Scans → String → List UtxoInfo
utxos_of s k = value_or [] (lookup k s.utxos)

abbrev pub is_missing : Scans → String → Bool
is_missing s k = ltb 0 (balance_of s k) && null (utxos_of s k)

module _ {W : Type 0} (lib : Libbitcoin) (client : ObeliskClient W)
    (points : String → List PointValue)
    (answers : (a : String) (w : W)
      → (fetch_utxo client (lib.payment_address_of a) 1 lib.select_individual [] w).0
        ≡ ok (points a)) where
  visit_address-utxos :
      (a k : String) (s : Scans) (w : W)
      → ((visit_address lib client a (s, w)).0 ≡ ok tt)
        × (balance_of (visit_address lib client a (s, w)).1.0 k ≡ balance_of s k)
        × (utxos_of (visit_address lib client a (s, w)).1.0 k ≡ (
            if str_eq a k && is_missing s a
            then map (utxo_info lib client k) (points k)
            else utxos_of s k))
  unfolding visit_address
  visit_address-utxos a k s w = ground (
    arith,
    answers a w,
    str_eq_iff a k,
    index-value 0 a s.balances,
    value-index 0 a k s.balances,
    index-value [] a s.utxos,
    value-index [] a k s.utxos,
    lookup-insert a k (map (utxo_info lib client a) (points a)) (index [] a s.utxos).1,
  )

  -- If the server lists the outputs of each address alike throughout the call, then find_utxos ends
  -- without an exception; it leaves every balance as it was, and gives each address it is called
  -- with, if that has a balance above 0 and no outputs yet, the listed outputs. All other
  -- entries stay.
  pub find_utxos-utxos :
      (addresses : List String) (k : String) (s : Scans) (w : W)
      → ((find_utxos lib client addresses (s, w)).0 ≡ ok tt)
        × (balance_of (find_utxos lib client addresses (s, w)).1.0 k ≡ balance_of s k)
        × (utxos_of (find_utxos lib client addresses (s, w)).1.0 k ≡ (
            if contains k addresses && is_missing s k
            then map (utxo_info lib client k) (points k)
            else utxos_of s k))
  unfolding find_utxos
  find_utxos-utxos [] k s w = (refl, refl, refl)
  find_utxos-utxos (a ∷ addresses) k s w =
      let s' = (visit_address lib client a (s, w)).1.0 in
      let w' = (visit_address lib client a (s, w)).1.1 in
      ground
        (arith, visit_address-utxos a k s w, find_utxos-utxos addresses k s' w', str_eq_iff a k)

module _ {W : Type 0} (lib : Libbitcoin) (electrum : ElectrumInterface W) (spkh : String → String)
    (history : String → AddressHistory) (txhex : String → String) where
  -- The items of one history, and of the histories of some addresses, one behind the other.
  abbrev pub items_of : String → AddressHistory → List HistoryItem
  items_of a [] = []
  items_of a (item ∷ items) = history_item lib electrum a item (txhex item.txid) ∷ items_of a items

  abbrev pub all_items : List String → List HistoryItem
  all_items [] = []
  all_items (a ∷ addresses) = items_of a (history (spkh a)) ++ all_items addresses

module _ {W : Type 0} (lib : Libbitcoin) (electrum : ElectrumInterface W) (spkh : String → String)
    (history : String → AddressHistory) (txhex : String → String)
    (answered : IsAnswered electrum history txhex) where
  -- The entries of a history have ids.
  abbrev pub AreNamed : AddressHistory → Type 0
  AreNamed = All (λ item. is_empty item.txid ≡ false)

  append_items-items :
      (a : String) (h : AddressHistory) (items : List HistoryItem) (w : W)
      → AreNamed h
      → ((append_items lib electrum a h (items, w)).0 ≡ ok tt)
        × ((append_items lib electrum a h (items, w)).1.0
            ≡ items ++ items_of lib electrum spkh history txhex a h)
  unfolding append_items
  append_items-items a [] items w named = (refl, ground (arith, append-nil items))
  append_items-items a (item ∷ h) items w named =
      let item' = history_item lib electrum a item (txhex item.txid) in
      let w' = (electrum.get_transaction item.txid w).1 in
      ground (
        arith,
        answered.txs item.txid w named.0,
        append_items-items a h (items ++ item' ∷ []) w' named.1,
        append_assoc items (item' ∷ []) (items_of lib electrum spkh history txhex a h),
      )

  -- If every address can be converted, the server answers alike throughout the call, and the entries of
  -- its histories have ids, then find_history ends without an exception and adds, behind the items
  -- that were there, an item for each entry of each address's history, in order, with the
  -- transaction's text.
  pub find_history-items :
      (addresses : List String) (items : List HistoryItem) (w : W)
      → All (λ a. (base58_to_spkh_hex lib a ≡ ok (spkh a)) × AreNamed (history (spkh a))) addresses
      → ((find_history lib electrum addresses (items, w)).0 ≡ ok tt)
        × ((find_history lib electrum addresses (items, w)).1.0
            ≡ items ++ all_items lib electrum spkh history txhex addresses)
  unfolding find_history
  find_history-items [] items w known = (refl, ground (arith, append-nil items))
  find_history-items (a ∷ addresses) items w known =
      let w' = (electrum.get_history (spkh a) w).1 in
      let w'' = (append_items lib electrum a (history (spkh a)) (items, w')).1.1 in
      ground (
        arith,
        answered.histories (spkh a) w,
        known.0.0,
        append_items-items a (history (spkh a)) items w' known.0.1,
        find_history-items addresses
            (items ++ items_of lib electrum spkh history txhex a (history (spkh a))) w'' known.1,
        append_assoc items (items_of lib electrum spkh history txhex a (history (spkh a)))
            (all_items lib electrum spkh history txhex addresses),
      )
