-- ===== src/WalletState/Listing.antt =====
-- The wallet's list of transactions, as the server's histories describe it.
use mathlib.Core.List.{Perm, append-nil, append_assoc}
use binglib.Base.{
  All-split, ◌++◌, String, ◌≡◌, refl, sym, ap, ◌∙◌, subst, false, List, [], ◌∷◌, map, All,
}
use binglib.Bitcoin.{Libbitcoin, Transaction}
use binglib.Electrum.{AddressHistory, AddressHistoryItem}
use binglib.WalletState.{TransactionInfo, set_insert, set_insert_all, sort_history}
use binglib.WalletState.Coherent.{IsDecoded}
use binglib.WalletState.Histories.{
  All-set_insert, find_item, find_item-append, or_else, IsAscending, set_insert_all-find_item,
}
use binglib.WalletState.Sorting.{All-sort_history, AllInOrder, sort_history-AllInOrder}
use binglib.WalletState.Unmarked.{All-unmarked, unmarked}

module _ (history : String → AddressHistory) (spkh : String → String) where
  -- One entry for each transaction that concerns an address: the first that the histories have.
  abbrev pub gathered : List String → List AddressHistoryItem → List AddressHistoryItem
  gathered [] set = set
  gathered (a ∷ addresses) set =
      gathered addresses (set_insert_all (unmarked (history (spkh a))) set)

  -- The wallet's transactions in the order of sort_all_history.
  abbrev pub wallet_history : List String → List AddressHistoryItem
  wallet_history addresses = sort_history (gathered addresses [])

  -- The entries of the addresses' histories, one history behind the other.
  abbrev pub all_entries : List String → List AddressHistoryItem
  all_entries [] = []
  all_entries (a ∷ addresses) = unmarked (history (spkh a)) ++ all_entries addresses

  gathered-find_item :
      (addresses : List String) (set : List AddressHistoryItem)
      → IsAscending set
      → IsAscending (gathered addresses set)
        × ((txid : String)
            → find_item txid (gathered addresses set)
              ≡ find_item txid (set ++ all_entries addresses))
  gathered-find_item [] set ascending =
      (ascending, λ txid. ap (find_item txid) (sym (append-nil set)))
  gathered-find_item (a ∷ addresses) set ascending =
      let items = unmarked (history (spkh a)) in
      let entries = all_entries addresses in
      let set' = set_insert_all items set in
      let inserted = set_insert_all-find_item items set ascending in
      let rest = gathered-find_item addresses set' inserted.0 in
      (
        rest.0,
        λ txid.
            rest.1 txid
            ∙ find_item-append txid set' entries
            ∙ ap (λ found. or_else found (find_item txid entries)) (inserted.1 txid)
            ∙ sym (find_item-append txid (set ++ items) entries)
            ∙ ap (find_item txid) (append_assoc set items entries),
      )

  -- The order of sort_all_history, and each transaction of the histories once, as the first entry of it says.
  pub record IsListing (addresses : List String) (items : List AddressHistoryItem) : Type 0 where
    pub in_order : AllInOrder items
    pub set : List AddressHistoryItem
    pub rearranged : Perm items set
    pub once : IsAscending set
    pub entries : (txid : String) → find_item txid set ≡ find_item txid (all_entries addresses)

  pub wallet_history-IsListing :
      (addresses : List String) → IsListing addresses (wallet_history addresses)
  wallet_history-IsListing addresses =
      let sorted = sort_history-AllInOrder (gathered addresses []) in
      let set = gathered-find_item addresses [] tt in
      record {
        in_order = sorted.0;
        set = gathered addresses [];
        rearranged = sorted.1;
        once = set.0;
        entries = set.1;
      }

  module _ (P : AddressHistoryItem → Type 0) where
    All-set_insert_all :
        (items set : List AddressHistoryItem)
        → All P items
        → All P set
        → All P (set_insert_all items set)
    All-set_insert_all [] set all all' = all'
    All-set_insert_all (item ∷ items) set all all' =
        All-set_insert_all items (set_insert item set) all.1 (All-set_insert P item set all.0 all')

    All-gathered :
        (addresses : List String) (set : List AddressHistoryItem)
        → All P (all_entries addresses)
        → All P set
        → All P (gathered addresses set)
    All-gathered [] set all all' = all'
    All-gathered (a ∷ addresses) set all all' =
        let (here, later) = All-split P (unmarked (history (spkh a))) (all_entries addresses) all in
        All-gathered addresses (set_insert_all (unmarked (history (spkh a))) set) later
          (All-set_insert_all (unmarked (history (spkh a))) set here all')

    pub All-wallet_history :
        (addresses : List String) → All P (all_entries addresses) → All P (wallet_history addresses)
    All-wallet_history addresses all =
        All-sort_history P (gathered addresses []) (All-gathered addresses [] all tt)

-- Without its mark.
abbrev pub plain : TransactionInfo → TransactionInfo
plain info = record info { fresh = false }

abbrev pub info_of : (String → Transaction) → AddressHistoryItem → TransactionInfo
info_of tx item = record { tx = tx item.txid; height = item.height; fresh = false }

-- The entries' transactions have an id and can be decoded.
abbrev pub AreDecoded :
    Libbitcoin → (String → String) → (String → Transaction) → List AddressHistoryItem → Type 0
AreDecoded lib hex tx items = All (λ item. IsDecoded lib hex tx item.txid) items

pub info_of-unmarked :
    (tx : String → Transaction) (items : List AddressHistoryItem)
    → map (info_of tx) (unmarked items) ≡ map (info_of tx) items
info_of-unmarked tx [] = refl
info_of-unmarked tx (item ∷ items) = ap (◌∷◌ (info_of tx item)) (info_of-unmarked tx items)

pub wallet_history-AreDecoded :
    (lib : Libbitcoin) (hex : String → String) (history : String → AddressHistory)
    (spkh : String → String) (tx : String → Transaction) (addresses : List String)
    (items : List AddressHistoryItem)
    → unmarked items ≡ wallet_history history spkh addresses
    → AreDecoded lib hex tx (all_entries history spkh addresses)
    → AreDecoded lib hex tx items
wallet_history-AreDecoded lib hex history spkh tx addresses items same decoded =
    All-unmarked (IsDecoded lib hex tx) items (
      subst (AreDecoded lib hex tx) (sym same) (
        All-wallet_history history spkh (λ item. IsDecoded lib hex tx item.txid) addresses decoded))
