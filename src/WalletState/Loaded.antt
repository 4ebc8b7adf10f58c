-- ===== src/WalletState/Loaded.antt =====
-- get_all_txs_sorted lists what the server says, whatever the caches hold.
use binglib.Base.{String, ◌≡◌, refl, sym, ap, ◌∙◌, List, [], ◌∷◌, map, All}
use binglib.Base.Effect.{ok}
use binglib.Base.Runs.{Runs, Runs-ok, Runs-result}
use binglib.Bitcoin.{Libbitcoin, Transaction}
use binglib.Electrum.{ElectrumInterface, AddressHistory, AddressHistoryItem}
use binglib.Converter.{base58_to_spkh_hex}
use binglib.WalletState.{
  WalletState, TransactionInfo, set_insert_all, sort_history, gather_history, refresh_all_history,
  load_txs, get_all_txs_sorted,
}
use binglib.WalletState.Unmarked.{unmarked, unmarked-set_insert_all, unmarked-sort_history}
use binglib.WalletState.Coherent.{
  IsAnswered, IsCoherent, IsKept, IsKept-trans, get_transaction-IsCoherent, get_history-IsCoherent,
}
use binglib.WalletState.Listing.{
  gathered, wallet_history, all_entries, IsListing, wallet_history-IsListing, plain, info_of,
  info_of-unmarked, AreDecoded, wallet_history-AreDecoded,
}

module _ {W : Type 0} (lib : Libbitcoin) (electrum : ElectrumInterface W)
    (history : String → AddressHistory) (hex : String → String) (spkh : String → String)
    (tx : String → Transaction) (answered : IsAnswered electrum history hex) where
  gather_history-gathered :
      (addresses : List String) (set : List AddressHistoryItem) (s : WalletState W) (w : W)
      → IsCoherent history hex spkh s
      → All (λ a. base58_to_spkh_hex lib a ≡ ok (spkh a)) addresses
      → Runs
          (gather_history lib electrum addresses set)
          (s, w)
          (λ r s'.
            (unmarked r ≡ gathered history spkh addresses (unmarked set))
            × IsKept lib electrum history hex spkh answered s s'.0)
  unfolding gather_history
  gather_history-gathered [] set s w coherent known =
      Runs-ok _ set refl (refl, record { coherent = coherent; addresses = refl; callbacks = refl })
  gather_history-gathered (a ∷ addresses) set s w coherent known =
      let first =
        get_history-IsCoherent lib electrum history hex spkh answered a s w coherent known.0 in
      let kept = first.ensures.1 in
      let rest =
        gather_history-gathered addresses (set_insert_all first.value set) first.after.0
          first.after.1 kept.coherent known.1 in
      record {
        value = rest.value;
        after = rest.after;
        returns = rw first.returns rest.returns;
        ensures = (
          rest.ensures.0
              ∙ ap (gathered history spkh addresses) (
                  unmarked-set_insert_all first.value set
                  ∙ ap (λ items. set_insert_all items (unmarked set)) first.ensures.0),
          IsKept-trans lib electrum history hex spkh answered kept rest.ensures.1,
        );
      }

  load_txs-infos :
      (items : List AddressHistoryItem) (s : WalletState W) (w : W)
      → IsCoherent history hex spkh s
      → AreDecoded lib hex tx items
      → Runs
          (load_txs lib electrum items)
          (s, w)
          (λ r s'.
            (map plain r ≡ map (info_of tx) items)
            × IsKept lib electrum history hex spkh answered s s'.0)
  unfolding load_txs
  load_txs-infos [] s w coherent decoded =
      Runs-ok _ [] refl (refl, record { coherent = coherent; addresses = refl; callbacks = refl })
  load_txs-infos (item ∷ items) s w coherent decoded =
      let first =
        get_transaction-IsCoherent lib electrum history hex spkh answered tx item.txid s w coherent
          decoded.0 in
      let kept = first.ensures.1 in
      let rest = load_txs-infos items first.after.0 first.after.1 kept.coherent decoded.1 in
      Runs-ok _ (record { tx = first.value; height = item.height; fresh = item.fresh } ∷ rest.value)
        (rw (decoded.0.0, first.returns, rest.returns) refl)
        (rw (decoded.0.0, first.returns, rest.returns)
          (
            cc (first.ensures.0, rest.ensures.0),
            IsKept-trans lib electrum history hex spkh answered kept rest.ensures.1,
          ))

  pub get_all_txs_sorted-wallet_history :
      (s : WalletState W) (w : W)
      → IsCoherent history hex spkh s
      → All (λ a. base58_to_spkh_hex lib a ≡ ok (spkh a)) s.addresses
      → AreDecoded lib hex tx (all_entries history spkh s.addresses)
      → Runs
          (get_all_txs_sorted lib electrum)
          (s, w)
          (λ infos s'.
            (map plain infos ≡ map (info_of tx) (wallet_history history spkh s.addresses))
            × IsKept lib electrum history hex spkh answered s s'.0)
  unfolding get_all_txs_sorted refresh_all_history
  get_all_txs_sorted-wallet_history s w coherent known decoded =
      let gather = gather_history-gathered s.addresses [] s w coherent known in
      let s' = gather.after.0 in
      let items = sort_history gather.value in
      let same : unmarked items ≡ wallet_history history spkh s.addresses =
        unmarked-sort_history gather.value ∙ ap sort_history gather.ensures.0 in
      let kept = gather.ensures.1.coherent in
      let load =
        load_txs-infos items (record s' { all_history = items }) gather.after.1
          (record { texts = kept.texts; histories = kept.histories; flags = kept.flags })
          (wallet_history-AreDecoded lib hex history spkh tx s.addresses items same decoded) in
      record {
        value = load.value;
        after = load.after;
        returns = rw gather.returns load.returns;
        ensures = (
          load.ensures.0 ∙ sym (info_of-unmarked tx items) ∙ ap (map (info_of tx)) same,
          record {
            coherent = load.ensures.1.coherent;
            addresses = load.ensures.1.addresses ∙ gather.ensures.1.addresses;
            callbacks = load.ensures.1.callbacks ∙ gather.ensures.1.callbacks;
          },
        );
      }

  -- If every address can be converted, the server's answers do not change, the caches hold nothing but such
  -- answers, and every transaction of the histories has an id and can be decoded, then
  -- get_all_txs_sorted ends without an exception. Whatever the caches hold already, it returns, up to
  -- their marks, entries for each transaction of the histories once, with the height that the first
  -- history says, in the order of sort_all_history, and with the transaction that the server gives;
  -- and the caches hold nothing but answers of the server afterwards.
  pub get_all_txs_sorted-IsListing :
      (s : WalletState W) (w : W)
      → IsCoherent history hex spkh s
      → All (λ a. base58_to_spkh_hex lib a ≡ ok (spkh a)) s.addresses
      → AreDecoded lib hex tx (all_entries history spkh s.addresses)
      → (infos : List TransactionInfo) × (items : List AddressHistoryItem) × ((get_all_txs_sorted
            lib electrum
            (s, w)).0
          ≡ ok infos)
        × IsListing history spkh s.addresses items
        × (map plain infos ≡ map (info_of tx) items)
        × IsCoherent history hex spkh (get_all_txs_sorted lib electrum (s, w)).1.0
  get_all_txs_sorted-IsListing s w coherent known decoded =
      let all = get_all_txs_sorted-wallet_history s w coherent known decoded in
      let (returned, (listed, kept)) = Runs-result all in
      (
        all.value,
        wallet_history history spkh s.addresses,
        returned,
        wallet_history-IsListing history spkh s.addresses,
        listed,
        kept.coherent,
      )
