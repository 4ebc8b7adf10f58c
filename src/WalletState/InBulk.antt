-- ===== src/WalletState/InBulk.antt =====
-- The list of transactions by bulk requests, which is the same.
use binglib.Base.{String, ◌≡◌, refl, sym, ap, ◌∙◌, List, [], map, length, All}
use binglib.Base.Effect.{ok}
use binglib.Base.Runs.{Runs}
use binglib.Bitcoin.{Libbitcoin, Transaction}
use binglib.Electrum.{ElectrumInterface, AddressHistory, ProgressEvent}
use binglib.Converter.{base58_to_spkh_hex}
use binglib.WalletState.{
  WalletState, TransactionInfo, txids_of, sort_history, refresh_all_history_bulk,
  get_all_txs_sorted, get_all_txs_sorted_bulk,
}
use binglib.WalletState.Unmarked.{unmarked, unmarked-sort_history}
use binglib.WalletState.Coherent.{IsAnswered, IsCoherent, IsKept}
use binglib.WalletState.Loaded.{get_all_txs_sorted-wallet_history}
use binglib.WalletState.Listing.{
  all_entries, wallet_history-AreDecoded, wallet_history, plain, info_of, info_of-unmarked,
  AreDecoded,
}
use binglib.WalletState.Stored.{
  IsAnsweredInBulk, AllReturn, push_progress_event-returns, convert_all-map,
  store_histories-gathered, store_txs-infos,
}

module _ {W : Type 0} (lib : Libbitcoin) (electrum : ElectrumInterface W)
    (history : String → AddressHistory) (hex : String → String) (spkh : String → String)
    (tx : String → Transaction) (answered : IsAnswered electrum history hex)
    (in_bulk : IsAnsweredInBulk electrum history hex) where
  pub get_all_txs_sorted_bulk-wallet_history :
      (s : WalletState W) (w : W)
      → IsCoherent history hex spkh s
      → AllReturn s.progress_callbacks
      → All (λ a. base58_to_spkh_hex lib a ≡ ok (spkh a)) s.addresses
      → AreDecoded lib hex tx (all_entries history spkh s.addresses)
      → Runs
          (get_all_txs_sorted_bulk lib electrum)
          (s, w)
          (λ infos s'.
            (map plain infos ≡ map (info_of tx) (wallet_history history spkh s.addresses))
            × IsKept lib electrum history hex spkh answered s s'.0)
  unfolding get_all_txs_sorted_bulk refresh_all_history_bulk
  get_all_txs_sorted_bulk-wallet_history s w coherent return known decoded =
      let event : ProgressEvent = record {
        history_read_delta = 0;
        history_total = length s.addresses;
        txs_read_delta = 0;
        txs_total = 0;
      } in
      let (told, pushed) =
        push_progress_event-returns lib electrum event s.progress_callbacks s w return in
      let w' = (electrum.get_history_bulk (map spkh s.addresses) s.progress_callbacks told).1 in
      let stored =
        store_histories-gathered lib electrum history hex spkh tx answered in_bulk s.addresses 0 []
          s w' coherent refl in
      let s' = stored.after.0 in
      let items = sort_history stored.value in
      let same : unmarked items ≡ wallet_history history spkh s.addresses =
        unmarked-sort_history stored.value ∙ ap sort_history stored.ensures.0 in
      let kept = stored.ensures.1.coherent in
      let w'' =
        (electrum.get_transaction_bulk (txids_of items) s'.progress_callbacks stored.after.1).1 in
      let load =
        store_txs-infos lib electrum history hex spkh tx answered in_bulk items
          (map hex (txids_of items)) 0 (record s' { all_history = items }) w''
          (record { texts = kept.texts; histories = kept.histories; flags = kept.flags })
          (wallet_history-AreDecoded lib hex history spkh tx s.addresses items same decoded) refl in
      record {
        value = load.value;
        after = load.after;
        returns =
            rw
              (
                pushed,
                convert_all-map lib electrum spkh s.addresses known,
                in_bulk.histories (map spkh s.addresses) s.progress_callbacks told,
                stored.returns,
                in_bulk.txs (txids_of items) s'.progress_callbacks stored.after.1,
              )
              load.returns;
        ensures = (
          load.ensures.0 ∙ sym (info_of-unmarked tx items) ∙ ap (map (info_of tx)) same,
          record {
            coherent = load.ensures.1.coherent;
            addresses = load.ensures.1.addresses ∙ stored.ensures.1.addresses;
            callbacks = load.ensures.1.callbacks ∙ stored.ensures.1.callbacks;
          },
        );
      }

  -- If the server's answers do not change and are the same in bulk, one for each parameter and in their
  -- order, the callbacks return, every address can be converted, every transaction of the histories has
  -- an id and can be decoded, and the caches hold nothing but answers of the server, then
  -- get_all_txs_sorted and get_all_txs_sorted_bulk both end without an exception and return the same
  -- transactions with the same heights in the same order; only the marks of freshness may differ.
  pub get_all_txs_sorted-get_all_txs_sorted_bulk :
      (s : WalletState W) (w w' : W)
      → IsCoherent history hex spkh s
      → AllReturn s.progress_callbacks
      → All (λ a. base58_to_spkh_hex lib a ≡ ok (spkh a)) s.addresses
      → AreDecoded lib hex tx (all_entries history spkh s.addresses)
      → (infos infos' : List TransactionInfo) × ((get_all_txs_sorted lib electrum (s, w)).0
          ≡ ok infos)
        × ((get_all_txs_sorted_bulk lib electrum (s, w')).0 ≡ ok infos')
        × (map plain infos ≡ map plain infos')
  get_all_txs_sorted-get_all_txs_sorted_bulk s w w' coherent return known decoded =
      let single =
        get_all_txs_sorted-wallet_history lib electrum history hex spkh tx answered s w coherent
          known decoded in
      let bulk = get_all_txs_sorted_bulk-wallet_history s w' coherent return known decoded in
      (
        single.value,
        bulk.value,
        ap (λ r. r.0) single.returns,
        ap (λ r. r.0) bulk.returns,
        single.ensures.0 ∙ sym bulk.ensures.0,
      )
