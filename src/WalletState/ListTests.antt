-- ===== src/WalletState/ListTests.antt =====
-- The list of the transactions of a wallet with some of them in its caches.
use binglib.Base.{◌≡◌, refl, List, map}
use binglib.Base.Effect.{ok}
use binglib.Converter.{base58_to_spkh_hex}
use binglib.Electrum.{AddressHistoryItem}
use binglib.Sample.Paid.{
  paid_lib, paid_server, paid_history, paid_hex, paid_spkh, paid_tx, paid_wallet,
  paid_server-IsAnswered, paid_wallet-IsCoherent, paid_server-IsAnsweredInBulk,
}
use binglib.WalletState.{TransactionInfo, hex_2_tx, get_all_txs_sorted, get_all_txs_sorted_bulk}
use binglib.WalletState.Coherent.{IsCoherent}
use binglib.WalletState.Listing.{IsListing, plain, info_of}
use binglib.WalletState.Loaded.{get_all_txs_sorted-IsListing}
use binglib.WalletState.InBulk.{get_all_txs_sorted-get_all_txs_sorted_bulk}

get_all_txs_sorted-IsListing_example :
    (infos : List TransactionInfo) × (items : List AddressHistoryItem) × ((get_all_txs_sorted
        paid_lib paid_server
        (paid_wallet, 0)).0
      ≡ ok infos)
    × IsListing paid_history paid_spkh paid_wallet.addresses items
    × (map plain infos ≡ map (info_of paid_tx) items)
    × IsCoherent paid_history paid_hex paid_spkh
        (get_all_txs_sorted paid_lib paid_server (paid_wallet, 0)).1.0
unfolding hex_2_tx base58_to_spkh_hex
get_all_txs_sorted-IsListing_example =
    get_all_txs_sorted-IsListing paid_lib paid_server paid_history paid_hex paid_spkh paid_tx
      paid_server-IsAnswered paid_wallet 0 paid_wallet-IsCoherent (refl, (refl, tt))
      ((refl, refl), ((refl, refl), ((refl, refl), ((refl, refl), tt))))

get_all_txs_sorted-get_all_txs_sorted_bulk_example :
    (infos infos' : List TransactionInfo) × ((get_all_txs_sorted paid_lib paid_server
        (paid_wallet, 0)).0
      ≡ ok infos)
    × ((get_all_txs_sorted_bulk paid_lib paid_server (paid_wallet, 5)).0 ≡ ok infos')
    × (map plain infos ≡ map plain infos')
unfolding hex_2_tx base58_to_spkh_hex
get_all_txs_sorted-get_all_txs_sorted_bulk_example =
    get_all_txs_sorted-get_all_txs_sorted_bulk paid_lib paid_server paid_history paid_hex paid_spkh
      paid_tx paid_server-IsAnswered paid_server-IsAnsweredInBulk paid_wallet 0 5
      paid_wallet-IsCoherent tt (refl, (refl, tt))
      ((refl, refl), ((refl, refl), ((refl, refl), ((refl, refl), tt))))
