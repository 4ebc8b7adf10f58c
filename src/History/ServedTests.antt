-- ===== src/History/ServedTests.antt =====
-- The total balance of a wallet that was paid, paid on, and whose caches know a part of it.
use binglib.Base.{map, some, get_elem?, ℕ, String, ◌≡◌, refl, inl, inr, List, true, false, arith}
use binglib.Base.Effect.{ok}
use binglib.Bitcoin.{Input, Output}
use binglib.Converter.{base58_to_spkh_hex}
use binglib.Sample.Paid.{
  first_output, paid_lib, paid_server, paid_history, paid_hex, paid_spkh, paid_tx, paid_wallet,
  paid_server-IsAnswered, paid_wallet-IsCoherent, paid_server-IsAnsweredInBulk, spending,
}
use binglib.WalletState.{hex_2_tx}
use binglib.WalletState.Coherent.{IsCoherent}
use binglib.Base.Word.{add64}
use binglib.Electrum.{AddressHistoryItem}
use binglib.Sample.{paying}
use binglib.WalletState.{TransactionInfo, HistoryViewRow}
use binglib.WalletState.Listing.{IsListing, plain, info_of}
use binglib.History.{
  calculate_total_balance, calculate_confirmed_balance, unconfirmed_txs_wallet_impact,
  create_history_view_rows, with_balances,
}
use binglib.History.Rows.{newest}
use binglib.History.Totals.{IsAnalysable, row_of}
use binglib.History.Agreement.{AreServed, create_history_view_rows-calculate_confirmed_balance}
use binglib.History.Balance.{IsConsistent}
use binglib.History.Unspent.{IsKnown, balance_items, total_unspent}
use binglib.History.Served.{calculate_total_balance-total_unspent}

abbrev spent_output : Input → Output
spent_output i = first_output

abbrev paid_total : List String → ℕ
paid_total =
    total_unspent paid_lib true paid_history paid_spkh paid_tx spent_output false
      paid_wallet.addresses

paid_total_run : paid_total paid_wallet.addresses ≡ 3
paid_total_run = refl

all-IsKnown :
    (a : String)
    → base58_to_spkh_hex paid_lib a ≡ ok (paid_spkh a)
    → IsKnown paid_lib paid_hex paid_tx spent_output paid_history paid_spkh a
unfolding hex_2_tx
all-IsKnown a converted = record {
  converted = converted;
  funded = (((refl, refl), tt), (((refl, refl), (((refl, refl), refl), tt)), tt));
}

paid-IsConsistent :
    IsConsistent "src" (
      balance_items paid_lib true paid_tx spent_output paid_wallet.addresses false
        (paid_history ""))
paid-IsConsistent = ((omega arith, inr (_, refl, refl), tt), ((omega arith, inl refl, tt), tt))

calculate_total_balance-total_unspent_example :
    ((calculate_total_balance paid_lib paid_server true false (paid_wallet, 0)).0
      ≡ ok (paid_total paid_wallet.addresses))
    × IsCoherent paid_history paid_hex paid_spkh
        (calculate_total_balance paid_lib paid_server true false (paid_wallet, 0)).1.0
unfolding base58_to_spkh_hex
calculate_total_balance-total_unspent_example =
    calculate_total_balance-total_unspent paid_lib paid_server true paid_history paid_hex paid_spkh
      paid_tx spent_output paid_server-IsAnswered false paid_wallet 0 paid_wallet-IsCoherent
      (all-IsKnown "src" refl, (all-IsKnown "dst" refl, tt))
      (paid-IsConsistent, (paid-IsConsistent, tt)) (omega arith)

paid_wallet-AreServed :
    AreServed paid_lib paid_history paid_hex paid_spkh paid_tx spent_output paid_wallet.addresses
unfolding hex_2_tx base58_to_spkh_hex
paid_wallet-AreServed =
    let first : IsAnalysable paid_lib paid_hex paid_tx spent_output paying = ((refl, refl), tt) in
    let second : IsAnalysable paid_lib paid_hex paid_tx spent_output spending =
      ((refl, refl), (((refl, refl), refl), tt)) in
    record {
      converted = (refl, (refl, tt));
      decoded = ((refl, refl), ((refl, refl), ((refl, refl), ((refl, refl), tt))));
      analysable = (first, (second, (first, (second, tt))));
    }

abbrev paid_row : TransactionInfo → HistoryViewRow
paid_row = row_of paid_lib paid_server true paid_tx spent_output paid_wallet.addresses

create_history_view_rows-calculate_confirmed_balance_example :
    (infos : List TransactionInfo) × (items : List AddressHistoryItem) × (confirmed unconfirmed : ℕ)
    × IsListing paid_history paid_spkh paid_wallet.addresses items
    × (map plain infos ≡ map (info_of paid_tx) items)
    × ((calculate_confirmed_balance paid_lib paid_server true (paid_wallet, 0)).0 ≡ ok confirmed)
    × ((unconfirmed_txs_wallet_impact paid_lib paid_server true (paid_wallet, 1)).0
        ≡ ok unconfirmed)
    × ((create_history_view_rows paid_lib paid_server true true (paid_wallet, 2)).0 ≡ ok tt)
    × (get_elem?
          (create_history_view_rows paid_lib paid_server true true
            (paid_wallet, 2)).1.0.history_queue.queue
          0
        ≡ some (with_balances (map paid_row infos)))
    × (newest (with_balances (map paid_row infos)) ≡ add64 confirmed unconfirmed)
create_history_view_rows-calculate_confirmed_balance_example =
    create_history_view_rows-calculate_confirmed_balance paid_lib paid_server true paid_history
      paid_hex paid_spkh paid_tx spent_output paid_server-IsAnswered true paid_wallet 0 1 2
      paid_server-IsAnsweredInBulk tt paid_wallet-IsCoherent paid_wallet-AreServed
