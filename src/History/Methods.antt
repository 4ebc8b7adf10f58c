-- ===== src/History/Methods.antt =====
-- The methods of HistoryInspector that go through the wallet state and the server.
use binglib.Base.{
  ℕ, String, Bool, false, not, Option, none, some, List, [], ◌∷◌, ◌++◌, get_elem?, if◌then◌else◌,
  ◌||◌,
}
use binglib.Base.Int.{ℤ, pos, eqb_ℤ, leb_ℤ}
use binglib.Base.Text.{is_empty}
use binglib.Base.Word.{add64}
use binglib.Base.Dict.{Dict, insert}
use binglib.Base.Effect.{Result, ok, err, out_of_range, pure, lift, gets, ◌>>=◌, ◌>>◌}
use binglib.Bitcoin.{Libbitcoin, Input, Output}
use binglib.Electrum.{ElectrumInterface, AddressHistoryItem}
use binglib.WalletState.{
  Method, TransactionInfo, HistoryViewRow, update, get_transaction, get_history, get_all_txs_sorted,
  get_all_txs_sorted_bulk, load_txs_bulk, subscribe_address, subscribe_address_bulk,
  push_balance_update, push_historyhash_update, push_history_update,
}
use binglib.History.Analysis.{
  TxBalance, TxBalanceInput, TxBalanceOutput, TxWalletImpact, addresses_of, input_entry,
  output_entry, calc_address_balance, impact_of, with_balances,
}

-- outputs().at(funding_idx)
abbrev output_at : Option Output → Result Output
output_at none = err out_of_range
output_at (some o) = ok o

module _ {W : Type 0} (lib : Libbitcoin) (electrum : ElectrumInterface W) (is_testnet : Bool) where
  abbrev pub analyse_input : Input → Method W TxBalanceInput
  analyse_input i = do
    let funding_tx_id = lib.encode_hash i.previous_output.hash
    funding_tx ← get_transaction lib electrum funding_tx_id
    previous ← lift (output_at (get_elem? funding_tx.outputs i.previous_output.index))
    wallet ← gets (λ s. s.0.addresses)
    pure (
        input_entry wallet funding_tx_id i.previous_output.index previous
          (addresses_of lib is_testnet previous))

  unfoldable pub analyse_inputs : List Input → Method W (List TxBalanceInput)
  analyse_inputs [] = pure []
  analyse_inputs (i ∷ inputs) = do
    entry ← analyse_input i
    entries ← analyse_inputs inputs
    pure (entry ∷ entries)

  abbrev pub analyse_outputs : List String → List Output → List TxBalanceOutput
  analyse_outputs wallet [] = []
  analyse_outputs wallet (o ∷ outputs) =
      output_entry lib wallet o (addresses_of lib is_testnet o) ∷ analyse_outputs wallet outputs

  -- The item that is appended to balance_items.
  unfoldable pub analyse_tx_balances : String → Method W TxBalance
  unfolding analyse_inputs
  analyse_tx_balances tx_id = do
    tx ← get_transaction lib electrum tx_id
    balance_inputs ← analyse_inputs tx.inputs
    wallet ← gets (λ s. s.0.addresses)
    pure (record {
      tx_id = tx_id;
      inputs = balance_inputs;
      outputs = analyse_outputs wallet tx.outputs;
    })

  unfoldable pub analyse_items : Bool → List AddressHistoryItem → Method W (List TxBalance)
  analyse_items unconfirmed_only [] = pure []
  analyse_items unconfirmed_only (item ∷ items) =
      if not unconfirmed_only || leb_ℤ item.height (pos 0)
      then (do
        balance_item ← analyse_tx_balances item.txid
        balance_items ← analyse_items unconfirmed_only items
        pure (balance_item ∷ balance_items))
      else analyse_items unconfirmed_only items

  unfoldable pub calculate_address_balance : String → Bool → Method W ℕ
  unfolding analyse_items
  calculate_address_balance address unconfirmed_only = do
    history_items ← get_history lib electrum address []
    balance_items ← analyse_items unconfirmed_only history_items
    pure (calc_address_balance address balance_items)

  unfoldable pub total_balance_from : List String → Bool → ℕ → Method W ℕ
  total_balance_from [] unconfirmed_only balance = pure balance
  total_balance_from (address ∷ addresses) unconfirmed_only balance = do
    more ← calculate_address_balance address unconfirmed_only
    total_balance_from addresses unconfirmed_only (add64 balance more)

  unfoldable pub calculate_total_balance : Bool → Method W ℕ
  unfolding total_balance_from
  calculate_total_balance unconfirmed_only = do
    addresses ← gets (λ s. s.0.addresses)
    total_balance_from addresses unconfirmed_only 0

  unfoldable pub scan_from : List String → Dict ℕ → Method W (Dict ℕ)
  scan_from [] address_to_balance = pure address_to_balance
  scan_from (address ∷ addresses) address_to_balance = do
    balance ← calculate_address_balance address false
    scan_from addresses (insert address balance address_to_balance)

  unfoldable pub scan_balances : Method W (Unit {0})
  unfolding scan_from
  scan_balances = do
    addresses ← gets (λ s. s.0.addresses)
    address_to_balance ← scan_from addresses []
    update (push_balance_update address_to_balance)

  unfoldable pub subscribe_from : List String → Dict String → Method W (Dict String)
  subscribe_from [] address_to_historyhash = pure address_to_historyhash
  subscribe_from (address ∷ addresses) address_to_historyhash = do
    subscribe_address lib electrum address
    subscribe_from addresses (insert address "" address_to_historyhash)

  unfoldable pub do_addresses_subscriptions : Method W (Unit {0})
  unfolding subscribe_from
  do_addresses_subscriptions = do
    addresses ← gets (λ s. s.0.addresses)
    address_to_historyhash ← subscribe_from addresses []
    update (push_historyhash_update address_to_historyhash)

  abbrev pub empty_hashes : List String → Dict String → Dict String
  empty_hashes [] hashes = hashes
  empty_hashes (address ∷ addresses) hashes = empty_hashes addresses (insert address "" hashes)

  unfoldable pub do_addresses_subscriptions_bulk : Method W (Unit {0})
  do_addresses_subscriptions_bulk = do
    addresses ← gets (λ s. s.0.addresses)
    subscribe_address_bulk lib electrum addresses
    update (push_historyhash_update (empty_hashes addresses []))

  unfoldable pub calculate_tx_wallet_impact : String → Method W TxWalletImpact
  calculate_tx_wallet_impact tx_id = do
    balance_item ← analyse_tx_balances tx_id
    pure (impact_of lib (balance_item ∷ []))

  -- The ids of the funding transactions, behind those that are there.
  abbrev pub funding_ids : List Input → List String → List String
  funding_ids [] txids = txids
  funding_ids (i ∷ inputs) txids =
      let id = lib.encode_hash i.previous_output.hash in
      funding_ids inputs (if is_empty id then txids else txids ++ id ∷ [])

  abbrev pub append_funding_txs : String → List String → Method W (List String)
  append_funding_txs txid txids = do
    tx ← get_transaction lib electrum txid
    pure (funding_ids tx.inputs txids)

  -- The loop of create_history_view_rows over the sorted transactions.
  unfoldable pub gather_funding_txs : List TransactionInfo → List String → Method W (List String)
  gather_funding_txs [] funding_txids = pure funding_txids
  gather_funding_txs (tx_info ∷ txs) funding_txids = do
    more ← append_funding_txs (lib.encode_hash (lib.tx_hash tx_info.tx)) funding_txids
    gather_funding_txs txs more

  -- The sum of the deltas of the transactions that `counts` says, as bit patterns: the loops of
  -- unconfirmed_txs_wallet_impact and calculate_confirmed_balance.
  unfoldable pub sum_impacts : (ℤ → Bool) → List TransactionInfo → ℕ → Method W ℕ
  sum_impacts counts [] balance = pure balance
  sum_impacts counts (tx_info ∷ txs) balance =
      if counts tx_info.height
      then (do
        impact ← calculate_tx_wallet_impact (lib.encode_hash (lib.tx_hash tx_info.tx))
        sum_impacts counts txs (add64 balance impact.balance_delta))
      else sum_impacts counts txs balance

  unfoldable pub unconfirmed_txs_wallet_impact : Method W ℕ
  unconfirmed_txs_wallet_impact = do
    sorted_txs ← get_all_txs_sorted lib electrum
    sum_impacts (λ height. eqb_ℤ height (pos 0)) sorted_txs 0

  unfoldable pub calculate_confirmed_balance : Method W ℕ
  calculate_confirmed_balance = do
    sorted_txs ← get_all_txs_sorted lib electrum
    sum_impacts (λ height. not (eqb_ℤ height (pos 0))) sorted_txs 0

  abbrev pub view_row : TransactionInfo → TxWalletImpact → HistoryViewRow
  view_row tx_info impact = record {
    timestamp = 0;
    height = tx_info.height;
    balance_delta = impact.balance_delta;
    tx_id = lib.encode_hash (lib.tx_hash tx_info.tx);
    balance = 0;
    is_p2sh = impact.is_p2sh;
    funding_amount = impact.funding_amount;
    funding_address = impact.funding_address;
    fresh = tx_info.fresh;
  }

  unfoldable pub view_rows : List TransactionInfo → Method W (List HistoryViewRow)
  view_rows [] = pure []
  view_rows (tx_info ∷ txs) = do
    impact ← calculate_tx_wallet_impact (lib.encode_hash (lib.tx_hash tx_info.tx))
    rows ← view_rows txs
    pure (view_row tx_info impact ∷ rows)

  abbrev pub sorted_txs_bulk : Method W (List TransactionInfo)
  sorted_txs_bulk = do
    sorted_txs ← get_all_txs_sorted_bulk lib electrum
    funding_txids ← gather_funding_txs sorted_txs []
    load_txs_bulk lib electrum funding_txids
    pure sorted_txs

  unfoldable pub create_history_view_rows : Bool → Method W (Unit {0})
  create_history_view_rows bulk = do
    sorted_txs ← (if bulk then sorted_txs_bulk else get_all_txs_sorted lib electrum)
    history_view_rows ← view_rows sorted_txs
    update (push_history_update (with_balances history_view_rows))
