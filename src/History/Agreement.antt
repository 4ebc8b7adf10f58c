-- ===== src/History/Agreement.antt =====
-- The confirmed balance, the impact of the unconfirmed transactions and the rows of the history agree.
use binglib.Base.{
  ℕ, ◌%◌, ◌≡◌, refl, sym, ap, ◌∙◌, subst, String, Bool, true, false, not, some, List, [], ◌∷◌, map,
  arith, All, get_elem?, if◌then◌else◌,
}
use binglib.Base.Int.{ℤ, pos, eqb_ℤ}
use binglib.Base.Word.{u64_mod, add64}
use binglib.Base.Effect.{ok, ◌>>=◌}
use binglib.Base.Runs.{Runs, Runs-value}
use binglib.Bitcoin.{Libbitcoin, Transaction, Input, Output}
use binglib.Electrum.{ElectrumInterface, AddressHistory, AddressHistoryItem}
use binglib.Converter.{base58_to_spkh_hex}
use binglib.Queue
use binglib.WalletState.{WalletState, TransactionInfo, get_all_txs_sorted, push_history_update}
use binglib.WalletState.Coherent.{IsAnswered, IsCoherent, IsKept, IsKept-trans}
use binglib.WalletState.Listing.{
  all_entries, wallet_history, wallet_history-IsListing, All-wallet_history, IsListing, plain,
  info_of, AreDecoded,
}
use binglib.WalletState.Loaded.{get_all_txs_sorted-wallet_history}
use binglib.WalletState.Stored.{IsAnsweredInBulk, AllReturn, load_txs_bulk-IsKept}
use binglib.WalletState.InBulk.{get_all_txs_sorted_bulk-wallet_history}
use binglib.History.{
  with_balances, calculate_confirmed_balance, unconfirmed_txs_wallet_impact,
  create_history_view_rows, sum_impacts, sorted_txs_bulk,
}
use binglib.History.Rows.{newest, newest-with_balances}
use binglib.History.Totals.{
  IsAnalysable, All-plain, row_of, total, total-plain, total-sum_deltas, sum_impacts-total,
  view_rows-row_of, gather_funding_txs-IsKept,
}

module _ (lib : Libbitcoin) (history : String → AddressHistory) (hex : String → String)
    (spkh : String → String) (tx : String → Transaction) (previous : Input → Output) where
  -- Every address can be converted, and every transaction of the histories has an id, can be decoded, and
  -- can be asked for again under its hash, with the outputs that it spends.
  pub record AreServed (addresses : List String) : Type 0 where
    pub converted : All (λ a. base58_to_spkh_hex lib a ≡ ok (spkh a)) addresses
    pub decoded : AreDecoded lib hex tx (all_entries history spkh addresses)
    pub analysable :
        All
          (λ item. IsAnalysable lib hex tx previous (tx item.txid))
          (all_entries history spkh addresses)

module _ {W : Type 0} (lib : Libbitcoin) (electrum : ElectrumInterface W) (is_testnet : Bool)
    (history : String → AddressHistory) (hex : String → String) (spkh : String → String)
    (tx : String → Transaction) (previous : Input → Output)
    (answered : IsAnswered electrum history hex) where
  infos-IsAnalysable :
      (items : List AddressHistoryItem)
      → All (λ item. IsAnalysable lib hex tx previous (tx item.txid)) items
      → All (λ info. IsAnalysable lib hex tx previous info.tx) (map (info_of tx) items)
  infos-IsAnalysable [] all = tt
  infos-IsAnalysable (item ∷ items) all = (all.0, infos-IsAnalysable items all.1)

  -- What is known of the list of transactions and of the state that is left.
  abbrev IsListed : WalletState W → List TransactionInfo → WalletState W × W → Type 0
  IsListed s infos s' =
      (map plain infos ≡ map (info_of tx) (wallet_history history spkh s.addresses))
      × IsKept lib electrum history hex spkh answered s s'.0
      × All (λ info. IsAnalysable lib hex tx previous info.tx) infos

  All-IsAnalysable :
      (addresses : List String) (infos : List TransactionInfo)
      → AreServed lib history hex spkh tx previous addresses
      → map plain infos ≡ map (info_of tx) (wallet_history history spkh addresses)
      → All (λ info. IsAnalysable lib hex tx previous info.tx) infos
  All-IsAnalysable addresses infos served same =
      let P = IsAnalysable lib hex tx previous in
      let analysable =
        infos-IsAnalysable (wallet_history history spkh addresses) (
          All-wallet_history history spkh (λ item. P (tx item.txid)) addresses served.analysable) in
      All-plain P infos (subst (All (λ info. P info.tx)) (sym same) analysable)

  get_all_txs_sorted-IsListed :
      (s : WalletState W) (w : W)
      → IsCoherent history hex spkh s
      → AreServed lib history hex spkh tx previous s.addresses
      → Runs (get_all_txs_sorted lib electrum) (s, w) (IsListed s)
  get_all_txs_sorted-IsListed s w coherent served =
      let run =
        get_all_txs_sorted-wallet_history lib electrum history hex spkh tx answered s w coherent
          served.converted served.decoded in
      record {
        value = run.value;
        after = run.after;
        returns = run.returns;
        ensures = (
          run.ensures.0,
          run.ensures.1,
          All-IsAnalysable s.addresses run.value served run.ensures.0,
        );
      }

  sorted_txs_bulk-IsListed :
      (s : WalletState W) (w : W)
      → IsAnsweredInBulk electrum history hex
      → AllReturn s.progress_callbacks
      → IsCoherent history hex spkh s
      → AreServed lib history hex spkh tx previous s.addresses
      → Runs (sorted_txs_bulk lib electrum is_testnet) (s, w) (IsListed s)
  sorted_txs_bulk-IsListed s w in_bulk return coherent served =
      let run =
        get_all_txs_sorted_bulk-wallet_history lib electrum history hex spkh tx answered in_bulk s w
          coherent return served.converted served.decoded in
      let kept = run.ensures.1 in
      let analysable = All-IsAnalysable s.addresses run.value served run.ensures.0 in
      let funding =
        gather_funding_txs-IsKept lib electrum is_testnet history hex spkh tx previous answered
          s.addresses run.value [] run.after.0 run.after.1 kept.coherent analysable in
      let load =
        load_txs_bulk-IsKept lib electrum history hex spkh tx answered in_bulk funding.value
          funding.after.0 funding.after.1 funding.ensures.coherent in
      record {
        value = run.value;
        after = load.after;
        returns = rw (run.returns, funding.returns, load.returns) refl;
        ensures = (
          run.ensures.0,
          IsKept-trans lib electrum history hex spkh answered kept
              (IsKept-trans lib electrum history hex spkh answered funding.ensures load.ensures),
          analysable,
        );
      }

  abbrev is_unconfirmed : ℤ → Bool
  is_unconfirmed height = eqb_ℤ height (pos 0)

  -- The sum over the list that the histories say, modulo 2 ^ 64.
  abbrev listed_total : List String → (ℤ → Bool) → ℕ
  listed_total addresses counts =
      total lib electrum is_testnet tx previous addresses counts
        (map (info_of tx) (wallet_history history spkh addresses))

  sum_impacts-listed_total :
      (counts : ℤ → Bool) (s : WalletState W) (w : W)
      → IsCoherent history hex spkh s
      → AreServed lib history hex spkh tx previous s.addresses
      → ((get_all_txs_sorted lib electrum
            >>= (λ infos. sum_impacts lib electrum is_testnet counts infos 0))
          (s, w)).0
        ≡ ok (listed_total s.addresses counts % u64_mod)
  sum_impacts-listed_total counts s w coherent served =
      let list = get_all_txs_sorted-IsListed s w coherent served in
      let kept = list.ensures.1 in
      let sums =
        sum_impacts-total lib electrum is_testnet history hex spkh tx previous answered s.addresses
          counts list.value 0 list.after.0 list.after.1 kept.addresses kept.coherent list.ensures.2
          (omega arith) in
      let T = total lib electrum is_testnet tx previous s.addresses counts in
      let same : T list.value ≡ listed_total s.addresses counts =
        sym (total-plain lib electrum is_testnet tx previous s.addresses counts list.value)
        ∙ ap T list.ensures.0 in
      rw (list.returns, Runs-value _ sums) (ap ok (omega (arith, same)))

  sorted_txs-IsListed :
      (bulk : Bool) (s : WalletState W) (w : W)
      → IsAnsweredInBulk electrum history hex
      → AllReturn s.progress_callbacks
      → IsCoherent history hex spkh s
      → AreServed lib history hex spkh tx previous s.addresses
      → Runs
          (if bulk
            then sorted_txs_bulk lib electrum is_testnet
            else get_all_txs_sorted lib electrum)
          (s, w)
          (IsListed s)
  sorted_txs-IsListed true s w in_bulk return coherent served =
      sorted_txs_bulk-IsListed s w in_bulk return coherent served
  sorted_txs-IsListed false s w in_bulk return coherent served =
      get_all_txs_sorted-IsListed s w coherent served

  -- If the server's answers do not change and are the same in bulk, one for each parameter and in their
  -- order, the callbacks return, the caches hold nothing but such answers, every address can be
  -- converted, and every transaction of the histories has an id, can be decoded, and can be asked for
  -- again under its hash, with the outputs that it spends, then calculate_confirmed_balance,
  -- unconfirmed_txs_wallet_impact and create_history_view_rows, by bulk requests or without, all return; the
  -- last pushes one row for each transaction of the histories in the order of sort_all_history, and the
  -- balance in its newest row is the confirmed balance and the unconfirmed impact together, in 64-bit
  -- arithmetic.
  pub create_history_view_rows-calculate_confirmed_balance :
      (bulk : Bool) (s : WalletState W) (w w' w'' : W)
      → IsAnsweredInBulk electrum history hex
      → AllReturn s.progress_callbacks
      → IsCoherent history hex spkh s
      → AreServed lib history hex spkh tx previous s.addresses
      → (infos : List TransactionInfo) × (items : List AddressHistoryItem) × (confirmed
          unconfirmed : ℕ)
        × IsListing history spkh s.addresses items
        × (map plain infos ≡ map (info_of tx) items)
        × ((calculate_confirmed_balance lib electrum is_testnet (s, w)).0 ≡ ok confirmed)
        × ((unconfirmed_txs_wallet_impact lib electrum is_testnet (s, w')).0 ≡ ok unconfirmed)
        × ((create_history_view_rows lib electrum is_testnet bulk (s, w'')).0 ≡ ok tt)
        × (get_elem?
              (create_history_view_rows lib electrum is_testnet bulk
                (s, w'')).1.0.history_queue.queue
              0
            ≡ some (
                with_balances (map (row_of lib electrum is_testnet tx previous s.addresses) infos)))
        × (newest
              (with_balances (map (row_of lib electrum is_testnet tx previous s.addresses) infos))
            ≡ add64 confirmed unconfirmed)
  unfolding calculate_confirmed_balance unconfirmed_txs_wallet_impact create_history_view_rows
      push_history_update Queue.push
  create_history_view_rows-calculate_confirmed_balance bulk s w w' w'' in_bulk return coherent
        served =
      let list = sorted_txs-IsListed bulk s w'' in_bulk return coherent served in
      let kept = list.ensures.1 in
      let rows =
        view_rows-row_of lib electrum is_testnet history hex spkh tx previous answered s.addresses
          list.value list.after.0 list.after.1 kept.addresses kept.coherent list.ensures.2 in
      let T = total lib electrum is_testnet tx previous s.addresses in
      let confirmed = λ (height : ℤ). not (is_unconfirmed height) in
      let agree = λ (counts : ℤ → Bool).
        sym (total-plain lib electrum is_testnet tx previous s.addresses counts list.value)
        ∙ ap (T counts) list.ensures.0 in
      let of_confirmed : T confirmed list.value ≡ listed_total s.addresses confirmed =
        agree confirmed in
      let of_unconfirmed : T is_unconfirmed list.value ≡ listed_total s.addresses is_unconfirmed =
        agree is_unconfirmed in
      (
        list.value,
        wallet_history history spkh s.addresses,
        listed_total s.addresses confirmed % u64_mod,
        listed_total s.addresses is_unconfirmed % u64_mod,
        wallet_history-IsListing history spkh s.addresses,
        list.ensures.0,
        sum_impacts-listed_total confirmed s w coherent served,
        sum_impacts-listed_total is_unconfirmed s w' coherent served,
        rw (list.returns, Runs-value _ rows) refl,
        rw (list.returns, Runs-value _ rows) refl,
        omega (
          arith,
          newest-with_balances
              (map (row_of lib electrum is_testnet tx previous s.addresses) list.value),
          total-sum_deltas lib electrum is_testnet tx previous s.addresses list.value,
          of_confirmed,
          of_unconfirmed,
        ),
      )
