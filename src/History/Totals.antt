-- ===== src/History/Totals.antt =====
-- The sums of the transactions' deltas, over the wallet's caches and a server whose answers do not change:
-- the confirmed balance, the impact of the unconfirmed transactions, and the rows of the history.
use binglib.Base.{
  ℕ, ◌+◌, ◌%◌, ◌<◌, ◌≡◌, refl, ◌∙◌, String, Bool, not, List, [], ◌∷◌, map, arith, Bool-cases, inl,
  inr, All, if◌then◌else◌,
}
use binglib.Base.Int.{ℤ, pos, eqb_ℤ}
use binglib.Base.Word.{u64_mod, add64}
use binglib.Base.Runs.{Runs, Runs-ok, Runs-value}
use binglib.Bitcoin.{Libbitcoin, Transaction, Input, Output}
use binglib.Electrum.{ElectrumInterface, AddressHistory}
use binglib.WalletState.{WalletState, TransactionInfo, HistoryViewRow}
use binglib.WalletState.Coherent.{
  IsAnswered, IsCoherent, IsKept, IsKept-trans, get_transaction-IsCoherent, IsDecoded,
}
use binglib.WalletState.Listing.{plain}
use binglib.History.{
  TxWalletImpact, impact_of, view_row, calculate_tx_wallet_impact, sum_impacts, view_rows,
  gather_funding_txs, funding_ids,
}
use binglib.History.Rows.{sum_deltas}
use binglib.History.Unspent.{balance_item, IsFunded}
use binglib.History.Items.{analyse_tx_balances-balance_item}

-- The id under which the code asks again for a transaction that it has.
abbrev pub id_of : Libbitcoin → Transaction → String
id_of lib t = lib.encode_hash (lib.tx_hash t)

-- The id is not empty, there is a transaction under it that can be decoded, and so are those that it
-- spends from.
abbrev pub IsAnalysable :
    Libbitcoin
    → (String → String)
    → (String → Transaction)
    → (Input → Output)
    → Transaction
    → Type 0
IsAnalysable lib hex tx previous t =
    IsDecoded lib hex tx (id_of lib t)
    × All (IsFunded lib hex tx previous) (tx (id_of lib t)).inputs

pub All-plain :
    (P : Transaction → Type 0) (infos : List TransactionInfo)
    → All (λ info. P info.tx) (map plain infos)
    → All (λ info. P info.tx) infos
All-plain P [] all = tt
All-plain P (info ∷ infos) all = (all.0, All-plain P infos all.1)

module _ {W : Type 0} (lib : Libbitcoin) (electrum : ElectrumInterface W) (is_testnet : Bool)
    (tx : String → Transaction) (previous : Input → Output) (wallet : List String) where
  -- What a transaction does to the wallet.
  abbrev pub impact : TransactionInfo → TxWalletImpact
  impact info =
      impact_of lib (balance_item lib is_testnet tx previous wallet (id_of lib info.tx) ∷ [])

  abbrev pub row_of : TransactionInfo → HistoryViewRow
  row_of info = view_row lib electrum is_testnet info (impact info)

  -- The sum of the deltas of the transactions with such a height.
  abbrev pub total : (ℤ → Bool) → List TransactionInfo → ℕ
  total counts [] = 0
  total counts (info ∷ infos) =
      if counts info.height
      then (impact info).balance_delta + total counts infos
      else total counts infos

  pub total-plain :
      (counts : ℤ → Bool) (infos : List TransactionInfo)
      → total counts (map plain infos) ≡ total counts infos
  total-plain counts [] = refl
  total-plain counts (info ∷ infos) = rw (total-plain counts infos) refl

  -- A transaction has a height of 0 or another one.
  pub total-sum_deltas :
      (infos : List TransactionInfo)
      → total (λ height. not (eqb_ℤ height (pos 0))) infos
          + total (λ height. eqb_ℤ height (pos 0)) infos
        ≡ sum_deltas (map row_of infos)
  total-sum_deltas [] = refl
  total-sum_deltas (info ∷ infos) = ground (arith, total-sum_deltas infos)

module _ {W : Type 0} (lib : Libbitcoin) (electrum : ElectrumInterface W) (is_testnet : Bool)
    (history : String → AddressHistory) (hex : String → String) (spkh : String → String)
    (tx : String → Transaction) (previous : Input → Output)
    (answered : IsAnswered electrum history hex) (wallet : List String) where
  calculate_tx_wallet_impact-impact :
      (info : TransactionInfo) (s : WalletState W) (w : W)
      → s.addresses ≡ wallet
      → IsCoherent history hex spkh s
      → IsAnalysable lib hex tx previous info.tx
      → Runs
          (calculate_tx_wallet_impact lib electrum is_testnet (id_of lib info.tx))
          (s, w)
          (λ r s'.
            (r ≡ impact lib electrum is_testnet tx previous wallet info)
            × IsKept lib electrum history hex spkh answered s s'.0)
  unfolding calculate_tx_wallet_impact
  calculate_tx_wallet_impact-impact info s w own coherent analysable =
      let run =
        analyse_tx_balances-balance_item lib electrum is_testnet history hex spkh tx previous
          answered wallet (id_of lib info.tx) s w own coherent analysable.0 analysable.1 in
      record {
        value = impact lib electrum is_testnet tx previous wallet info;
        after = run.after;
        returns = rw (Runs-value _ run) refl;
        ensures = (refl, run.ensures.1);
      }

  pub sum_impacts-total :
      (counts : ℤ → Bool) (infos : List TransactionInfo) (b : ℕ) (s : WalletState W) (w : W)
      → s.addresses ≡ wallet
      → IsCoherent history hex spkh s
      → All (λ info. IsAnalysable lib hex tx previous info.tx) infos
      → b < u64_mod
      → Runs
          (sum_impacts lib electrum is_testnet counts infos b)
          (s, w)
          (λ r s'.
            (r ≡ (b + total lib electrum is_testnet tx previous wallet counts infos) % u64_mod)
            × IsKept lib electrum history hex spkh answered s s'.0)
  unfolding sum_impacts
  sum_impacts-total counts [] b s w own coherent analysable small =
      Runs-ok _ b refl
        (omega arith, record { coherent = coherent; addresses = refl; callbacks = refl })
  sum_impacts-total counts (info ∷ infos) b s w own coherent analysable small =
      elim (Bool-cases (counts info.height)) [
        | inl counted ↦
            let delta = (impact lib electrum is_testnet tx previous wallet info).balance_delta in
            let first = calculate_tx_wallet_impact-impact info s w own coherent analysable.0 in
            let kept = first.ensures.1 in
            let rest =
              sum_impacts-total counts infos (add64 b delta) first.after.0 first.after.1
                (kept.addresses ∙ own) kept.coherent analysable.1 (omega arith) in
            record {
              value = rest.value;
              after = rest.after;
              returns = rw (counted, Runs-value _ first) rest.returns;
              ensures = (
                rw counted (omega (arith, rest.ensures.0)),
                IsKept-trans lib electrum history hex spkh answered kept rest.ensures.1,
              );
            }
        | inr left ↦
            let rest = sum_impacts-total counts infos b s w own coherent analysable.1 small in
            record {
              value = rest.value;
              after = rest.after;
              returns = rw left rest.returns;
              ensures = (rw left rest.ensures.0, rest.ensures.1);
            }
      ]

  pub view_rows-row_of :
      (infos : List TransactionInfo) (s : WalletState W) (w : W)
      → s.addresses ≡ wallet
      → IsCoherent history hex spkh s
      → All (λ info. IsAnalysable lib hex tx previous info.tx) infos
      → Runs
          (view_rows lib electrum is_testnet infos)
          (s, w)
          (λ r s'.
            (r ≡ map (row_of lib electrum is_testnet tx previous wallet) infos)
            × IsKept lib electrum history hex spkh answered s s'.0)
  unfolding view_rows
  view_rows-row_of [] s w own coherent analysable =
      Runs-ok _ [] refl (refl, record { coherent = coherent; addresses = refl; callbacks = refl })
  view_rows-row_of (info ∷ infos) s w own coherent analysable =
      let first = calculate_tx_wallet_impact-impact info s w own coherent analysable.0 in
      let kept = first.ensures.1 in
      let rest =
        view_rows-row_of infos first.after.0 first.after.1 (kept.addresses ∙ own) kept.coherent
          analysable.1 in
      record {
        value = map (row_of lib electrum is_testnet tx previous wallet) (info ∷ infos);
        after = rest.after;
        returns = rw (Runs-value _ first, Runs-value _ rest) refl;
        ensures = (refl, IsKept-trans lib electrum history hex spkh answered kept rest.ensures.1);
      }

  pub gather_funding_txs-IsKept :
      (infos : List TransactionInfo) (txids : List String) (s : WalletState W) (w : W)
      → IsCoherent history hex spkh s
      → All (λ info. IsAnalysable lib hex tx previous info.tx) infos
      → Runs
          (gather_funding_txs lib electrum is_testnet infos txids)
          (s, w)
          (λ r s'. IsKept lib electrum history hex spkh answered s s'.0)
  unfolding gather_funding_txs
  gather_funding_txs-IsKept [] txids s w coherent analysable =
      Runs-ok _ txids refl (record { coherent = coherent; addresses = refl; callbacks = refl })
  gather_funding_txs-IsKept (info ∷ infos) txids s w coherent analysable =
      let id = id_of lib info.tx in
      let first =
        get_transaction-IsCoherent lib electrum history hex spkh answered tx id s w coherent
          analysable.0.0 in
      let kept = first.ensures.1 in
      let rest =
        gather_funding_txs-IsKept infos (funding_ids lib electrum is_testnet (tx id).inputs txids)
          first.after.0 first.after.1 kept.coherent analysable.1 in
      record {
        value = rest.value;
        after = rest.after;
        returns = rw (Runs-value _ first) rest.returns;
        ensures = IsKept-trans lib electrum history hex spkh answered kept rest.ensures;
      }
