-- ===== src/History/Items.antt =====
-- What goes in and out by the transactions of an address, over the wallet's caches and a server whose
-- answers do not change.
use binglib.Base.{
  ◌≡◌, refl, sym, ap, subst, ◌∙◌, String, Bool, List, [], ◌∷◌, map, Bool-cases, inl, inr, All,
}
use binglib.Base.Runs.{Runs, Runs-ok, Runs-value}
use binglib.Bitcoin.{Libbitcoin, Transaction, Input, Output}
use binglib.Electrum.{ElectrumInterface, AddressHistory, AddressHistoryItem}
use binglib.WalletState.{WalletState}
use binglib.WalletState.Unmarked.{All-unmarked, unmarked-All}
use binglib.WalletState.Coherent.{
  IsAnswered, IsCoherent, IsKept, IsKept-trans, get_transaction-IsCoherent, get_history-IsCoherent,
  IsDecoded,
}
use binglib.History.{
  addresses_of, output_entry, analyse_inputs, analyse_outputs, analyse_tx_balances, analyse_items,
  calc_address_balance, calculate_address_balance,
}
use binglib.History.Unspent.{
  is_chosen, entry_of, balance_item, balance_items, balance_items-unmarked, IsFunded, AreFunded,
  IsKnown,
}

module _ {W : Type 0} (lib : Libbitcoin) (electrum : ElectrumInterface W) (is_testnet : Bool)
    (history : String → AddressHistory) (hex : String → String) (spkh : String → String)
    (tx : String → Transaction) (previous : Input → Output)
    (answered : IsAnswered electrum history hex) where
  analyse_outputs-map :
      (wallet : List String) (outputs : List Output)
      → analyse_outputs lib electrum is_testnet wallet outputs
        ≡ map (λ o. output_entry lib wallet o (addresses_of lib is_testnet o)) outputs
  analyse_outputs-map wallet [] = refl
  analyse_outputs-map wallet (o ∷ outputs) =
      ap (◌∷◌ (output_entry lib wallet o (addresses_of lib is_testnet o)))
        (analyse_outputs-map wallet outputs)

  analyse_inputs-entry_of :
      (wallet : List String) (inputs : List Input) (s : WalletState W) (w : W)
      → s.addresses ≡ wallet
      → IsCoherent history hex spkh s
      → All (IsFunded lib hex tx previous) inputs
      → Runs
          (analyse_inputs lib electrum is_testnet inputs)
          (s, w)
          (λ r s'.
            (r ≡ map (entry_of lib is_testnet tx previous wallet) inputs)
            × IsKept lib electrum history hex spkh answered s s'.0)
  unfolding analyse_inputs
  analyse_inputs-entry_of wallet [] s w own coherent funded =
      Runs-ok _ [] refl (refl, record { coherent = coherent; addresses = refl; callbacks = refl })
  analyse_inputs-entry_of wallet (i ∷ inputs) s w own coherent funded =
      let id = lib.encode_hash i.previous_output.hash in
      let first =
        get_transaction-IsCoherent lib electrum history hex spkh answered tx id s w coherent
          funded.0.0 in
      let kept = first.ensures.1 in
      let own' = kept.addresses ∙ own in
      let rest =
        analyse_inputs-entry_of wallet inputs first.after.0 first.after.1 own' kept.coherent
          funded.1 in
      record {
        value = map (entry_of lib is_testnet tx previous wallet) (i ∷ inputs);
        after = rest.after;
        returns = rw (Runs-value (tx id) first, funded.0.1, own', Runs-value _ rest) refl;
        ensures = (refl, IsKept-trans lib electrum history hex spkh answered kept rest.ensures.1);
      }

  pub analyse_tx_balances-balance_item :
      (wallet : List String) (tx_id : String) (s : WalletState W) (w : W)
      → s.addresses ≡ wallet
      → IsCoherent history hex spkh s
      → IsDecoded lib hex tx tx_id
      → All (IsFunded lib hex tx previous) (tx tx_id).inputs
      → Runs
          (analyse_tx_balances lib electrum is_testnet tx_id)
          (s, w)
          (λ r s'.
            (r ≡ balance_item lib is_testnet tx previous wallet tx_id)
            × IsKept lib electrum history hex spkh answered s s'.0)
  unfolding analyse_tx_balances
  analyse_tx_balances-balance_item wallet tx_id s w own coherent decoded funded =
      let first =
        get_transaction-IsCoherent lib electrum history hex spkh answered tx tx_id s w coherent
          decoded in
      let kept = first.ensures.1 in
      let inputs =
        analyse_inputs-entry_of wallet (tx tx_id).inputs first.after.0 first.after.1
          (kept.addresses ∙ own) kept.coherent funded in
      let both = IsKept-trans lib electrum history hex spkh answered kept inputs.ensures.1 in
      record {
        value = balance_item lib is_testnet tx previous wallet tx_id;
        after = inputs.after;
        returns =
            rw
              (
                Runs-value (tx tx_id) first,
                Runs-value _ inputs,
                both.addresses ∙ own,
                analyse_outputs-map wallet (tx tx_id).outputs,
              )
              refl;
        ensures = (refl, both);
      }

  analyse_items-balance_items :
      (u : Bool) (wallet : List String) (items : List AddressHistoryItem) (s : WalletState W)
      (w : W)
      → s.addresses ≡ wallet
      → IsCoherent history hex spkh s
      → AreFunded lib hex tx previous items
      → Runs
          (analyse_items lib electrum is_testnet u items)
          (s, w)
          (λ r s'.
            (r ≡ balance_items lib is_testnet tx previous wallet u items)
            × IsKept lib electrum history hex spkh answered s s'.0)
  unfolding analyse_items
  analyse_items-balance_items u wallet [] s w own coherent funded =
      Runs-ok _ [] refl (refl, record { coherent = coherent; addresses = refl; callbacks = refl })
  analyse_items-balance_items u wallet (item ∷ items) s w own coherent funded =
      elim (Bool-cases (is_chosen u item)) [
        | inl chosen ↦
            let first =
              analyse_tx_balances-balance_item wallet item.txid s w own coherent funded.0.0
                funded.0.1 in
            let kept = first.ensures.1 in
            let rest =
              analyse_items-balance_items u wallet items first.after.0 first.after.1
                (kept.addresses ∙ own) kept.coherent funded.1 in
            record {
              value =
                  balance_item lib is_testnet tx previous wallet item.txid
                  ∷ balance_items lib is_testnet tx previous wallet u items;
              after = rest.after;
              returns = rw (chosen, Runs-value _ first, Runs-value _ rest) refl;
              ensures = (
                rw chosen refl,
                IsKept-trans lib electrum history hex spkh answered kept rest.ensures.1,
              );
            }
        | inr left ↦
            let rest = analyse_items-balance_items u wallet items s w own coherent funded.1 in
            record {
              value = rest.value;
              after = rest.after;
              returns = rw left rest.returns;
              ensures = (rw left rest.ensures.0, rest.ensures.1);
            }
      ]

  pub calculate_address_balance-items :
      (u : Bool) (wallet : List String) (a : String) (s : WalletState W) (w : W)
      → s.addresses ≡ wallet
      → IsCoherent history hex spkh s
      → IsKnown lib hex tx previous history spkh a
      → Runs
          (calculate_address_balance lib electrum is_testnet a u)
          (s, w)
          (λ r s'.
            (r
              ≡ calc_address_balance a
                  (balance_items lib is_testnet tx previous wallet u (history (spkh a))))
            × IsKept lib electrum history hex spkh answered s s'.0)
  unfolding calculate_address_balance
  calculate_address_balance-items u wallet a s w own coherent known =
      let first =
        get_history-IsCoherent lib electrum history hex spkh answered a s w coherent
          known.converted in
      let kept = first.ensures.1 in
      let Q = λ (txid : String).
        IsDecoded lib hex tx txid × All (IsFunded lib hex tx previous) (tx txid).inputs in
      let funded = All-unmarked Q first.value (
        subst (AreFunded lib hex tx previous) (sym first.ensures.0)
          (unmarked-All Q (history (spkh a)) known.funded)) in
      let rest =
        analyse_items-balance_items u wallet first.value first.after.0 first.after.1
          (kept.addresses ∙ own) kept.coherent funded in
      let items = balance_items lib is_testnet tx previous wallet u in
      let same : items first.value ≡ items (history (spkh a)) =
        sym (balance_items-unmarked lib is_testnet tx previous wallet u first.value)
        ∙ ap items first.ensures.0
        ∙ balance_items-unmarked lib is_testnet tx previous wallet u (history (spkh a)) in
      record {
        value = calc_address_balance a (items (history (spkh a)));
        after = rest.after;
        returns = rw (first.returns, Runs-value _ rest, same) refl;
        ensures = (refl, IsKept-trans lib electrum history hex spkh answered kept rest.ensures.1);
      }
