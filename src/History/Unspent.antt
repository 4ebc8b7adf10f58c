-- ===== src/History/Unspent.antt =====
-- What is unspent of a wallet, as the server's histories and transactions say.
use binglib.Base.{
  ℕ, ◌+◌, ◌≡◌, refl, String, Bool, not, ◌||◌, some, List, [], ◌∷◌, map, get_elem?, arith, All,
  if◌then◌else◌,
}
use binglib.Base.Int.{pos, leb_ℤ}
use binglib.Base.Effect.{ok}
use binglib.Bitcoin.{Libbitcoin, Transaction, Input, Output}
use binglib.Electrum.{AddressHistory, AddressHistoryItem}
use binglib.Converter.{base58_to_spkh_hex}
use binglib.WalletState.Coherent.{IsDecoded}
use binglib.WalletState.Unmarked.{unmarked}
use binglib.History.{TxBalance, TxBalanceInput, addresses_of, input_entry, output_entry}
use binglib.History.Balance.{IsConsistent, unspent}

-- Whether an entry is taken.
abbrev pub is_chosen : Bool → AddressHistoryItem → Bool
is_chosen unconfirmed_only item = not unconfirmed_only || leb_ℤ item.height (pos 0)

module _ (lib : Libbitcoin) (is_testnet : Bool) (tx : String → Transaction)
    (previous : Input → Output) (wallet : List String) where
  abbrev pub funding_tx : Input → String
  funding_tx i = lib.encode_hash i.previous_output.hash

  abbrev pub entry_of : Input → TxBalanceInput
  entry_of i =
      input_entry wallet (funding_tx i) i.previous_output.index (previous i)
        (addresses_of lib is_testnet (previous i))

  -- What goes in and out by a transaction.
  abbrev pub balance_item : String → TxBalance
  balance_item tx_id = record {
    tx_id = tx_id;
    inputs = map entry_of (tx tx_id).inputs;
    outputs =
        map (λ o. output_entry lib wallet o (addresses_of lib is_testnet o)) (tx tx_id).outputs;
  }

  abbrev pub balance_items : Bool → List AddressHistoryItem → List TxBalance
  balance_items unconfirmed_only [] = []
  balance_items unconfirmed_only (item ∷ items) =
      if is_chosen unconfirmed_only item
      then balance_item item.txid ∷ balance_items unconfirmed_only items
      else balance_items unconfirmed_only items

  pub balance_items-unmarked :
      (unconfirmed_only : Bool) (items : List AddressHistoryItem)
      → balance_items unconfirmed_only (unmarked items) ≡ balance_items unconfirmed_only items
  balance_items-unmarked u [] = refl
  balance_items-unmarked u (item ∷ items) = ground (arith, balance_items-unmarked u items)

module _ (lib : Libbitcoin) (hex : String → String) (tx : String → Transaction)
    (previous : Input → Output) where
  -- The transaction that an input spends from has an id, can be decoded, and has the output.
  abbrev pub IsFunded : Input → Type 0
  IsFunded i =
      IsDecoded lib hex tx (lib.encode_hash i.previous_output.hash)
      × (get_elem? (tx (lib.encode_hash i.previous_output.hash)).outputs i.previous_output.index
          ≡ some (previous i))

  -- So for an entry of a history, and for all its inputs.
  abbrev pub AreFunded : List AddressHistoryItem → Type 0
  AreFunded items =
      All (λ item. IsDecoded lib hex tx item.txid × All IsFunded (tx item.txid).inputs) items

  module _ (history : String → AddressHistory) (spkh : String → String) where
    -- What is known of the history of an address: it can be converted, and all its transactions are funded.
    pub record IsKnown (a : String) : Type 0 where
      pub converted : base58_to_spkh_hex lib a ≡ ok (spkh a)
      pub funded : AreFunded (history (spkh a))

module _ (lib : Libbitcoin) (is_testnet : Bool) (history : String → AddressHistory)
    (spkh : String → String) (tx : String → Transaction) (previous : Input → Output) (u : Bool)
    (wallet : List String) where
  -- The outputs that pay to the addresses and that nothing later in the address's history spends.
  abbrev pub total_unspent : List String → ℕ
  total_unspent [] = 0
  total_unspent (a ∷ addresses) =
      unspent a (balance_items lib is_testnet tx previous wallet u (history (spkh a)))
      + total_unspent addresses

  -- No output of the address is spent twice, or in part, in its history.
  abbrev pub AreConsistent : List String → Type 0
  AreConsistent addresses =
      All
        (λ a. IsConsistent a (balance_items lib is_testnet tx previous wallet u (history (spkh a))))
        addresses
