-- ===== src/P2pkhTx.antt =====
-- src/p2pkhtx/online_p2pkh_tx_creator.cpp: a transaction that transfers funds between addresses.
pub mod Correct
mod Tests
use binglib.Base.{ℕ, String, List, [], ◌∷◌, null, not, if◌then◌else◌, ◌||◌, ◌==◌, Bool}
use binglib.Base.Text.{written, decimal}
use binglib.Base.Word.{add64}
use binglib.Base.Effect.{
  Action, Result, ok, err, insufficient_funds, invalid_target_address, invalid_source_address, lift,
  throw_if, pure, ◌>>=◌, ◌>>◌,
}
use binglib.Bitcoin.{Libbitcoin, OutputPoint, Transaction, EcPrivate, PaymentAddress}
use binglib.Electrum.{ElectrumInterface}
use binglib.Libb.{ObeliskClient, fetch_utxo}
use binglib.Converter.{base58_to_spkh_hex}
use binglib.Funds.{Gathered, find_funds, find_funds_utxos}
use binglib.Tx.{outputs_with_refund, unsigned_tx, sign_inputs}

abbrev pub insufficient_message : ℕ → ℕ → String
insufficient_message needed available =
    written
      ("Insufficient funds, required " ∷ decimal needed ∷ ", available " ∷ decimal available ∷ [])

-- The version is tested before the validity.
abbrev pub is_bad_target : Libbitcoin → PaymentAddress → Bool
is_bad_target lib target =
    (target.version == lib.mainnet_p2sh || target.version == lib.testnet_p2sh)
    || not target.is_valid

module _ (lib : Libbitcoin) (src_addr : String) (key : EcPrivate) (amount fee : ℕ)
    (target_addr : String) where
  abbrev pub needed : ℕ
  needed = add64 amount fee

  unfoldable pub transfer_tx : List OutputPoint → ℕ → Transaction
  transfer_tx utxos available = sign_inputs lib key utxos (
      unsigned_tx utxos (
        outputs_with_refund lib available needed amount
          (lib.pay_key_hash_pattern (lib.payment_address_of target_addr).hash)
          (lib.payment_address_of src_addr)))

  -- do_construct_p2pkh_tx_from_address
  unfoldable pub do_construct : Gathered → Result String
  do_construct (utxos, available) =
      if null utxos
      then err (insufficient_funds (insufficient_message needed available) needed available)
      else if is_bad_target lib (lib.payment_address_of target_addr)
      then err invalid_target_address
      else if not (lib.payment_address_of src_addr).is_valid
      then err invalid_source_address
      else ok (lib.encode_base16 (lib.tx_to_data (transfer_tx utxos available)))

  -- construct_p2pkh_tx_from_address over a libbitcoin server
  unfoldable pub construct : {W : Type 0} → ObeliskClient W → Action W String
  unfolding do_construct
  construct client = do
    let source = lib.payment_address_of src_addr
    throw_if (not source.is_valid) invalid_source_address
    points ← fetch_utxo client source 1 lib.select_individual []
    lift (do_construct (find_funds lib needed points))

  -- construct_p2pkh_tx_from_address over an Electrum server
  unfoldable pub construct_electrum : {W : Type 0} → ElectrumInterface W → Action W String
  unfolding do_construct
  construct_electrum electrum = do
    spkh ← lift (base58_to_spkh_hex lib src_addr)
    input_utxos ← electrum.get_utxos spkh
    lift (do_construct (find_funds_utxos lib needed input_utxos))

-- The overloads that take the private key as WIF text.
module _ (lib : Libbitcoin) (src_addr wif : String) (amount fee : ℕ) (target_addr : String)
    {W : Type 0} where
  pub construct_wif : ObeliskClient W → Action W String
  construct_wif = construct lib src_addr (lib.ec_private_of_wif wif) amount fee target_addr

  pub construct_electrum_wif : ElectrumInterface W → Action W String
  construct_electrum_wif =
      construct_electrum lib src_addr (lib.ec_private_of_wif wif) amount fee target_addr
