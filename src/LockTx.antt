-- ===== src/LockTx.antt =====
-- src/locktx/online_lock_tx_creator.cpp: a transaction that locks funds of an address until a time.
-- `local_time` is put_time of localtime, which depends on the machine.
pub mod Correct
mod Tests
use binglib.Base.{ℕ, String, List, [], ◌∷◌, null, not, if◌then◌else◌}
use binglib.Base.Text.{written, decimal}
use binglib.Base.Word.{add64}
use binglib.Base.Effect.{
  Action, Result, ok, err, insufficient_funds, invalid_argument, invalid_source_address, lift,
  throw_if, pure, ◌>>=◌, ◌>>◌,
}
use binglib.Bitcoin.{Libbitcoin, Bytes, OutputPoint, Transaction, Script, EcPrivate, PaymentAddress}
use binglib.Electrum.{ElectrumInterface}
use binglib.Libb.{ObeliskClient, fetch_utxo}
use binglib.Converter.{base58_to_spkh_hex}
use binglib.Funds.{Gathered, find_funds, find_funds_utxos}
use binglib.Script.{to_pay_key_hash_pattern_with_lock}
use binglib.Tx.{outputs_with_refund, unsigned_tx, sign_inputs}

pub record LockTxInfo : Type 0 where
  pub locking_tx : String
  pub unlocking_info : String

abbrev pub insufficient_message : ℕ → ℕ → String
insufficient_message needed available = written (
    "Insufficient funds, required "
    ∷ decimal needed
    ∷ ", maximum at one address available "
    ∷ decimal available
    ∷ "\n"
    ∷ [])

module _ (lib : Libbitcoin) (local_time : ℕ → String) (src_addr : String) (key : EcPrivate)
    (amount fee lock_until : ℕ) where
  abbrev pub cltv_script : Script
  cltv_script = to_pay_key_hash_pattern_with_lock lib key.public_key lock_until

  -- The script of output 0, which pays to the hash of the lock script.
  abbrev pub locking_script : Script
  locking_script =
      lib.pay_script_hash_pattern (lib.bitcoin_short_hash (lib.script_to_data cltv_script))

  abbrev pub needed : ℕ
  needed = add64 amount fee

  unfoldable pub lock_tx : List OutputPoint → ℕ → Transaction
  lock_tx utxos available = sign_inputs lib key utxos (
      unsigned_tx utxos (
        outputs_with_refund lib available needed amount locking_script
          (lib.payment_address_of src_addr)))

  abbrev pub unlocking_text : String → String
  unlocking_text tx_to_unlock = written (
      "=========================="
      ∷ "\n"
      ∷ "===== data that will be needed to unlock the funds: ===="
      ∷ "\n"
      ∷ "1) lock time: "
      ∷ decimal lock_until
      ∷ " <=> "
      ∷ local_time lock_until
      ∷ "\n"
      ∷ "2) private key of address: "
      ∷ src_addr
      ∷ "\n"
      ∷ "3) available amount: "
      ∷ decimal amount
      ∷ " satoshi"
      ∷ "\n"
      ∷ "   from ^^ please subtract fee"
      ∷ "\n"
      ∷ "4) funding transaction id: "
      ∷ tx_to_unlock
      ∷ "\n"
      ∷ "5) desired target address to which the unlocked funds will be transferred"
      ∷ "\n"
      ∷ "YOU NEED TO PRESERVE THIS DATA TO AVOID LOSS OF FUNDS!"
      ∷ "\n"
      ∷ "=========================="
      ∷ "\n"
      ∷ "=========================="
      ∷ "\n"
      ∷ [])

  -- do_construct_p2sh_time_locking_tx_from_address
  unfoldable pub do_construct : Gathered → Result LockTxInfo
  do_construct (utxos, available) =
      let tx = lock_tx utxos available in
      if null utxos
      then err (insufficient_funds (insufficient_message needed available) needed available)
      else if not (lib.script_is_valid cltv_script)
      then err (invalid_argument "CLTV Script Invalid!")
      else if not (lib.payment_address_of src_addr).is_valid
      then err invalid_source_address
      else ok (record {
        locking_tx = lib.encode_base16 (lib.tx_to_data tx);
        unlocking_info = unlocking_text (lib.encode_hash (lib.tx_hash tx));
      })

  -- construct_p2sh_time_locking_tx_from_address over a libbitcoin server
  unfoldable pub construct : {W : Type 0} → ObeliskClient W → Action W LockTxInfo
  unfolding do_construct
  construct client = do
    let source = lib.payment_address_of src_addr
    throw_if (not source.is_valid) invalid_source_address
    points ← fetch_utxo client source 1 lib.select_individual []
    lift (do_construct (find_funds lib needed points))

  -- construct_p2sh_time_locking_tx_from_address over an Electrum server
  unfoldable pub construct_electrum : {W : Type 0} → ElectrumInterface W → Action W LockTxInfo
  unfolding do_construct
  construct_electrum electrum = do
    spkh ← lift (base58_to_spkh_hex lib src_addr)
    input_utxos ← electrum.get_utxos spkh
    lift (do_construct (find_funds_utxos lib needed input_utxos))

-- The overloads that take the private key as WIF text.
module _ (lib : Libbitcoin) (local_time : ℕ → String) (src_addr wif : String)
    (amount fee lock_until : ℕ) {W : Type 0} where
  pub construct_wif : ObeliskClient W → Action W LockTxInfo
  construct_wif =
      construct lib local_time src_addr (lib.ec_private_of_wif wif) amount fee lock_until

  pub construct_electrum_wif : ElectrumInterface W → Action W LockTxInfo
  construct_electrum_wif =
      construct_electrum lib local_time src_addr (lib.ec_private_of_wif wif) amount fee lock_until
