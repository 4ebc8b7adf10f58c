-- ===== src/UnlockTx.antt =====
-- src/unlocktx/offline_unlock_tx_creator.cpp: a transaction that spends locked funds.
pub mod Correct
mod Tests
use binglib.Base.{ℕ, String, List, [], ◌∷◌, not, if◌then◌else◌}
use binglib.Base.Effect.{Result, ok, err, invalid_argument, invalid_target_address}
use binglib.Bitcoin.{Libbitcoin, OutputPoint, Input, Transaction, Script, EcPrivate, push}
use binglib.Script.{to_pay_key_hash_pattern_with_lock}
use binglib.P2pkhTx.{is_bad_target}

module _ (lib : Libbitcoin) (key : EcPrivate) (src_tx_id : String) (satoshis src_lock_until : ℕ)
    (target_addr : String) where
  abbrev pub redeem_script : Script
  redeem_script = to_pay_key_hash_pattern_with_lock lib key.public_key src_lock_until

  -- The transaction before its input has the unlocking script.
  abbrev pub unlock_tx_with : Script → Transaction
  unlock_tx_with script = record {
    version = 1;
    locktime = src_lock_until;
    inputs =
        record {
          previous_output = record { hash = lib.decode_hash src_tx_id; index = 0 };
          script = script;
          sequence = 0;
        }
        ∷ [];
    outputs =
        record {
          value = satoshis;
          script = lib.pay_key_hash_pattern (lib.payment_address_of target_addr).hash;
        }
        ∷ [];
  }

  unfoldable pub unlock_tx : Transaction
  unlock_tx = unlock_tx_with (
      push (lib.create_endorsement key.secret redeem_script (unlock_tx_with []) 0)
      ∷ push (lib.script_to_data redeem_script)
      ∷ [])

  unfoldable pub construct_unlock_tx : Result String
  construct_unlock_tx =
      if is_bad_target lib (lib.payment_address_of target_addr)
      then err invalid_target_address
      else if not (lib.script_is_valid redeem_script)
      then err (invalid_argument "CLTV Script Invalid!")
      else ok (lib.encode_base16 (lib.tx_to_data unlock_tx))

pub construct_unlock_tx_wif : Libbitcoin → String → String → ℕ → ℕ → String → Result String
construct_unlock_tx_wif lib wif = construct_unlock_tx lib (lib.ec_private_of_wif wif)
