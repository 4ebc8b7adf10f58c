-- ===== src/UnlockTx/Correct.antt =====
-- The unlocking transaction against the locking one.
use binglib.Base.{ℕ, ◌≡◌, refl, sym, ap, ◌∙◌, String, List, [], ◌∷◌}
use binglib.Base.Word.{add64}
use binglib.Bitcoin.{
  Bytes, Libbitcoin, EcPrivate, OutputPoint, Input, Output, Transaction, Script, push, code,
  checklocktimeverify, drop, checksig,
}
use binglib.LockTx.{lock_tx}
use binglib.Script.{to_pay_key_hash_pattern_with_lock}
use binglib.Tx.{outputs_with_refund, refund_outputs}
use binglib.Tx.Signing.{SignsBlank, sign_inputs-spent}
use binglib.UnlockTx.{redeem_script, unlock_tx, unlock_tx_with}

module _ (lib : Libbitcoin) (key : EcPrivate) (lock_until : ℕ)
    -- of the locking transaction
    (local_time : ℕ → String) (src_addr : String) (amount fee : ℕ) (utxos : List OutputPoint)
    (available : ℕ)
    -- of the unlocking one
    (satoshis : ℕ) (target_addr : String) where
  abbrev pub locking : Transaction
  locking = lock_tx lib local_time src_addr key amount fee lock_until utxos available

  abbrev pub funding_id : String
  funding_id = lib.encode_hash (lib.tx_hash locking)

  abbrev pub unlocking : Transaction
  unlocking = unlock_tx lib key funding_id satoshis lock_until target_addr

  abbrev input_with : Bytes → Bytes → Bytes → Input
  input_with hash signature script = record {
    previous_output = record { hash = hash; index = 0 };
    script = push signature ∷ push script ∷ [];
    sequence = 0;
  }

  -- What the unlocking transaction's only input has to be: it spends output 0 of the locking one,
  -- allows the lock time to be enforced, and unlocks by a signature of the unlocking transaction
  -- and the bytes of `script`.
  abbrev pub unlocking_input : Bytes → Input
  unlocking_input = input_with (lib.tx_hash locking) (
      lib.create_endorsement key.secret
        (redeem_script lib key funding_id satoshis lock_until target_addr) unlocking 0)

  -- The lock script, spelt out: not before `lock_until`, and then by a signature for the key.
  abbrev pub lock_script : Script
  lock_script =
      push (lib.write_4_bytes_little_endian lock_until)
      ∷ code checklocktimeverify
      ∷ code drop
      ∷ push key.public_key
      ∷ code checksig
      ∷ []

  -- If a transaction id can be decoded again and endorsements do not depend on the scripts of the
  -- inputs, then what construct_unlock_tx makes for the id, key and time of a locking transaction
  -- has one input, which spends that transaction's output 0 and shows a script: the very one whose
  -- hash output 0 pays to, namely the one that demands the time of the lock and a signature for the
  -- key. The lock time of the unlocking transaction is that time.
  pub unlock_tx-lock_tx :
      lib.decode_hash funding_id ≡ lib.tx_hash locking
      → SignsBlank lib
      → (output0 : Output) × (others : List Output) × (locking.outputs ≡ output0 ∷ others)
        × (output0.script
            ≡ lib.pay_script_hash_pattern (lib.bitcoin_short_hash (lib.script_to_data lock_script)))
        × (unlocking.inputs ≡ unlocking_input (lib.script_to_data lock_script) ∷ [])
        × (unlocking.locktime ≡ lock_until)
  unfolding unlock_tx lock_tx to_pay_key_hash_pattern_with_lock
  unlock_tx-lock_tx decodes signs =
      let redeem = redeem_script lib key funding_id satoshis lock_until target_addr in
      let bytes = lib.script_to_data redeem in
      let unsigned = unlock_tx_with lib key funding_id satoshis lock_until target_addr [] in
      let source = lib.payment_address_of src_addr in
      let target = lib.pay_script_hash_pattern (lib.bitcoin_short_hash bytes) in
      let same_signature : lib.create_endorsement key.secret redeem unsigned 0
          ≡ lib.create_endorsement key.secret redeem unlocking 0 =
        signs key.secret redeem unsigned 0 ∙ sym (signs key.secret redeem unlocking 0) in
      (
        record { value = amount; script = target },
        refund_outputs lib available (add64 amount fee) source,
        (sign_inputs-spent lib key utxos
            (outputs_with_refund lib available (add64 amount fee) amount target source)).1,
        refl,
        ap
              (λ hash.
                input_with hash (lib.create_endorsement key.secret redeem unsigned 0) bytes ∷ [])
              decodes
            ∙ ap (λ signature. input_with (lib.tx_hash locking) signature bytes ∷ [])
                same_signature,
        refl,
      )
