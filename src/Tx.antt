-- ===== src/Tx.antt =====
-- What the two creators of online transactions have in common: the loops of
-- src/locktx/online_lock_tx_creator.cpp, which src/p2pkhtx/online_p2pkh_tx_creator.cpp repeats.
-- transaction() and input() start empty, with a lock time of 0.
pub mod Outputs
pub mod Signing
mod Tests
use binglib.Base.{ℕ, zero, suc, List, [], ◌∷◌, ◌++◌, map, ltb, if◌then◌else◌, length}
use binglib.Base.Word.{add64, sub64}
use binglib.Bitcoin.{
  Bytes, Libbitcoin, OutputPoint, Input, Output, Transaction, Script, EcPrivate, PaymentAddress,
  push,
}

abbrev pub unsigned_input : OutputPoint → Input
unsigned_input utxo = record { previous_output = utxo; script = []; sequence = 0xfffffffe }

-- output1, if anything is left over: back to the source
abbrev pub refund_outputs : Libbitcoin → ℕ → ℕ → PaymentAddress → List Output
refund_outputs lib available needed source =
    let refund = sub64 available needed in
    let output1 : Output = record {
      value = refund;
      script = lib.pay_key_hash_pattern source.hash;
    } in
    if ltb 0 refund then output1 ∷ [] else []

abbrev pub outputs_with_refund : Libbitcoin → ℕ → ℕ → ℕ → Script → PaymentAddress → List Output
outputs_with_refund lib available needed amount target source =
    let output0 : Output = record { value = amount; script = target } in
    output0 ∷ refund_outputs lib available needed source

abbrev pub unsigned_tx : List OutputPoint → List Output → Transaction
unsigned_tx utxos outputs = record {
  version = 1;
  locktime = 0;
  inputs = map unsigned_input utxos;
  outputs = outputs;
}

-- tx.inputs()[i].set_script(script)
abbrev pub set_script : ℕ → Script → List Input → List Input
set_script i script [] = []
set_script zero script (x ∷ xs) = record x { script = script } ∷ xs
set_script (suc i) script (x ∷ xs) = x ∷ set_script i script xs

-- The script that unlocks input `i`: the endorsement of the transaction as it stands, and the key.
abbrev pub unlocking_script : Libbitcoin → EcPrivate → Transaction → ℕ → Script
unlocking_script lib key tx i =
    let previous = lib.pay_key_hash_pattern (lib.bitcoin_short_hash key.public_key) in
    push (lib.create_endorsement key.secret previous tx i) ∷ push key.public_key ∷ []

-- One round of the signing loop.
abbrev pub sign_input : Libbitcoin → EcPrivate → ℕ → Transaction → Transaction
sign_input lib key i tx = record tx {
  inputs = set_script i (unlocking_script lib key tx i) tx.inputs;
}

-- The loop, `n` rounds from index `i` on.
unfoldable pub sign_from : Libbitcoin → EcPrivate → ℕ → ℕ → Transaction → Transaction
sign_from lib key zero i tx = tx
sign_from lib key (suc n) i tx = sign_from lib key n (suc i) (sign_input lib key i tx)

unfoldable pub sign_inputs : Libbitcoin → EcPrivate → List OutputPoint → Transaction → Transaction
sign_inputs lib key utxos tx = sign_from lib key (length utxos) 0 tx
