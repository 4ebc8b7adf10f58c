-- ===== src/Tx/Signing.antt =====
-- What the signing loop leaves.
use mathlib.Core.List.{append_assoc, map-append}
use binglib.Base.{
  ℕ, zero, suc, ◌≡◌, refl, sym, ap, ◌∙◌, List, [], ◌∷◌, ◌++◌, map, length, arith, length-append,
}
use binglib.Bitcoin.{
  Bytes, Libbitcoin, OutputPoint, Input, Output, Transaction, Script, EcPrivate, push,
}
use binglib.Tx.{
  unsigned_input, unsigned_tx, set_script, unlocking_script, sign_input, sign_from, sign_inputs,
}

-- A transaction without the scripts of its inputs, which is what a signature with `all` signs.
abbrev pub blank_input : Input → Input
blank_input x = record x { script = [] }

abbrev pub blank : Transaction → Transaction
blank tx = record tx { inputs = map blank_input tx.inputs }

-- An endorsement does not depend on the scripts of the inputs.
abbrev pub SignsBlank : Libbitcoin → Type 0
SignsBlank lib =
    (secret : Bytes) (script : Script) (tx : Transaction) (i : ℕ)
    → lib.create_endorsement secret script tx i ≡ lib.create_endorsement secret script (blank tx) i

-- The inputs for the points, from index `i` on, each with the script that unlocks it in `tx`.
abbrev pub signed_inputs : Libbitcoin → EcPrivate → Transaction → ℕ → List OutputPoint → List Input
signed_inputs lib key tx i [] = []
signed_inputs lib key tx i (u ∷ us) =
    record (unsigned_input u) { script = unlocking_script lib key tx i }
    ∷ signed_inputs lib key tx (suc i) us

map-blank_set_script :
    (i : ℕ) (script : Script) (xs : List Input)
    → map blank_input (set_script i script xs) ≡ map blank_input xs
map-blank_set_script i script [] = refl
map-blank_set_script zero script (x ∷ xs) = refl
map-blank_set_script (suc i) script (x ∷ xs) =
    ap (◌∷◌ (blank_input x)) (map-blank_set_script i script xs)

set_script-append :
    (script : Script) (xs : List Input) (x : Input) (ys : List Input)
    → set_script (length xs) script (xs ++ x ∷ ys) ≡ xs ++ record x { script = script } ∷ ys
set_script-append script [] x ys = refl
set_script-append script (y ∷ xs) x ys = ap (◌∷◌ y) (set_script-append script xs x ys)

sign_from-blank :
    (lib : Libbitcoin) (key : EcPrivate) (n i : ℕ) (tx : Transaction)
    → blank (sign_from lib key n i tx) ≡ blank tx
unfolding sign_from
sign_from-blank lib key zero i tx = refl
sign_from-blank lib key (suc n) i tx =
    sign_from-blank lib key n (suc i) (sign_input lib key i tx)
    ∙ ap
        (λ inputs. record {
          version = tx.version;
          locktime = tx.locktime;
          inputs = inputs;
          outputs = tx.outputs;
        })
        (map-blank_set_script i (unlocking_script lib key tx i) tx.inputs)

abbrev pub spent : Transaction → List OutputPoint
spent tx = map (λ x. x.previous_output) tx.inputs

spent-blank :
    (xs : List Input)
    → map (λ x. x.previous_output) (map blank_input xs) ≡ map (λ x. x.previous_output) xs
spent-blank [] = refl
spent-blank (x ∷ xs) = ap (◌∷◌ x.previous_output) (spent-blank xs)

spent-unsigned : (us : List OutputPoint) → map (λ x. x.previous_output) (map unsigned_input us) ≡ us
spent-unsigned [] = refl
spent-unsigned (u ∷ us) = ap (◌∷◌ u) (spent-unsigned us)

-- Signing changes neither what is spent nor the outputs.
pub sign_inputs-spent :
    (lib : Libbitcoin) (key : EcPrivate) (utxos : List OutputPoint) (outputs : List Output)
    → (spent (sign_inputs lib key utxos (unsigned_tx utxos outputs)) ≡ utxos)
      × ((sign_inputs lib key utxos (unsigned_tx utxos outputs)).outputs ≡ outputs)
unfolding sign_inputs
sign_inputs-spent lib key utxos outputs =
    let same = sign_from-blank lib key (length utxos) 0 (unsigned_tx utxos outputs) in
    let tx = sign_inputs lib key utxos (unsigned_tx utxos outputs) in
    (
      sym (spent-blank tx.inputs)
          ∙ ap spent same
          ∙ spent-blank (map unsigned_input utxos)
          ∙ spent-unsigned utxos,
      ap (λ t. t.outputs) same,
    )

module _ (lib : Libbitcoin) (key : EcPrivate) (signs : SignsBlank lib) where
  -- The state of the loop after the inputs `done`: the rest is unsigned.
  abbrev partly : List Input → List OutputPoint → List Output → Transaction
  partly signed us outputs = record {
    version = 1;
    locktime = 0;
    inputs = signed ++ map unsigned_input us;
    outputs = outputs;
  }

  unlocking_script-blank :
      (t tx : Transaction) (i : ℕ)
      → blank t ≡ blank tx
      → unlocking_script lib key t i ≡ unlocking_script lib key tx i
  unlocking_script-blank t tx i same =
      let previous = lib.pay_key_hash_pattern (lib.bitcoin_short_hash key.public_key) in
      ap (λ sig. push sig ∷ push key.public_key ∷ [])
        (signs key.secret previous t i
          ∙ ap (λ b. lib.create_endorsement key.secret previous b i) same
          ∙ sym (signs key.secret previous tx i))

  blank-partly :
      (signed : List Input) (u : OutputPoint) (us : List OutputPoint) (outputs : List Output)
      (script : Script)
      → blank (partly (signed ++ record (unsigned_input u) { script = script } ∷ []) us outputs)
        ≡ blank (partly signed (u ∷ us) outputs)
  blank-partly signed u us outputs script =
      ap (λ inputs. record { version = 1; locktime = 0; inputs = inputs; outputs = outputs })
        (simp (map-append, append_assoc))

  sign_input-partly :
      (signed : List Input) (u : OutputPoint) (us : List OutputPoint) (outputs : List Output)
      (tx : Transaction)
      → blank (partly signed (u ∷ us) outputs) ≡ blank tx
      → sign_input lib key (length signed) (partly signed (u ∷ us) outputs)
        ≡ partly
            (signed
              ++ record (unsigned_input u) { script = unlocking_script lib key tx (length signed) }
                ∷ [])
            us
            outputs
  sign_input-partly signed u us outputs tx same =
      ap (λ inputs. record { version = 1; locktime = 0; inputs = inputs; outputs = outputs })
        (rw (unlocking_script-blank (partly signed (u ∷ us) outputs) tx (length signed) same) (
          set_script-append _ signed (unsigned_input u) (map unsigned_input us)
          ∙ sym (append_assoc signed (_ ∷ []) (map unsigned_input us))))

  sign_from-partly :
      (signed : List Input) (us : List OutputPoint) (outputs : List Output) (tx : Transaction)
      → blank (partly signed us outputs) ≡ blank tx
      → sign_from lib key (length us) (length signed) (partly signed us outputs) ≡ record {
        version = 1;
        locktime = 0;
        inputs = signed ++ signed_inputs lib key tx (length signed) us;
        outputs = outputs;
      }
  unfolding sign_from
  sign_from-partly signed [] outputs tx same = refl
  sign_from-partly signed (u ∷ us) outputs tx same =
      let x = record (unsigned_input u) { script = unlocking_script lib key tx (length signed) } in
      let size : length (signed ++ x ∷ []) ≡ suc (length signed) =
        omega (arith, length-append signed (x ∷ [])) in
      ap (sign_from lib key (length us) (suc (length signed)))
        (sign_input-partly signed u us outputs tx same)
      ∙ ap (λ n. sign_from lib key (length us) n (partly (signed ++ x ∷ []) us outputs)) (sym size)
      ∙ sign_from-partly (signed ++ x ∷ []) us outputs tx
          (blank-partly signed u us outputs (unlocking_script lib key tx (length signed)) ∙ same)
      ∙ ap (λ inputs. record { version = 1; locktime = 0; inputs = inputs; outputs = outputs })
          (ap (λ n. (signed ++ x ∷ []) ++ signed_inputs lib key tx n us) size
            ∙ append_assoc signed (x ∷ []) (signed_inputs lib key tx (suc (length signed)) us))

  map-blank_signed :
      (tx : Transaction) (i : ℕ) (us : List OutputPoint)
      → map blank_input (signed_inputs lib key tx i us) ≡ map unsigned_input us
  map-blank_signed tx i [] = refl
  map-blank_signed tx i (u ∷ us) = ap (◌∷◌ (unsigned_input u)) (map-blank_signed tx (suc i) us)

  map-blank_unsigned :
      (us : List OutputPoint) → map blank_input (map unsigned_input us) ≡ map unsigned_input us
  map-blank_unsigned [] = refl
  map-blank_unsigned (u ∷ us) = ap (◌∷◌ (unsigned_input u)) (map-blank_unsigned us)

  abbrev with_inputs : List Output → List Input → Transaction
  with_inputs outputs inputs = record {
    version = 1;
    locktime = 0;
    inputs = inputs;
    outputs = outputs;
  }

  -- If an endorsement does not depend on the scripts of the inputs, then the loop gives every
  -- input a script of an endorsement and the public key, where the endorsement is the one of the
  -- signed transaction at that input's index; points, sequence numbers and outputs stay as they
  -- were.
  pub sign_inputs-signed_inputs :
      (utxos : List OutputPoint) (outputs : List Output)
      → let tx = sign_inputs lib key utxos (unsigned_tx utxos outputs) in
        (tx.inputs ≡ signed_inputs lib key tx 0 utxos) × (blank tx ≡ unsigned_tx utxos outputs)
  unfolding sign_inputs
  sign_inputs-signed_inputs utxos outputs =
      let start = unsigned_tx utxos outputs in
      let tx = sign_inputs lib key utxos start in
      let once : tx ≡ with_inputs outputs (signed_inputs lib key start 0 utxos) =
        sign_from-partly [] utxos outputs start refl in
      let blanked : blank tx ≡ start =
        ap blank once ∙ ap (with_inputs outputs) (map-blank_signed start 0 utxos) in
      let again =
        sign_from-partly [] utxos outputs tx
          (ap (with_inputs outputs) (map-blank_unsigned utxos) ∙ sym blanked) in
      (ap (λ t. t.inputs) again, blanked)
