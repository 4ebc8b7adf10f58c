-- ===== src/UnlockTx/Tests.antt =====
-- A lock and its unlocking.
use binglib.Base.{◌≡◌, refl, List, [], ◌∷◌}
use binglib.Base.Text.{decimal}
use binglib.Bitcoin.{OutputPoint, Output}
use binglib.Sample.{sample_lib, key, point}
use binglib.Funds.{point_of}
use binglib.Tx.{sign_inputs, sign_from}
use binglib.LockTx.{lock_tx}
use binglib.UnlockTx.Correct.{locking, unlocking, unlocking_input, lock_script, unlock_tx-lock_tx}

abbrev paid : List OutputPoint
paid = point_of (point 1 30) ∷ []

unlock_tx-lock_tx_example :
    (output0 : Output) × (others : List Output) × ((locking sample_lib key 700 decimal "src" 20 5
        paid 30 19 "dst").outputs
      ≡ output0 ∷ others)
    × (output0.script
        ≡ sample_lib.pay_script_hash_pattern (
            sample_lib.bitcoin_short_hash (
              sample_lib.script_to_data
                (lock_script sample_lib key 700 decimal "src" 20 5 paid 30 19 "dst"))))
    × ((unlocking sample_lib key 700 decimal "src" 20 5 paid 30 19 "dst").inputs
        ≡ unlocking_input sample_lib key 700 decimal "src" 20 5 paid 30 19 "dst" (
            sample_lib.script_to_data
              (lock_script sample_lib key 700 decimal "src" 20 5 paid 30 19 "dst"))
          ∷ [])
    × ((unlocking sample_lib key 700 decimal "src" 20 5 paid 30 19 "dst").locktime ≡ 700)
unfolding lock_tx sign_inputs sign_from
unlock_tx-lock_tx_example =
    unlock_tx-lock_tx sample_lib key 700 decimal "src" 20 5 paid 30 19 "dst" refl
      (λ secret script tx i. refl)
