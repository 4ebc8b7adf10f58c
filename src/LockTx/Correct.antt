-- ===== src/LockTx/Correct.antt =====
-- What the transaction spends and pays, and when there is none.
use binglib.Base.{ℕ, ◌+◌, ◌≤◌, ◌<◌, ◌≡◌, refl, ap, ◌∙◌, String, true, List, ◌∷◌, map, arith}
use binglib.Base.Word.{u64_mod, add64}
use binglib.Base.Effect.{ok}
use binglib.Bitcoin.{Libbitcoin, EcPrivate, Output, Transaction, PointValue}
use binglib.Libb.{ObeliskClient, replied}
use binglib.Funds.{point_of, find_funds}
use binglib.Funds.Points.{
  IsShortestRun, total_value, find_funds_enough, null-run, total_value-append,
}
use binglib.Tx.{outputs_with_refund, refund_outputs}
use binglib.Tx.Outputs.{sum_outputs, sum_outputs_with_refund}
use binglib.Tx.Signing.{spent, sign_inputs-spent}
use binglib.LockTx.{
  LockTxInfo, needed, lock_tx, cltv_script, locking_script, unlocking_text, do_construct, construct,
}

module _ (lib : Libbitcoin) (local_time : ℕ → String) (src_addr : String) (key : EcPrivate)
    (amount fee lock_until : ℕ) where
  -- What the caller gets for a transaction.
  abbrev pub info_of : Transaction → LockTxInfo
  info_of tx = record {
    locking_tx = lib.encode_base16 (lib.tx_to_data tx);
    unlocking_info =
        unlocking_text lib local_time src_addr key amount fee lock_until
          (lib.encode_hash (lib.tx_hash tx));
  }

module _ (lib : Libbitcoin) (local_time : ℕ → String) (src_addr : String) (key : EcPrivate)
    (amount fee lock_until : ℕ) {W : Type 0} (client : ObeliskClient W) (w w' : W)
    (points : List PointValue) (valid : (lib.payment_address_of src_addr).is_valid ≡ true)
    (answer : client.blockchain_fetch_unspent_outputs
        (lib.payment_address_of src_addr)
        1
        lib.select_individual
        w
      ≡ (ok (replied points), w'))
    (sums : lib.points_total points ≡ total_value points) (fits : total_value points < u64_mod)
    (no_overflow : amount + fee < u64_mod) where
  fee_total : add64 amount fee ≡ amount + fee
  fee_total = omega arith

  construct-do_construct : construct lib local_time src_addr key amount fee lock_until client w ≡ (
    do_construct lib local_time src_addr key amount fee lock_until
        (find_funds lib (needed lib local_time src_addr key amount fee lock_until) points),
    w',
  )
  unfolding construct
  construct-do_construct = ground arith

  -- If the source is valid, the server lists points whose total by libbitcoin is
  -- the sum of their values and below 2 ^ 64,
  -- amount and fee do not overflow and are above 0, the points suffice for them and libbitcoin
  -- takes the lock script for valid, then the result is the text of a transaction that spends the
  -- shortest run of points that suffices, whose first output pays the amount to the lock script's
  -- hash, and whose outputs and fee are together what those points are worth.
  pub construct_locks :
      lib.script_is_valid (cltv_script lib local_time src_addr key amount fee lock_until) ≡ true
      → 0 < amount + fee
      → amount + fee ≤ total_value points
      → (run : List PointValue) × (change : List Output) × IsShortestRun (amount + fee) points run
        × (construct lib local_time src_addr key amount fee lock_until client w ≡ (
          ok (
              info_of lib local_time src_addr key amount fee lock_until (
                lock_tx lib local_time src_addr key amount fee lock_until
                  (map point_of run)
                  (total_value run))),
          w',
        ))
        × (spent (
              lock_tx lib local_time src_addr key amount fee lock_until
                (map point_of run)
                (total_value run))
            ≡ map point_of run)
        × ((lock_tx lib local_time src_addr key amount fee lock_until
              (map point_of run)
              (total_value run)).outputs
            ≡ record {
              value = amount;
              script = locking_script lib local_time src_addr key amount fee lock_until;
            }
              ∷ change)
        × (amount + sum_outputs change + fee ≡ total_value run)
  unfolding do_construct lock_tx
  construct_locks good positive enough =
      let (run, shortest, found) = find_funds_enough lib (amount + fee) points sums fits enough in
      let source = lib.payment_address_of src_addr in
      let target = locking_script lib local_time src_addr key amount fee lock_until in
      let outputs =
        outputs_with_refund lib (total_value run) (add64 amount fee) amount target source in
      let signed = sign_inputs-spent lib key (map point_of run) outputs in
      (
        run,
        refund_outputs lib (total_value run) (add64 amount fee) source,
        shortest,
        construct-do_construct
            ∙ rw (fee_total, found, null-run shortest positive, good, valid) refl,
        signed.0,
        signed.1,
        sum_outputs_with_refund lib (total_value run) amount fee target source shortest.covers
            (omega (arith, ap total_value shortest.split, total_value-append run shortest.rest)),
      )
