-- ===== src/P2pkhTx/Correct.antt =====
-- What the transaction spends and pays, and when there is none.
use binglib.Base.{ℕ, ◌+◌, ◌≤◌, ◌<◌, ◌≡◌, refl, ap, ◌∙◌, String, true, false, List, map, arith, null}
use binglib.Base.Word.{u64_mod, add64}
use binglib.Base.Effect.{ok, err, insufficient_funds}
use binglib.Bitcoin.{Libbitcoin, EcPrivate, OutputPoint, PointValue}
use binglib.Libb.{ObeliskClient, replied}
use binglib.Funds.{point_of, find_funds}
use binglib.Funds.Points.{
  IsShortestRun, total_value, find_funds_enough, find_funds_short, null-run, total_value-append,
}
use binglib.Tx.{outputs_with_refund}
use binglib.Tx.Outputs.{sum_outputs, sum_outputs_with_refund, sum_outputs_overflow}
use binglib.Tx.Signing.{spent, sign_inputs-spent}
use binglib.P2pkhTx.{
  is_bad_target, insufficient_message, needed, transfer_tx, do_construct, construct,
}

module _ (lib : Libbitcoin) (src_addr : String) (key : EcPrivate) (amount fee : ℕ)
    (target_addr : String) {W : Type 0} (client : ObeliskClient W) (w w' : W)
    (points : List PointValue) (valid : (lib.payment_address_of src_addr).is_valid ≡ true)
    (answer : client.blockchain_fetch_unspent_outputs
        (lib.payment_address_of src_addr)
        1
        lib.select_individual
        w
      ≡ (ok (replied points), w'))
    (sums : lib.points_total points ≡ total_value points) (fits : total_value points < u64_mod)
    (no_overflow : amount + fee < u64_mod) where
  fee_total : add64 amount fee ≡ amount + fee
  fee_total = omega arith

  construct-do_construct : construct lib src_addr key amount fee target_addr client w ≡ (
    do_construct lib src_addr key amount fee target_addr
        (find_funds lib (needed lib src_addr key amount fee target_addr) points),
    w',
  )
  unfolding construct
  construct-do_construct = ground arith

  -- The code returns the text of a transaction that spends the run, and whose outputs and fee are
  -- together what the run is worth.
  abbrev pub Transfers : List PointValue → Type 0
  Transfers run =
      (construct lib src_addr key amount fee target_addr client w ≡ (
        ok (
            lib.encode_base16 (
              lib.tx_to_data (
                transfer_tx lib src_addr key amount fee target_addr (map point_of run)
                  (total_value run)))),
        w',
      ))
      × (spent (
            transfer_tx lib src_addr key amount fee target_addr (map point_of run)
              (total_value run))
          ≡ map point_of run)
      × (sum_outputs
              (transfer_tx lib src_addr key amount fee target_addr (map point_of run)
                (total_value run)).outputs
            + fee
          ≡ total_value run)

  -- The run is the one that find_funds returns.
  pub construct-find_funds :
      is_bad_target lib (lib.payment_address_of target_addr) ≡ false
      → 0 < amount + fee
      → amount + fee ≤ total_value points
      → (run : List PointValue) × IsShortestRun (amount + fee) points run
        × (find_funds lib (amount + fee) points ≡ (map point_of run, total_value run))
        × Transfers run
  unfolding do_construct transfer_tx
  construct-find_funds good positive enough =
      let (run, shortest, found) = find_funds_enough lib (amount + fee) points sums fits enough in
      let source = lib.payment_address_of src_addr in
      let target = lib.pay_key_hash_pattern (lib.payment_address_of target_addr).hash in
      let outputs =
        outputs_with_refund lib (total_value run) (add64 amount fee) amount target source in
      let signed = sign_inputs-spent lib key (map point_of run) outputs in
      (
        run,
        shortest,
        found,
        (
          construct-do_construct
              ∙ rw (fee_total, found, null-run shortest positive, good, valid) refl,
          signed.0,
          rw signed.1 (
              sum_outputs_with_refund lib (total_value run) amount fee target source shortest.covers
                (omega
                  (arith, ap total_value shortest.split, total_value-append run shortest.rest))),
        ),
      )

  -- If the source is valid, the server lists points whose total by libbitcoin is
  -- the sum of their values and below 2 ^ 64,
  -- amount and fee do not overflow and are above 0, the points suffice for them and the target is
  -- good, then the result is the text of a transaction that spends the shortest run of points
  -- that suffices, and whose outputs and fee are together what those points are worth.
  pub construct_spends :
      is_bad_target lib (lib.payment_address_of target_addr) ≡ false
      → 0 < amount + fee
      → amount + fee ≤ total_value points
      → (run : List PointValue) × IsShortestRun (amount + fee) points run
        × (construct lib src_addr key amount fee target_addr client w ≡ (
          ok (
              lib.encode_base16 (
                lib.tx_to_data (
                  transfer_tx lib src_addr key amount fee target_addr
                    (map point_of run)
                    (total_value run)))),
          w',
        ))
        × (spent (
              transfer_tx lib src_addr key amount fee target_addr
                (map point_of run)
                (total_value run))
            ≡ map point_of run)
        × (sum_outputs
                (transfer_tx lib src_addr key amount fee target_addr
                  (map point_of run)
                  (total_value run)).outputs
              + fee
            ≡ total_value run)
  construct_spends good positive enough =
      let (run, shortest, found, (text, points_spent, paid)) =
        construct-find_funds good positive enough in
      (run, shortest, text, points_spent, paid)

  -- If the source is valid, the server lists points whose total by libbitcoin is
  -- the sum of their values and below 2 ^ 64,
  -- amount and fee do not overflow, and the points do not suffice for them, then they are refused
  -- with what is needed and what is available.
  pub construct_short :
      total_value points < amount + fee
      → construct lib src_addr key amount fee target_addr client w ≡ (
        err (
            insufficient_funds
              (insufficient_message (amount + fee) (total_value points))
              (amount + fee)
              (total_value points)),
        w',
      )
  unfolding do_construct
  construct_short short =
      construct-do_construct
      ∙ rw (fee_total, find_funds_short lib (amount + fee) points sums fits short) refl

-- Amount and fee are added with no check: if their sum overflows, the rest of it is covered by
-- the outputs chosen, of which there is one at least, and source and target are good, then the
-- result is the text of a transaction whose outputs and fee are 2 ^ 64 above what it spends.
pub do_construct_overflow :
    (lib : Libbitcoin) (src_addr : String) (key : EcPrivate) (amount fee : ℕ) (target_addr : String)
    (utxos : List OutputPoint) (available : ℕ)
    → null utxos ≡ false
    → is_bad_target lib (lib.payment_address_of target_addr) ≡ false
    → (lib.payment_address_of src_addr).is_valid ≡ true
    → amount < u64_mod
    → fee < u64_mod
    → u64_mod ≤ amount + fee
    → amount + fee ≤ available + u64_mod
    → available < u64_mod
    → (do_construct lib src_addr key amount fee target_addr (utxos, available)
        ≡ ok (
            lib.encode_base16 (
              lib.tx_to_data
                (transfer_tx lib src_addr key amount fee target_addr utxos available))))
      × (sum_outputs (transfer_tx lib src_addr key amount fee target_addr utxos available).outputs
            + fee
          ≡ available + u64_mod)
unfolding do_construct transfer_tx
do_construct_overflow lib src_addr key amount fee target_addr utxos available some_points good valid
      ha hf over enough fits =
    let source = lib.payment_address_of src_addr in
    let target = lib.pay_key_hash_pattern (lib.payment_address_of target_addr).hash in
    let outputs = outputs_with_refund lib available (add64 amount fee) amount target source in
    (
      rw (some_points, good, valid) refl,
      rw ((sign_inputs-spent lib key utxos outputs).1)
          (sum_outputs_overflow lib available amount fee target source ha hf over enough fits),
    )
