-- ===== src/P2pkhTx/Tests.antt =====
-- A transfer at a concrete server.
use binglib.Base.{◌+◌, ◌-◌, ◌≡◌, refl, List, [], ◌∷◌, map, arith}
use binglib.Base.Word.{u64_mod}
use binglib.Base.Effect.{ok}
use binglib.Bitcoin.{PointValue, OutputPoint}
use binglib.Sample.{sample_lib, key, point, three_points, obelisk}
use binglib.Funds.{point_of}
use binglib.Funds.Points.{IsShortestRun, total_value}
use binglib.Tx.Outputs.{sum_outputs}
use binglib.Tx.Signing.{spent}
use binglib.P2pkhTx.{transfer_tx, do_construct, construct}
use binglib.P2pkhTx.Correct.{construct_spends, do_construct_overflow}

construct_spends_example :
    (run : List PointValue) × IsShortestRun 25 three_points run
    × (construct sample_lib "src" key 20 5 "dst" obelisk 0 ≡ (
      ok (
          sample_lib.encode_base16 (
            sample_lib.tx_to_data
              (transfer_tx sample_lib "src" key 20 5 "dst" (map point_of run) (total_value run)))),
      1,
    ))
    × (spent (transfer_tx sample_lib "src" key 20 5 "dst" (map point_of run) (total_value run))
        ≡ map point_of run)
    × (sum_outputs
            (transfer_tx sample_lib "src" key 20 5 "dst"
              (map point_of run)
              (total_value run)).outputs
          + 5
        ≡ total_value run)
construct_spends_example =
    construct_spends sample_lib "src" key 20 5 "dst" obelisk 0 1 three_points refl refl refl
      (omega arith) (omega arith) refl (omega arith) (omega arith)

abbrev one_point : List OutputPoint
one_point = point_of (point 1 30) ∷ []

do_construct_overflow_example :
    (do_construct sample_lib "src" key (u64_mod - 1) 6 "dst" (one_point, 30)
      ≡ ok (
          sample_lib.encode_base16 (
            sample_lib.tx_to_data
              (transfer_tx sample_lib "src" key (u64_mod - 1) 6 "dst" one_point 30))))
    × (sum_outputs (transfer_tx sample_lib "src" key (u64_mod - 1) 6 "dst" one_point 30).outputs + 6
        ≡ 30 + u64_mod)
do_construct_overflow_example =
    do_construct_overflow sample_lib "src" key (u64_mod - 1) 6 "dst" one_point 30 refl refl refl
      (omega arith) (omega arith) (omega arith) (omega arith) (omega arith)
