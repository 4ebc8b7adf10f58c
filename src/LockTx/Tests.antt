-- ===== src/LockTx/Tests.antt =====
-- A lock at a concrete server.
use binglib.Base.{◌+◌, ◌≡◌, refl, List, ◌∷◌, map, arith}
use binglib.Base.Text.{decimal}
use binglib.Base.Effect.{ok}
use binglib.Bitcoin.{PointValue, Output}
use binglib.Sample.{sample_lib, key, three_points, obelisk}
use binglib.Funds.{point_of}
use binglib.Funds.Points.{IsShortestRun, total_value}
use binglib.Tx.Outputs.{sum_outputs}
use binglib.Tx.Signing.{spent}
use binglib.LockTx.{lock_tx, locking_script, construct}
use binglib.LockTx.Correct.{info_of, construct_locks}

construct_locks_example :
    (run : List PointValue) × (change : List Output) × IsShortestRun 25 three_points run
    × (construct sample_lib decimal "src" key 20 5 700 obelisk 0 ≡ (
      ok (
          info_of sample_lib decimal "src" key 20 5 700
            (lock_tx sample_lib decimal "src" key 20 5 700 (map point_of run) (total_value run))),
      1,
    ))
    × (spent (lock_tx sample_lib decimal "src" key 20 5 700 (map point_of run) (total_value run))
        ≡ map point_of run)
    × ((lock_tx sample_lib decimal "src" key 20 5 700 (map point_of run) (total_value run)).outputs
        ≡ record { value = 20; script = locking_script sample_lib decimal "src" key 20 5 700 }
          ∷ change)
    × (20 + sum_outputs change + 5 ≡ total_value run)
construct_locks_example =
    construct_locks sample_lib decimal "src" key 20 5 700 obelisk 0 1 three_points refl refl refl
      (omega arith) (omega arith) refl (omega arith) (omega arith)
