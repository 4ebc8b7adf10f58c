-- ===== src/Funds/Tests.antt =====
-- The coin selections at concrete inputs.
use binglib.Base.{◌≡◌, refl, List, [], ◌∷◌, arith, map}
use binglib.Bitcoin.{PointValue}
use binglib.Sample.{sample_lib, three_points, point, two_utxos}
use binglib.Funds.{find_funds, find_funds_utxos, point_of}
use binglib.Funds.Points.{IsShortestRun, total_value, find_funds_enough}
use binglib.Funds.Utxos.{find_funds_utxos_lem}

-- The point of value 0 is taken along.
find_funds_run :
    find_funds sample_lib 20 three_points ≡ (point_of (point 0 0) ∷ point_of (point 1 30) ∷ [], 30)
unfolding find_funds
find_funds_run = refl

find_funds_enough_example :
    (run : List PointValue) × IsShortestRun 20 three_points run
    × (find_funds sample_lib 20 three_points ≡ (map point_of run, total_value run))
find_funds_enough_example =
    find_funds_enough sample_lib 20 three_points refl (omega arith) (omega arith)

find_funds_utxos_lem_example :
    find_funds_utxos sample_lib 15 two_utxos ≡ (record { hash = 2 ∷ []; index = 1 } ∷ [], 40)
find_funds_utxos_lem_example = find_funds_utxos_lem sample_lib 15 two_utxos (omega arith)
