-- ===== src/Funds.antt =====
-- src/libbfunds/funds_finder.cpp: which unspent outputs of an address pay for a transfer.
pub mod Points
pub mod Utxos
mod Tests
use binglib.Base.{ℕ, Bool, List, [], ◌∷◌, ◌++◌, ltb, if◌then◌else◌}
use binglib.Base.Word.{add64}
use binglib.Bitcoin.{Libbitcoin, OutputPoint, PointValue}
use binglib.Electrum.{Utxo}

-- The gathered outputs and their total.
abbrev pub Gathered : Type 0
Gathered = List OutputPoint × ℕ

-- Both overloads end so: too little gathers nothing, and reports what is available.
abbrev pub found : ℕ → Gathered → Gathered
found needed (utxos, gathered) = if ltb gathered needed then ([], gathered) else (utxos, gathered)

abbrev pub point_of : PointValue → OutputPoint
point_of p = record { hash = p.hash; index = p.index }

-- The loop of the first overload. `positive` is its test `points.value() > 0`, which is about the
-- whole of the points and not about the point at hand.
pub gather_points : Bool → ℕ → List PointValue → Gathered → Gathered
gather_points positive needed [] acc = acc
gather_points positive needed (p ∷ ps) (utxos, gathered) =
    let rest = gather_points positive needed ps (
      if positive then (utxos ++ point_of p ∷ [], add64 gathered p.value) else (utxos, gathered)) in
    if ltb gathered needed then rest else (utxos, gathered)

unfoldable pub find_funds : Libbitcoin → ℕ → List PointValue → Gathered
unfolding gather_points
find_funds lib needed points =
    found needed (gather_points (ltb 0 (lib.points_total points)) needed points ([], 0))

abbrev pub utxo_point : Libbitcoin → Utxo → OutputPoint
utxo_point lib u = record { hash = lib.decode_hash u.tx_id; index = u.tx_pos }

-- The loop of the second overload, which never stops early.
pub gather_utxos : Libbitcoin → List Utxo → Gathered → Gathered
gather_utxos lib [] acc = acc
gather_utxos lib (u ∷ us) (utxos, gathered) = gather_utxos lib us (
    if ltb 0 u.value
    then (utxos ++ utxo_point lib u ∷ [], add64 gathered u.value)
    else (utxos, gathered))

unfoldable pub find_funds_utxos : Libbitcoin → ℕ → List Utxo → Gathered
unfolding gather_utxos
find_funds_utxos lib needed input_utxos = found needed (gather_utxos lib input_utxos ([], 0))
