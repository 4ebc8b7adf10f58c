-- ===== src/Funds/Utxos.antt =====
-- The second overload of FundsFinder::find_funds, over the outputs that an Electrum server lists.
use mathlib.Core.List.{append-nil, append_assoc}
use binglib.Base.{ℕ, ◌+◌, ◌<◌, ◌≡◌, List, [], ◌∷◌, ◌++◌, map, arith, ltb, leb, if◌then◌else◌}
use binglib.Base.Word.{u64_mod}
use binglib.Bitcoin.{Libbitcoin, OutputPoint}
use binglib.Electrum.{Utxo}
use binglib.Funds.{utxo_point, gather_utxos, find_funds_utxos}

abbrev pub sum_utxos : List Utxo → ℕ
sum_utxos [] = 0
sum_utxos (u ∷ us) = u.value + sum_utxos us

-- The outputs that hold anything, in their order.
abbrev pub nonzero : List Utxo → List Utxo
nonzero [] = []
nonzero (u ∷ us) = if ltb 0 u.value then u ∷ nonzero us else nonzero us

gather_utxos-nonzero :
    (lib : Libbitcoin) (us : List Utxo) (utxos : List OutputPoint) (have : ℕ)
    → have + sum_utxos us < u64_mod
    → gather_utxos lib us (utxos, have)
      ≡ (utxos ++ map (utxo_point lib) (nonzero us), have + sum_utxos us)
unfolding gather_utxos
gather_utxos-nonzero lib [] utxos have h = ground (arith, append-nil utxos)
gather_utxos-nonzero lib (u ∷ us) utxos have h = ground (
  arith,
  append_assoc utxos (utxo_point lib u ∷ []) (map (utxo_point lib) (nonzero us)),
  gather_utxos-nonzero lib us (utxos ++ utxo_point lib u ∷ []) (have + u.value),
  gather_utxos-nonzero lib us utxos have,
)

-- If the values of the listed outputs sum up to less than 2 ^ 64, then the funds reported are that
-- sum; every output with a value is taken, in the server's order and no other, if the sum
-- reaches `needed`, and none is taken if it does not.
pub find_funds_utxos_lem :
    (lib : Libbitcoin) (needed : ℕ) (us : List Utxo)
    → sum_utxos us < u64_mod
    → find_funds_utxos lib needed us
      ≡ (if leb needed (sum_utxos us) then map (utxo_point lib) (nonzero us) else [], sum_utxos us)
unfolding find_funds_utxos
find_funds_utxos_lem lib needed us h = ground (arith, gather_utxos-nonzero lib us [] 0)
