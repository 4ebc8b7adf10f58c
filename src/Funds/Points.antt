-- ===== src/Funds/Points.antt =====
-- The first overload of FundsFinder::find_funds, over the points of a libbitcoin server.
use mathlib.Core.List.{append-nil, append_assoc}
use binglib.Base.{
  ℕ, ◌+◌, ◌≤◌, ◌<◌, ◌≡◌, refl, inl, inr, true, false, List, [], ◌∷◌, ◌++◌, map, arith, ltb,
  Bool-cases, null, zero, suc, length, take, if◌then◌else◌,
}
use binglib.Base.Word.{u64_mod}
use binglib.Bitcoin.{Libbitcoin, PointValue, OutputPoint}
use binglib.Funds.{Gathered, point_of, gather_points, find_funds}

abbrev pub total_value : List PointValue → ℕ
total_value [] = 0
total_value (p ∷ ps) = p.value + total_value ps

-- The shortest run of points from the front whose values reach `needed`; all of them if none does.
abbrev pub shortest : ℕ → ℕ → List PointValue → List PointValue
shortest needed have [] = []
shortest needed have (p ∷ ps) =
    if ltb have needed then p ∷ shortest needed (have + p.value) ps else []

gather_points-shortest :
    (needed : ℕ) (ps : List PointValue) (utxos : List OutputPoint) (have : ℕ)
    → have + total_value ps < u64_mod
    → gather_points true needed ps (utxos, have) ≡ (
      utxos ++ map point_of (shortest needed have ps),
      have + total_value (shortest needed have ps),
    )
unfolding gather_points
gather_points-shortest needed [] utxos have h = ground (arith, append-nil utxos)
gather_points-shortest needed (p ∷ ps) utxos have h = ground (
  arith,
  append_assoc utxos (point_of p ∷ []) (map point_of (shortest needed (have + p.value) ps)),
  append-nil utxos,
  gather_points-shortest needed ps (utxos ++ point_of p ∷ []) (have + p.value),
)

-- `run` stands at the front of the points, reaches `needed`, and no shorter run from the front
-- does.
pub record IsShortestRun (needed : ℕ) (points run : List PointValue) : Type 0 where
  pub rest : List PointValue
  pub split : points ≡ run ++ rest
  pub covers : needed ≤ total_value run
  pub minimal : (k : ℕ) → k < length run → total_value (take k run) < needed

module _ (needed : ℕ) where
  shortest_rest : ℕ → List PointValue → List PointValue
  shortest_rest have [] = []
  shortest_rest have (p ∷ ps) =
      if ltb have needed then shortest_rest (have + p.value) ps else p ∷ ps

  shortest-split :
      (have : ℕ) (ps : List PointValue) → ps ≡ shortest needed have ps ++ shortest_rest have ps
  unfolding shortest_rest
  shortest-split have [] = refl
  shortest-split have (p ∷ ps) = ground (arith, shortest-split (have + p.value) ps)

  shortest-covers :
      (have : ℕ) (ps : List PointValue)
      → needed ≤ have + total_value ps
      → needed ≤ have + total_value (shortest needed have ps)
  shortest-covers have [] h = h
  shortest-covers have (p ∷ ps) h = ground (arith, shortest-covers (have + p.value) ps)

  shortest-minimal :
      (have : ℕ) (ps : List PointValue) (k : ℕ)
      → k < length (shortest needed have ps)
      → have + total_value (take k (shortest needed have ps)) < needed
  shortest-minimal have [] k h = elim h [ ]
  shortest-minimal have (p ∷ ps) zero h = ground arith
  shortest-minimal have (p ∷ ps) (suc k) h = ground (arith, shortest-minimal (have + p.value) ps k)

  shortest-all :
      (have : ℕ) (ps : List PointValue)
      → have + total_value ps < needed
      → shortest needed have ps ≡ ps
  shortest-all have [] h = refl
  shortest-all have (p ∷ ps) h = ground (arith, shortest-all (have + p.value) ps)

  shortest-reached :
      (have : ℕ) (ps : List PointValue) → needed ≤ have → shortest needed have ps ≡ []
  shortest-reached have [] h = refl
  shortest-reached have (p ∷ ps) h = ground arith

-- With no value at all nothing is gathered.
gather_points-none :
    (needed : ℕ) (ps : List PointValue) (acc : Gathered) → gather_points false needed ps acc ≡ acc
unfolding gather_points
gather_points-none needed [] acc = refl
gather_points-none needed (p ∷ ps) acc = ground (arith, gather_points-none needed ps acc)

module _ (lib : Libbitcoin) (needed : ℕ) (points : List PointValue)
    (sums : lib.points_total points ≡ total_value points)
    (fits : total_value points < u64_mod) where
  find_funds-shortest :
      needed ≤ total_value points
      → find_funds lib needed points
        ≡ (map point_of (shortest needed 0 points), total_value (shortest needed 0 points))
  unfolding find_funds
  find_funds-shortest enough = elim (Bool-cases (ltb 0 (lib.points_total points))) [
    | inl positive ↦
        rw positive (
          ground
            (arith, gather_points-shortest needed points [] 0, shortest-covers needed 0 points))
    | inr nothing ↦
        rw nothing (
          ground
            (arith, gather_points-none needed points ([], 0), shortest-reached needed 0 points))
  ]

  -- If libbitcoin's total of the points is the sum of their values, the sum does not overflow and
  -- it reaches `needed`, then the shortest run of points from the front that reaches `needed` is
  -- taken, and the funds reported are the sum of its values.
  pub find_funds_enough :
      needed ≤ total_value points
      → (run : List PointValue) × IsShortestRun needed points run
        × (find_funds lib needed points ≡ (map point_of run, total_value run))
  find_funds_enough enough = (
    shortest needed 0 points,
    record {
      rest = shortest_rest needed 0 points;
      split = shortest-split needed 0 points;
      covers = ground (arith, shortest-covers needed 0 points);
      minimal = λ k h. ground (arith, shortest-minimal needed 0 points k);
    },
    find_funds-shortest enough,
  )

  -- If libbitcoin's total of the points is the sum of their values, the sum does not overflow and
  -- it stays below `needed`, then no point is taken, and the funds reported are all that there
  -- is.
  pub find_funds_short :
      total_value points < needed → find_funds lib needed points ≡ ([], total_value points)
  unfolding find_funds
  find_funds_short short = elim (Bool-cases (ltb 0 (lib.points_total points))) [
    | inl positive ↦
        rw positive
          (ground (arith, gather_points-shortest needed points [] 0, shortest-all needed 0 points))
    | inr zero_total ↦ rw zero_total (ground (arith, gather_points-none needed points ([], 0)))
  ]

-- A run that reaches an amount above 0 is not empty.
pub null-run :
    {needed : ℕ} {points run : List PointValue}
    → IsShortestRun needed points run
    → 0 < needed
    → null (map point_of run) ≡ false
null-run {run = []} shortest positive = absurd (omega (arith, shortest.covers))
null-run {run = p ∷ run} shortest positive = refl

pub total_value-append :
    (xs ys : List PointValue) → total_value (xs ++ ys) ≡ total_value xs + total_value ys
total_value-append [] ys = omega arith
total_value-append (p ∷ xs) ys = omega (arith, total_value-append xs ys)

-- The test of the loop is on the total, so if libbitcoin's total of the points is the sum of
-- their values, the sum does not overflow and the points suffice for an amount above 0, then a
-- first point of value 0 is taken along.
pub find_funds_takes_zero :
    (lib : Libbitcoin) (needed : ℕ) (p : PointValue) (ps : List PointValue)
    → lib.points_total (p ∷ ps) ≡ total_value (p ∷ ps)
    → total_value (p ∷ ps) < u64_mod
    → p.value ≡ 0
    → 0 < needed
    → needed ≤ total_value (p ∷ ps)
    → (more : List OutputPoint) × ((find_funds lib needed (p ∷ ps)).0 ≡ point_of p ∷ more)
find_funds_takes_zero lib needed p ps sums fits empty some_needed enough = (
  map point_of (shortest needed p.value ps),
  rw (find_funds-shortest lib needed (p ∷ ps) sums fits enough) (ground arith),
)
