-- ===== src/History/Rows.antt =====
-- The running balance of the history's rows.
use mathlib.Core.Option
use binglib.Base.{ℕ, zero, suc, ◌+◌, ◌%◌, ◌≡◌, refl, List, [], ◌∷◌, arith, get_elem?, drop}
use binglib.Base.Word.{u64_mod}
use binglib.WalletState.{HistoryViewRow}
use binglib.History.{accumulate, with_balances}

abbrev pub sum_deltas : List HistoryViewRow → ℕ
sum_deltas [] = 0
sum_deltas (row ∷ rows) = row.balance_delta + sum_deltas rows

abbrev pub with_balance : ℕ → HistoryViewRow → HistoryViewRow
with_balance balance row = record row { balance = balance }

accumulate-sum : (rows : List HistoryViewRow) → (accumulate rows).1 ≡ sum_deltas rows % u64_mod
unfolding accumulate
accumulate-sum [] = omega arith
accumulate-sum (row ∷ rows) = omega (arith, accumulate-sum rows)

accumulate-rows :
    (rows : List HistoryViewRow) (k : ℕ)
    → get_elem? (accumulate rows).0 k
      ≡ Option.map (with_balance (sum_deltas (drop k rows) % u64_mod)) (get_elem? rows k)
unfolding accumulate
accumulate-rows [] k = refl
accumulate-rows (row ∷ rows) zero = ground (arith, accumulate-sum rows)
accumulate-rows (row ∷ rows) (suc k) = accumulate-rows rows k

-- The rows come newest first. Row k keeps all else and gets as its balance the sum of the deltas of
-- itself and all older rows, in 64-bit arithmetic; there are no other rows.
pub get_elem?-with_balances :
    (rows : List HistoryViewRow) (k : ℕ)
    → get_elem? (with_balances rows) k
      ≡ Option.map (with_balance (sum_deltas (drop k rows) % u64_mod)) (get_elem? rows k)
unfolding with_balances
get_elem?-with_balances rows k = accumulate-rows rows k

-- The balance of the newest row.
abbrev pub newest : List HistoryViewRow → ℕ
newest [] = 0
newest (row ∷ rows) = row.balance

pub newest-with_balances :
    (rows : List HistoryViewRow) → newest (with_balances rows) ≡ sum_deltas rows % u64_mod
unfolding with_balances accumulate
newest-with_balances [] = omega arith
newest-with_balances (row ∷ rows) = omega (arith, accumulate-sum rows)
