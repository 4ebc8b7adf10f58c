-- ===== src/History/Tests.antt =====
-- A wallet that is paid and pays on.
use mathlib.Core.Option
use binglib.Base.{
  ℕ, ◌+◌, ◌-◌, ◌%◌, ◌≡◌, refl, inl, inr, String, Bool, true, false, List, [], ◌∷◌, arith, drop,
  get_elem?,
}
use binglib.Base.Int.{pos, ◌-ℤ◌}
use binglib.Base.Word.{u64_mod, signed64}
use binglib.Sample.{sample_lib}
use binglib.WalletState.{HistoryViewRow}
use binglib.History.{
  TxBalance, TxBalanceInput, TxBalanceOutput, calc_address_balance, impact_of, with_balances,
}
use binglib.History.Balance.{calc_address_balance-unspent, unspent}
use binglib.History.Impact.{impact_of-delta, impact_of-incoming}
use binglib.History.Rows.{get_elem?-with_balances, with_balance, sum_deltas}

abbrev output : String → ℕ → Bool → TxBalanceOutput
output address value in_wallet = record {
  address = address;
  script_kind = pos 3;
  value = value;
  in_wallet = in_wallet;
}

abbrev input : String → ℕ → ℕ → Bool → TxBalanceInput
input tx idx value in_wallet = record {
  funding_tx = tx;
  funding_idx = idx;
  value = value;
  in_wallet = in_wallet;
  address = "src";
}

-- "src" gets 50 by "1", of which "2" pays 30 on and 15 back; 5 is the fee.
abbrev paid_in : TxBalance
paid_in = record {
  tx_id = "1";
  inputs = input "0" 3 60 false ∷ [];
  outputs = output "src" 50 true ∷ [];
}

abbrev paid_on : TxBalance
paid_on = record {
  tx_id = "2";
  inputs = input "1" 0 50 true ∷ [];
  outputs = output "dst" 30 false ∷ output "src" 15 true ∷ [];
}

abbrev both_items : List TxBalance
both_items = paid_in ∷ paid_on ∷ []

calc_address_balance-unspent_example :
    calc_address_balance "src" both_items ≡ unspent "src" both_items
calc_address_balance-unspent_example =
    calc_address_balance-unspent "src" both_items
      (
        (omega arith, inr (input "1" 0 50 true, refl, refl), tt),
        ((omega arith, inl refl, (omega arith, inl refl, tt)), tt),
      )
      (omega arith)

unspent_run : unspent "src" both_items ≡ 15
unspent_run = refl

impact_of-delta_example :
    signed64 (impact_of sample_lib (paid_on ∷ [])).balance_delta ≡ pos 15 -ℤ pos 50
impact_of-delta_example = impact_of-delta sample_lib paid_on (omega arith) (omega arith)

impact_of-incoming_example :
    (impact_of sample_lib (paid_in ∷ [])).funding_amount + 50 + (60 - 50) ≡ u64_mod
impact_of-incoming_example =
    impact_of-incoming sample_lib paid_in (omega arith) (omega arith) refl (omega arith)
      (omega arith)

abbrev row : ℕ → HistoryViewRow
row delta = record {
  timestamp = 0;
  height = pos 7;
  balance_delta = delta;
  tx_id = "1";
  balance = 0;
  is_p2sh = false;
  funding_amount = 0;
  funding_address = "";
  fresh = false;
}

-- The newest row takes 35 off.
abbrev two_rows : List HistoryViewRow
two_rows = row (u64_mod - 35) ∷ row 50 ∷ []

get_elem?-with_balances_example :
    get_elem? (with_balances two_rows) 0
    ≡ Option.map (with_balance (sum_deltas (drop 0 two_rows) % u64_mod)) (get_elem? two_rows 0)
get_elem?-with_balances_example = get_elem?-with_balances two_rows 0
