-- ===== src/History/Analysis.antt =====
-- The static and the value-level parts of HistoryInspector. uint64_t wraps; an int64_t is its bit
-- pattern.
use binglib.Base.{
  ℕ, suc, String, Bool, false, Option, none, some, ◌&&◌, ◌||◌, ◌==◌, List, [], ◌∷◌, if◌then◌else◌,
}
use binglib.Base.Int.{ℤ, pos, negsuc}
use binglib.Base.Text.{str_eq, contains}
use binglib.Base.Word.{add64, sub64}
use binglib.Base.Effect.{Result, ok, err, invalid_argument}
use binglib.Bitcoin.{Bytes, Libbitcoin, Output, PaymentAddress}
use binglib.WalletState.{HistoryViewRow}

-- funding_idx is an int converted from uint32_t; its values here are below 2 ^ 31.
pub record TxBalanceInput : Type 0 where
  pub funding_tx : String
  pub funding_idx : ℕ
  pub value : ℕ
  pub in_wallet : Bool
  pub address : String

-- -1 is the script kind of an output without an address.
pub record TxBalanceOutput : Type 0 where
  pub address : String
  pub script_kind : ℤ
  pub value : ℕ
  pub in_wallet : Bool

pub record TxBalance : Type 0 where
  pub tx_id : String
  pub inputs : List TxBalanceInput
  pub outputs : List TxBalanceOutput

pub record TxWalletImpact : Type 0 where
  pub balance_delta : ℕ
  pub is_p2sh : Bool
  pub funding_amount : ℕ
  pub funding_address : String

-- get_addresses
abbrev pub addresses_of : Libbitcoin → Bool → Output → List PaymentAddress
addresses_of lib is_testnet o =
    if is_testnet
    then lib.output_addresses o lib.testnet_p2kh lib.testnet_p2sh
    else lib.output_addresses o lib.mainnet_p2kh lib.mainnet_p2sh

-- The entry for an input, from the output that it spends and the addresses of that.
abbrev pub input_entry : List String → String → ℕ → Output → List PaymentAddress → TxBalanceInput
input_entry wallet funding_tx funding_idx previous [] = record {
  funding_tx = funding_tx;
  funding_idx = funding_idx;
  value = previous.value;
  in_wallet = false;
  address = "";
}
input_entry wallet funding_tx funding_idx previous (ax ∷ axx) = record {
  funding_tx = funding_tx;
  funding_idx = funding_idx;
  value = previous.value;
  in_wallet = contains ax.encoded wallet;
  address = ax.encoded;
}

abbrev pub output_entry : Libbitcoin → List String → Output → List PaymentAddress → TxBalanceOutput
output_entry lib wallet o [] = record {
  address = "";
  script_kind = negsuc 0;
  value = o.value;
  in_wallet = false;
}
output_entry lib wallet o (ax ∷ axx) = record {
  address = ax.encoded;
  script_kind = pos (lib.script_pattern o.script);
  value = o.value;
  in_wallet = contains ax.encoded wallet;
}

-- What the inputs of a transaction that name the output take off the balance.
unfoldable pub subtract_inputs : String → ℕ → List TxBalanceInput → ℕ → ℕ
subtract_inputs cur_tx cur_idx [] balance = balance
subtract_inputs cur_tx cur_idx (i ∷ inputs) balance = subtract_inputs cur_tx cur_idx inputs (
    if str_eq i.funding_tx cur_tx && (i.funding_idx == cur_idx)
    then sub64 balance i.value
    else balance)

-- The loop over the later items.
unfoldable pub subtract_spends : String → ℕ → List TxBalance → ℕ → ℕ
subtract_spends cur_tx cur_idx [] balance = balance
subtract_spends cur_tx cur_idx (item ∷ later) balance =
    subtract_spends cur_tx cur_idx later (subtract_inputs cur_tx cur_idx item.inputs balance)

-- The loop over the outputs of one item, from index `oidx` on.
unfoldable pub add_outputs : String → String → List TxBalance → List TxBalanceOutput → ℕ → ℕ → ℕ
add_outputs address tx_id later [] oidx balance = balance
add_outputs address tx_id later (o ∷ outputs) oidx balance =
    add_outputs address tx_id later outputs (suc oidx) (
      if str_eq o.address address
      then subtract_spends tx_id oidx later (add64 balance o.value)
      else balance)

-- The loop over the items; the items from cur_pos + 1 on are those that are left.
unfoldable pub add_items : String → List TxBalance → ℕ → ℕ
add_items address [] balance = balance
add_items address (item ∷ later) balance =
    add_items address later (add_outputs address item.tx_id later item.outputs 0 balance)

unfoldable pub calc_address_balance : String → List TxBalance → ℕ
unfolding add_items add_outputs subtract_spends subtract_inputs
calc_address_balance address balance_items = add_items address balance_items 0

-- The sums of calculate_tx_wallet_impact.
pub record Sums : Type 0 where
  pub from_wallet : ℕ
  pub to_wallet : ℕ
  pub total_in : ℕ
  pub total_out : ℕ
  pub is_p2sh : Bool
  pub funding_address : String

abbrev pub no_sums : Sums
no_sums = record {
  from_wallet = 0;
  to_wallet = 0;
  total_in = 0;
  total_out = 0;
  is_p2sh = false;
  funding_address = "";
}

abbrev pub sum_input : TxBalanceInput → Sums → Sums
sum_input i s = record s {
  from_wallet = if i.in_wallet then add64 s.from_wallet i.value else s.from_wallet;
  funding_address = if i.in_wallet then i.address else s.funding_address;
  total_in = add64 s.total_in i.value;
}

-- script_kind == pay_script_hash
abbrev pub is_kind : ℕ → ℤ → Bool
is_kind k (pos n) = n == k
is_kind k (negsuc n) = false

abbrev pub sum_output : Libbitcoin → TxBalanceOutput → Sums → Sums
sum_output lib o s = record s {
  to_wallet = if o.in_wallet then add64 s.to_wallet o.value else s.to_wallet;
  is_p2sh = is_kind lib.pay_script_hash o.script_kind || s.is_p2sh;
  total_out = add64 s.total_out o.value;
}

abbrev pub sum_inputs : List TxBalanceInput → Sums → Sums
sum_inputs [] s = s
sum_inputs (i ∷ inputs) s = sum_inputs inputs (sum_input i s)

abbrev pub sum_outputs : Libbitcoin → List TxBalanceOutput → Sums → Sums
sum_outputs lib [] s = s
sum_outputs lib (o ∷ outputs) s = sum_outputs lib outputs (sum_output lib o s)

abbrev pub sum_items : Libbitcoin → List TxBalance → Sums → Sums
sum_items lib [] s = s
sum_items lib (item ∷ items) s =
    sum_items lib items (sum_outputs lib item.outputs (sum_inputs item.inputs s))

abbrev pub impact_of_sums : Sums → TxWalletImpact
impact_of_sums s =
    let fee = sub64 s.total_in s.total_out in
    record {
      balance_delta = sub64 s.to_wallet s.from_wallet;
      is_p2sh = s.is_p2sh;
      funding_amount = sub64 (sub64 s.from_wallet s.to_wallet) fee;
      funding_address = s.funding_address;
    }

-- The part of calculate_tx_wallet_impact behind the analysis.
unfoldable pub impact_of : Libbitcoin → List TxBalance → TxWalletImpact
impact_of lib balance_items = impact_of_sums (sum_items lib balance_items no_sums)

-- The loop of create_history_view_rows from the last row to the first: each row's balance, and the
-- balance that is carried on.
abbrev row_from : HistoryViewRow → List HistoryViewRow × ℕ → List HistoryViewRow × ℕ
row_from row (rows, balance) =
    let balance' = add64 balance row.balance_delta in
    (record row { balance = balance' } ∷ rows, balance')

unfoldable pub accumulate : List HistoryViewRow → List HistoryViewRow × ℕ
accumulate [] = ([], 0)
accumulate (row ∷ rows) = row_from row (accumulate rows)

unfoldable pub with_balances : List HistoryViewRow → List HistoryViewRow
unfolding accumulate
with_balances rows = (accumulate rows).0

-- Headers are libbitcoin's, as is `from_data`.
abbrev header_of_chunk : {Header : Type 0} → (Bytes → Option Header) → Option Bytes → Result Header
header_of_chunk from_data none = err (invalid_argument "could not decode raw hex header")
header_of_chunk from_data (some header_chunk) = elim (from_data header_chunk) [
  | none ↦ err (invalid_argument "could not decode header")
  | some header ↦ ok header
]

abbrev hex_2_header :
    {Header : Type 0} → Libbitcoin → (Bytes → Option Header) → String → Result Header
hex_2_header lib from_data header_hex = header_of_chunk from_data (lib.decode_base16 header_hex)
