-- ===== src/History/Impact.antt =====
-- What one transaction means for the wallet.
use binglib.Base.{
  ℕ, ◌+◌, ◌-◌, ◌^◌, ◌≤◌, ◌<◌, ◌≡◌, refl, true, List, [], ◌∷◌, arith, if◌then◌else◌, All,
}
use binglib.Base.Int.{pos, ◌-ℤ◌}
use binglib.Base.Word.{u64_mod, signed64}
use binglib.Bitcoin.{Libbitcoin}
use binglib.History.{
  TxBalance, TxBalanceInput, TxBalanceOutput, Sums, no_sums, sum_input, sum_output, sum_inputs,
  sum_outputs, impact_of,
}

abbrev pub total_in : List TxBalanceInput → ℕ
total_in [] = 0
total_in (i ∷ is) = i.value + total_in is

abbrev pub wallet_in : List TxBalanceInput → ℕ
wallet_in [] = 0
wallet_in (i ∷ is) = (if i.in_wallet then i.value else 0) + wallet_in is

abbrev pub total_out : List TxBalanceOutput → ℕ
total_out [] = 0
total_out (o ∷ os) = o.value + total_out os

abbrev pub wallet_out : List TxBalanceOutput → ℕ
wallet_out [] = 0
wallet_out (o ∷ os) = (if o.in_wallet then o.value else 0) + wallet_out os

abbrev pub outside_out : List TxBalanceOutput → ℕ
outside_out [] = 0
outside_out (o ∷ os) = (if o.in_wallet then 0 else o.value) + outside_out os

wallet_in-le : (is : List TxBalanceInput) → wallet_in is ≤ total_in is
wallet_in-le [] = omega arith
wallet_in-le (i ∷ is) = ground (arith, wallet_in-le is)

wallet_in-All :
    (is : List TxBalanceInput) → All (λ i. i.in_wallet ≡ true) is → wallet_in is ≡ total_in is
wallet_in-All [] h = refl
wallet_in-All (i ∷ is) h = ground (arith, wallet_in-All is h.1)

total_out-split : (os : List TxBalanceOutput) → total_out os ≡ wallet_out os + outside_out os
total_out-split [] = omega arith
total_out-split (o ∷ os) = ground (arith, total_out-split os)

-- What the loop over the inputs leaves in the sums.
sum_inputs-sums :
    (is : List TxBalanceInput) (s : Sums)
    → s.total_in + total_in is < u64_mod
    → s.from_wallet ≤ s.total_in
    → ((sum_inputs is s).total_in ≡ s.total_in + total_in is)
      × ((sum_inputs is s).from_wallet ≡ s.from_wallet + wallet_in is)
      × ((sum_inputs is s).to_wallet ≡ s.to_wallet)
      × ((sum_inputs is s).total_out ≡ s.total_out)
sum_inputs-sums [] s fits le = (omega arith, omega arith, refl, refl)
sum_inputs-sums (i ∷ is) s fits le = ground (arith, sum_inputs-sums is (sum_input i s))

sum_outputs-sums :
    (lib : Libbitcoin) (os : List TxBalanceOutput) (s : Sums)
    → s.total_out + total_out os < u64_mod
    → s.to_wallet ≤ s.total_out
    → ((sum_outputs lib os s).total_out ≡ s.total_out + total_out os)
      × ((sum_outputs lib os s).to_wallet ≡ s.to_wallet + wallet_out os)
      × ((sum_outputs lib os s).from_wallet ≡ s.from_wallet)
      × ((sum_outputs lib os s).total_in ≡ s.total_in)
sum_outputs-sums lib [] s fits le = (omega arith, omega arith, refl, refl)
sum_outputs-sums lib (o ∷ os) s fits le =
    ground (arith, sum_outputs-sums lib os (sum_output lib o s))

module _ (lib : Libbitcoin) (item : TxBalance) (in_fits : total_in item.inputs < 2 ^ 63)
    (out_fits : total_out item.outputs < 2 ^ 63) where
  -- If what goes into a transaction and what comes out of it are each below 2 ^ 63, then its
  -- balance delta, read as a signed number, is what its outputs pay to the wallet less what its
  -- inputs take from it.
  pub impact_of-delta :
      signed64 (impact_of lib (item ∷ [])).balance_delta
      ≡ pos (wallet_out item.outputs) -ℤ pos (wallet_in item.inputs)
  unfolding impact_of ◌-ℤ◌
  impact_of-delta = ground (
    arith,
    sum_inputs-sums item.inputs no_sums,
    sum_outputs-sums lib item.outputs (sum_inputs item.inputs no_sums),
    wallet_in-le item.inputs,
    total_out-split item.outputs,
  )

  -- If both sums are below 2 ^ 63, the wallet owns every input and the outputs are not worth more
  -- than the inputs, then the funding amount is what the transaction pays to others.
  pub impact_of-funding :
      All (λ i. i.in_wallet ≡ true) item.inputs
      → total_out item.outputs ≤ total_in item.inputs
      → (impact_of lib (item ∷ [])).funding_amount ≡ outside_out item.outputs
  unfolding impact_of
  impact_of-funding ours valid = ground (
    arith,
    sum_inputs-sums item.inputs no_sums,
    sum_outputs-sums lib item.outputs (sum_inputs item.inputs no_sums),
    wallet_in-All item.inputs ours,
    total_out-split item.outputs,
  )

  -- If both sums are below 2 ^ 63, the inputs of the wallet are worth nothing, it receives
  -- something and the outputs are not worth more than the inputs, then the funding amount wraps
  -- around: it is 2 ^ 64 less what the wallet receives and the fee.
  pub impact_of-incoming :
      wallet_in item.inputs ≡ 0
      → 0 < wallet_out item.outputs
      → total_out item.outputs ≤ total_in item.inputs
      → (impact_of lib (item ∷ [])).funding_amount
          + wallet_out item.outputs
          + (total_in item.inputs - total_out item.outputs)
        ≡ u64_mod
  unfolding impact_of
  impact_of-incoming foreign_inputs received valid = ground (
    arith,
    sum_inputs-sums item.inputs no_sums,
    sum_outputs-sums lib item.outputs (sum_inputs item.inputs no_sums),
    total_out-split item.outputs,
  )
