-- ===== src/History/Balance.antt =====
-- The balance of an address against its unspent outputs.
use binglib.Base.{
  ℕ, suc, ◌+◌, ◌<◌, ◌≡◌, refl, sym, ap, ◌∙◌, ◌⊎◌, inl, inr, String, ◌&&◌, ◌==◌, List, [], ◌∷◌, ◌++◌,
  arith, null, if◌then◌else◌, Bool-cases,
}
use binglib.Base.Text.{str_eq}
use binglib.Base.Word.{u64_mod, add64, sub64}
use binglib.History.{
  TxBalance, TxBalanceInput, TxBalanceOutput, subtract_inputs, subtract_spends, add_outputs,
  add_items, calc_address_balance,
}

-- The inputs of a transaction that spend output `idx` of `tx`.
abbrev pub matching : String → ℕ → List TxBalanceInput → List TxBalanceInput
matching tx idx [] = []
matching tx idx (i ∷ inputs) =
    if str_eq i.funding_tx tx && (i.funding_idx == idx)
    then i ∷ matching tx idx inputs
    else matching tx idx inputs

-- All of them in the transactions that come later.
abbrev pub spenders : String → ℕ → List TxBalance → List TxBalanceInput
spenders tx idx [] = []
spenders tx idx (item ∷ later) = matching tx idx item.inputs ++ spenders tx idx later

-- What the outputs to the address are worth that nothing later spends.
abbrev pub unspent_outputs : String → String → List TxBalance → List TxBalanceOutput → ℕ → ℕ
unspent_outputs address tx later [] idx = 0
unspent_outputs address tx later (o ∷ outputs) idx =
    (if str_eq o.address address && null (spenders tx idx later) then o.value else 0)
    + unspent_outputs address tx later outputs (suc idx)

abbrev pub unspent : String → List TxBalance → ℕ
unspent address [] = 0
unspent address (item ∷ later) =
    unspent_outputs address item.tx_id later item.outputs 0 + unspent address later

-- An output that is spent later is spent once and for its whole value.
abbrev pub IsSpentOnce : ℕ → List TxBalanceInput → Type 0
IsSpentOnce value spends =
    (spends ≡ []) ⊎ ((i : TxBalanceInput) × (spends ≡ i ∷ []) × (i.value ≡ value))

abbrev pub OutputsConsistent : String → String → List TxBalance → List TxBalanceOutput → ℕ → Type 0
OutputsConsistent address tx later [] idx = Unit {0}
OutputsConsistent address tx later (o ∷ outputs) idx =
    (o.value < u64_mod)
    × IsSpentOnce o.value (spenders tx idx later)
    × OutputsConsistent address tx later outputs (suc idx)

abbrev pub IsConsistent : String → List TxBalance → Type 0
IsConsistent address [] = Unit {0}
IsConsistent address (item ∷ later) =
    OutputsConsistent address item.tx_id later item.outputs 0 × IsConsistent address later

abbrev subtract_all : List TxBalanceInput → ℕ → ℕ
subtract_all [] balance = balance
subtract_all (i ∷ inputs) balance = subtract_all inputs (sub64 balance i.value)

subtract_all-append :
    (xs ys : List TxBalanceInput) (b : ℕ)
    → subtract_all (xs ++ ys) b ≡ subtract_all ys (subtract_all xs b)
subtract_all-append [] ys b = refl
subtract_all-append (i ∷ xs) ys b = subtract_all-append xs ys (sub64 b i.value)

subtract_inputs-matching :
    (tx : String) (idx : ℕ) (inputs : List TxBalanceInput) (b : ℕ)
    → subtract_inputs tx idx inputs b ≡ subtract_all (matching tx idx inputs) b
unfolding subtract_inputs
subtract_inputs-matching tx idx [] b = refl
subtract_inputs-matching tx idx (i ∷ inputs) b =
    elim (Bool-cases (str_eq i.funding_tx tx && (i.funding_idx == idx))) [
      | inl hit ↦ rw hit (subtract_inputs-matching tx idx inputs (sub64 b i.value))
      | inr miss ↦ rw miss (subtract_inputs-matching tx idx inputs b)
    ]

subtract_spends-spenders :
    (tx : String) (idx : ℕ) (later : List TxBalance) (b : ℕ)
    → subtract_spends tx idx later b ≡ subtract_all (spenders tx idx later) b
unfolding subtract_spends
subtract_spends-spenders tx idx [] b = refl
subtract_spends-spenders tx idx (item ∷ later) b =
    subtract_spends-spenders tx idx later (subtract_inputs tx idx item.inputs b)
    ∙ ap (subtract_all (spenders tx idx later)) (subtract_inputs-matching tx idx item.inputs b)
    ∙ sym (subtract_all-append (matching tx idx item.inputs) (spenders tx idx later) b)

-- One output of the address: nothing if it is spent later, its value if it is not.
one_output :
    (value b : ℕ) (spends : List TxBalanceInput)
    → b + (if null spends then value else 0) < u64_mod
    → value < u64_mod
    → IsSpentOnce value spends
    → subtract_all spends (add64 b value) ≡ b + (if null spends then value else 0)
one_output value b spends fits small (inl e) = let f = rw e at fits in rw e (omega arith)
one_output value b spends fits small (inr (i, e, v)) = let f = rw e at fits in rw e (omega arith)

add_outputs-unspent :
    (address tx : String) (later : List TxBalance) (outputs : List TxBalanceOutput) (idx b : ℕ)
    → b + unspent_outputs address tx later outputs idx < u64_mod
    → OutputsConsistent address tx later outputs idx
    → add_outputs address tx later outputs idx b ≡ b + unspent_outputs address tx later outputs idx
unfolding add_outputs
add_outputs-unspent address tx later [] idx b fits ok = omega arith
add_outputs-unspent address tx later (o ∷ outputs) idx b fits consistent =
    elim (Bool-cases (str_eq o.address address)) [
      | inl ours ↦
          let spends = spenders tx idx later in
          let kept = if null spends then o.value else 0 in
          let fits' = rw ours at fits in
          let step : subtract_spends tx idx later (add64 b o.value) ≡ b + kept =
            subtract_spends-spenders tx idx later (add64 b o.value)
            ∙ one_output o.value b spends (omega arith) consistent.0 consistent.1 in
          rw (ours, step)
            (omega (
              arith,
              add_outputs-unspent address tx later outputs (suc idx) (b + kept) (omega arith)
                  consistent.2,
            ))
      | inr others ↦
          let fits' = rw others at fits in
          rw others (
            omega (
              arith,
              add_outputs-unspent address tx later outputs (suc idx) b (omega arith) consistent.2,
            ))
    ]

add_items-unspent :
    (address : String) (items : List TxBalance) (b : ℕ)
    → b + unspent address items < u64_mod
    → IsConsistent address items
    → add_items address items b ≡ b + unspent address items
unfolding add_items
add_items-unspent address [] b fits ok = omega arith
add_items-unspent address (item ∷ later) b fits (ok, rest) =
    let here = unspent_outputs address item.tx_id later item.outputs 0 in
    let first = add_outputs-unspent address item.tx_id later item.outputs 0 b (omega arith) ok in
    rw first (omega (arith, add_items-unspent address later (b + here) (omega arith) rest))

-- If every output is spent at most once by later transactions, and then for its whole value, all
-- values are below 2 ^ 64, and so is the sum of the address's unspent outputs, then
-- calc_address_balance is that sum.
pub calc_address_balance-unspent :
    (address : String) (items : List TxBalance)
    → IsConsistent address items
    → unspent address items < u64_mod
    → calc_address_balance address items ≡ unspent address items
unfolding calc_address_balance
calc_address_balance-unspent address items consistent fits =
    omega (arith, add_items-unspent address items 0 (omega arith) consistent)
