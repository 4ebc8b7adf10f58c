-- ===== src/Tx/Outputs.antt =====
-- Where the money of a transaction goes.
use binglib.Base.{ℕ, ◌+◌, ◌≤◌, ◌<◌, ◌≡◌, List, [], ◌∷◌, arith}
use binglib.Base.Word.{u64_mod, add64}
use binglib.Bitcoin.{Libbitcoin, Output, Script, PaymentAddress}
use binglib.Tx.{outputs_with_refund}

abbrev pub sum_outputs : List Output → ℕ
sum_outputs [] = 0
sum_outputs (o ∷ os) = o.value + sum_outputs os

-- If neither the amount needed nor the available funds overflow and the funds suffice, then the
-- outputs and the fee are together exactly the available funds.
pub sum_outputs_with_refund :
    (lib : Libbitcoin) (available amount fee : ℕ) (target : Script) (source : PaymentAddress)
    → amount + fee ≤ available
    → available < u64_mod
    → sum_outputs (outputs_with_refund lib available (add64 amount fee) amount target source) + fee
      ≡ available
sum_outputs_with_refund lib available amount fee target source enough fits = ground arith

-- The sum of amount and fee is not checked: where it overflows and what is left of it is available,
-- the outputs and the fee are together 2 ^ 64 above the available funds.
pub sum_outputs_overflow :
    (lib : Libbitcoin) (available amount fee : ℕ) (target : Script) (source : PaymentAddress)
    → amount < u64_mod
    → fee < u64_mod
    → u64_mod ≤ amount + fee
    → amount + fee ≤ available + u64_mod
    → available < u64_mod
    → sum_outputs (outputs_with_refund lib available (add64 amount fee) amount target source) + fee
      ≡ available + u64_mod
sum_outputs_overflow lib available amount fee target source ha hf over enough fits = ground arith
