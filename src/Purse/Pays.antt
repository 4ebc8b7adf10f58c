-- ===== src/Purse/Pays.antt =====
-- The search for funds and the transfer that they pay for.
use binglib.Base.{
  sym, ℕ, String, ◌≡◌, ap, subst, ◌+◌, ◌≤◌, ◌<◌, inl, inr, true, false, List, [], ◌∷◌, map, arith,
  leb, Bool-cases, leb→le, leb→gt, All, All-split, Any, here, there,
}
use binglib.Base.Word.{u64_mod}
use binglib.Base.Effect.{ok}
use binglib.Bitcoin.{Libbitcoin, EcPrivate, PointValue, Transaction}
use binglib.Libb.{ObeliskClient, replied}
use binglib.Funds.{point_of, find_funds}
use binglib.Funds.Points.{IsShortestRun, total_value, find_funds_enough, find_funds_short}
use binglib.Tx.Outputs.{sum_outputs}
use binglib.Tx.Signing.{spent}
use binglib.P2pkhTx.{is_bad_target, transfer_tx, construct}
use binglib.P2pkhTx.Correct.{construct-find_funds}
use binglib.Purse.{AddressFunds, funds_of, obtain_funds, look_for_funds, no_funds}
use binglib.Purse.Pick.{IsPick, first, most}
use binglib.Purse.Search.{HasFunds, look_for_funds-IsPick}

module _ {W : Type 0} (lib : Libbitcoin) (client : ObeliskClient W)
    (points : String → ℕ → List PointValue) where
  -- A valid address, for which the server always lists the same points, by the number of satoshis asked for.
  -- For 1 they are worth less than 2 ^ 64 together, and for more at most as much: the algorithm
  -- `individual` lists the outputs worth as many satoshis each. libbitcoin's total is their sum.
  pub record IsSound (a : String) : Type 0 where
    pub valid : (lib.payment_address_of a).is_valid ≡ true
    pub listed :
        (satoshis : ℕ) (w : W)
        → (client.blockchain_fetch_unspent_outputs
            (lib.payment_address_of a)
            satoshis
            lib.select_individual
            w).0
          ≡ ok (replied (points a satoshis))
    pub sums :
        (satoshis : ℕ) → lib.points_total (points a satoshis) ≡ total_value (points a satoshis)
    pub fits : total_value (points a 1) < u64_mod
    pub fewer :
        (satoshis : ℕ) → 0 < satoshis → total_value (points a satoshis) ≤ total_value (points a 1)

module _ {W : Type 0} (lib : Libbitcoin) (client : ObeliskClient W)
    (points : String → ℕ → List PointValue) (needed : ℕ) (positive : 0 < needed) where
  abbrev pub funds : String → AddressFunds
  funds a = funds_of lib client needed a (find_funds lib needed (points a needed))

  pub All-HasFunds :
      (addresses : List String)
      → All (IsSound lib client points) addresses
      → All (HasFunds lib client needed funds) addresses
  unfolding obtain_funds
  All-HasFunds [] sound = tt
  All-HasFunds (a ∷ addresses) sound =
      (λ w. ground (arith, sound.0.listed needed w), All-HasFunds addresses sound.1)

  pub actual_funds-short :
      (a : String)
      → IsSound lib client points a
      → total_value (points a needed) < needed
      → (funds a).actual_funds < needed
  actual_funds-short a sound short =
      rw
        (find_funds_short lib needed (points a needed) (sound.sums needed)
          (omega (arith, sound.fits, sound.fewer needed positive)) short)
        short

  actual_funds-enough :
      (a : String)
      → IsSound lib client points a
      → needed ≤ total_value (points a needed)
      → needed ≤ (funds a).actual_funds
  actual_funds-enough a sound enough =
      let (run, shortest, found) =
        find_funds_enough lib needed (points a needed) (sound.sums needed)
          (omega (arith, sound.fits, sound.fewer needed positive)) enough in
      rw found shortest.covers

  -- A search among sound addresses, one of which has enough, ends with the funds of one that has enough.
  IsPick-funds :
      (addresses : List String) (r : AddressFunds)
      → All (IsSound lib client points) addresses
      → Any (λ a. needed ≤ total_value (points a needed)) addresses
      → IsPick (λ f. f.actual_funds) needed funds no_funds addresses r
      → (a : String) × IsSound lib client points a
        × (needed ≤ total_value (points a needed))
        × (r ≡ funds a)
  IsPick-funds addresses r sound rich (first before a after split below enough e) =
      let here =
        (All-split (IsSound lib client points) before (a ∷ after)
          (subst (All (IsSound lib client points)) split sound)).1.0 in
      elim (Bool-cases (leb needed (total_value (points a needed)))) [
        | inl reached ↦ (a, here, leb→le _ _ reached, e)
        | inr short ↦ absurd (omega (arith, actual_funds-short a here (leb→gt _ _ short)))
      ]
  IsPick-funds addresses r sound rich (most below largest above from) =
      absurd (no_funds_short addresses sound rich below)
    where
      no_funds_short :
          (addresses : List String)
          → All (IsSound lib client points) addresses
          → Any (λ a. needed ≤ total_value (points a needed)) addresses
          → All (λ a. (funds a).actual_funds < needed) addresses
          → ⊥
      no_funds_short [] sound rich below = elim rich [ ]
      no_funds_short (a ∷ addresses) sound (here enough) below =
          omega (arith, actual_funds-enough a sound.0 enough, below.0)
      no_funds_short (a ∷ addresses) sound (there rich) below =
          no_funds_short addresses sound.1 rich below.1

module _ {W : Type 0} (lib : Libbitcoin) (client : ObeliskClient W)
    (points : String → ℕ → List PointValue) (key : EcPrivate) (amount fee : ℕ)
    (target_addr : String) where
  -- The transfer from an address that spends these points.
  abbrev pub paying_tx : String → List PointValue → Transaction
  paying_tx a run =
      transfer_tx lib a key amount fee target_addr (map point_of run) (total_value run)

  -- A transfer from the address of these funds goes through: it spends the shortest run that suffices of the
  -- points listed for 1 satoshi, and its outputs and the fee are what these are worth.
  abbrev pub IsPaid : W → AddressFunds → Type 0
  IsPaid w r =
      (run : List PointValue) × IsShortestRun (amount + fee) (points r.address 1) run
      × ((construct lib r.address key amount fee target_addr client w).0
          ≡ ok (lib.encode_base16 (lib.tx_to_data (paying_tx r.address run))))
      × (spent (paying_tx r.address run) ≡ map point_of run)
      × (sum_outputs (paying_tx r.address run).outputs + fee ≡ total_value run)

  IsPaid-funds :
      (a : String) (r : AddressFunds) (w : W)
      → r.address ≡ a
      → IsSound lib client points a
      → is_bad_target lib (lib.payment_address_of target_addr) ≡ false
      → 0 < amount + fee
      → amount + fee < u64_mod
      → amount + fee ≤ total_value (points a 1)
      → IsPaid w r
  IsPaid-funds a r w own sound good positive small enough =
      let request =
        client.blockchain_fetch_unspent_outputs (lib.payment_address_of a) 1 lib.select_individual
          w in
      let answer : request ≡ (ok (replied (points a 1)), request.1) =
        ap (λ reply. (reply, request.1)) (sound.listed 1 w) in
      let (run, shortest, chosen, (text, points_spent, paid)) =
        construct-find_funds lib a key amount fee target_addr client w request.1 (points a 1)
          sound.valid answer (sound.sums 1) sound.fits small good positive enough in
      subst
        (λ b.
          (run : List PointValue) × IsShortestRun (amount + fee) (points b 1) run
          × ((construct lib b key amount fee target_addr client w).0
              ≡ ok (lib.encode_base16 (lib.tx_to_data (paying_tx b run))))
          × (spent (paying_tx b run) ≡ map point_of run)
          × (sum_outputs (paying_tx b run).outputs + fee ≡ total_value run))
        (sym own) (run, shortest, ap (λ reply. reply.0) text, points_spent, paid)

  -- If the addresses are valid, the server lists the same points of each throughout the calls, libbitcoin's
  -- total of these is the sum of their values, the points for 1 satoshi are worth less than 2 ^ 64 and
  -- those for more satoshis at most as much, amount and fee do not overflow and are above 0, the target is
  -- good, and the points that the server lists of one address for amount and fee suffice, then
  -- look_for_funds for amount and fee returns funds that suffice, and a transfer from the address
  -- of these funds goes through: it is the text of a transaction that spends the shortest run that
  -- suffices of the points listed for 1 satoshi, and whose outputs and fee are what these are worth.
  pub look_for_funds-construct :
      (addresses : List String) (w w' : W)
      → All (IsSound lib client points) addresses
      → is_bad_target lib (lib.payment_address_of target_addr) ≡ false
      → 0 < amount + fee
      → amount + fee < u64_mod
      → Any (λ a. amount + fee ≤ total_value (points a (amount + fee))) addresses
      → (r : AddressFunds) × ((look_for_funds lib client (amount + fee) addresses w).0 ≡ ok r)
        × (amount + fee ≤ r.actual_funds)
        × IsPaid w' r
  look_for_funds-construct addresses w w' sound good positive small rich =
      let needed = amount + fee in
      let (r, found, pick) =
        look_for_funds-IsPick lib client needed (funds lib client points needed positive) addresses
          w (All-HasFunds lib client points needed positive addresses sound) in
      let (a, sound_a, enough, e) =
        IsPick-funds lib client points needed positive addresses r sound rich pick in
      let offered = actual_funds-enough lib client points needed positive a sound_a enough in
      (
        r,
        found,
        subst (λ f. needed ≤ f.actual_funds) (sym e) offered,
        IsPaid-funds a r w' (ap (λ f. f.address) e) sound_a good positive small
            (omega (arith, enough, sound_a.fewer needed positive)),
      )
