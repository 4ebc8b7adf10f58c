-- ===== src/Purse/Refused.antt =====
-- The search for funds and the transfer where no address has enough.
use binglib.Base.{
  ℕ, String, ◌≡◌, ap, ◌∙◌, subst, ◌+◌, ◌≤◌, ◌<◌, inl, inr, List, [], ◌∷◌, arith, All, All-split,
  Any, here, there,
}
use binglib.Base.Word.{u64_mod}
use binglib.Base.Effect.{ok, err, insufficient_funds}
use binglib.Bitcoin.{Libbitcoin, EcPrivate, PointValue}
use binglib.Libb.{ObeliskClient, replied}
use binglib.Funds.Points.{total_value, find_funds_short}
use binglib.P2pkhTx.{insufficient_message, construct}
use binglib.P2pkhTx.Correct.{construct_short}
use binglib.Purse.{AddressFunds, funds_of, look_for_funds, no_funds}
use binglib.Purse.Pays.{IsSound, funds, All-HasFunds, actual_funds-short}
use binglib.Purse.Pick.{IsPick, first, most}
use binglib.Purse.Search.{look_for_funds-IsPick}

module _ {W : Type 0} (lib : Libbitcoin) (client : ObeliskClient W)
    (points : String → ℕ → List PointValue) (needed : ℕ) where
  -- Sound addresses with too little, even of the points listed for 1 satoshi.
  abbrev pub AreShort : List String → Type 0
  AreShort addresses =
      All (λ a. IsSound lib client points a × (total_value (points a 1) < needed)) addresses

module _ {W : Type 0} (lib : Libbitcoin) (client : ObeliskClient W)
    (points : String → ℕ → List PointValue) (needed : ℕ) (positive : 0 < needed) where
  -- An address with too little offers what it has, and no points.
  funds_short :
      (a : String)
      → IsSound lib client points a
      → total_value (points a 1) < needed
      → funds lib client points needed positive a
        ≡ funds_of lib client needed a ([], total_value (points a needed))
  funds_short a sound short = ap (funds_of lib client needed a) (
      find_funds_short lib needed (points a needed) (sound.sums needed)
        (omega (arith, sound.fits, sound.fewer needed positive))
        (omega (arith, short, sound.fewer needed positive)))

  none_above :
      (addresses : List String) (n : ℕ)
      → AreShort lib client points needed addresses
      → All (λ a. (funds lib client points needed positive a).actual_funds ≤ n) addresses
      → All (λ a. total_value (points a needed) ≤ n) addresses
  none_above [] n short largest = tt
  none_above (a ∷ addresses) n short largest = (
    subst (λ f. f.actual_funds ≤ n) (funds_short a short.0.0 short.0.1) largest.0,
    none_above addresses n short.1 largest.1,
  )

  no_points :
      (addresses : List String) (r : AddressFunds)
      → AreShort lib client points needed addresses
      → Any (λ a. r ≡ funds lib client points needed positive a) addresses
      → r.points ≡ []
  no_points (a ∷ addresses) r short (here e) =
      ap (λ f. f.points) (e ∙ funds_short a short.0.0 short.0.1)
  no_points (a ∷ addresses) r short (there found) = no_points addresses r short.1 found
  no_points [] r short found = elim found [ ]

  IsPick-short :
      (addresses : List String) (r : AddressFunds)
      → AreShort lib client points needed addresses
      → IsPick
          (λ f. f.actual_funds)
          needed
          (funds lib client points needed positive)
          no_funds
          addresses
          r
      → (r.points ≡ []) × All (λ a. total_value (points a needed) ≤ r.actual_funds) addresses
  IsPick-short addresses r short (first before a after split below enough e) =
      let here =
        (All-split _ before (a ∷ after)
          (subst (AreShort lib client points needed) split short)).1.0 in
      absurd (
        omega (
          arith,
          actual_funds-short lib client points needed positive a here.0
              (omega (arith, here.1, here.0.fewer needed positive)),
        ))
  IsPick-short addresses r short (most below largest above from) = (
    elim from [
      | inl empty ↦ ap (λ f. f.points) empty
      | inr found ↦ no_points addresses r short found
    ],
    none_above addresses r.actual_funds short largest,
  )

module _ {W : Type 0} (lib : Libbitcoin) (client : ObeliskClient W)
    (points : String → ℕ → List PointValue) (key : EcPrivate) (amount fee : ℕ)
    (target_addr : String) where
  construct-refused :
      (a : String) (w : W)
      → IsSound lib client points a
      → amount + fee < u64_mod
      → total_value (points a 1) < amount + fee
      → (construct lib a key amount fee target_addr client w).0
        ≡ err (
            insufficient_funds
              (insufficient_message (amount + fee) (total_value (points a 1)))
              (amount + fee)
              (total_value (points a 1)))
  construct-refused a w sound small short =
      let request =
        client.blockchain_fetch_unspent_outputs (lib.payment_address_of a) 1 lib.select_individual
          w in
      let answer : request ≡ (ok (replied (points a 1)), request.1) =
        ap (λ reply. (reply, request.1)) (sound.listed 1 w) in
      ap (λ r. r.0)
        (construct_short lib a key amount fee target_addr client w request.1 (points a 1)
          sound.valid answer (sound.sums 1) sound.fits small short)

  -- A transfer from the address is refused with what is needed and what the address has.
  abbrev pub IsRefused : W → String → Type 0
  IsRefused w a =
      (construct lib a key amount fee target_addr client w).0
      ≡ err (
          insufficient_funds (insufficient_message (amount + fee) (total_value (points a 1)))
            (amount + fee) (total_value (points a 1)))

  All-IsRefused :
      (addresses : List String) (w : W)
      → amount + fee < u64_mod
      → AreShort lib client points (amount + fee) addresses
      → All (IsRefused w) addresses
  All-IsRefused [] w small short = tt
  All-IsRefused (a ∷ addresses) w small short =
      (construct-refused a w short.0.0 small short.0.1, All-IsRefused addresses w small short.1)

  All-IsSound :
      (addresses : List String)
      → AreShort lib client points (amount + fee) addresses
      → All (IsSound lib client points) addresses
  All-IsSound [] short = tt
  All-IsSound (a ∷ addresses) short = (short.0.0, All-IsSound addresses short.1)

  -- If the addresses are valid, the server lists the same points of each throughout the calls, libbitcoin's
  -- total of these is the sum of their values, the points for 1 satoshi are worth less than 2 ^ 64 and
  -- those for more satoshis at most as much, amount and fee do not overflow and are above 0, and the
  -- points listed of no address for 1 satoshi suffice, then look_for_funds for amount and fee returns
  -- funds with no points whose amount is at least what is listed of each address for amount and fee,
  -- and a transfer from any of the addresses is refused with what is needed and what is listed of
  -- that address for 1 satoshi.
  pub look_for_funds-IsRefused :
      (addresses : List String) (w w' : W)
      → 0 < amount + fee
      → amount + fee < u64_mod
      → AreShort lib client points (amount + fee) addresses
      → (r : AddressFunds) × ((look_for_funds lib client (amount + fee) addresses w).0 ≡ ok r)
        × (r.points ≡ [])
        × All (λ a. total_value (points a (amount + fee)) ≤ r.actual_funds) addresses
        × All (IsRefused w') addresses
  look_for_funds-IsRefused addresses w w' positive small short =
      let needed = amount + fee in
      let (r, found, pick) =
        look_for_funds-IsPick lib client needed (funds lib client points needed positive) addresses
          w
          (All-HasFunds lib client points needed positive addresses
            (All-IsSound addresses short)) in
      let (no_points, largest) =
        IsPick-short lib client points needed positive addresses r short pick in
      (r, found, no_points, largest, All-IsRefused addresses w' small short)
