-- ===== src/Purse/Search.antt =====
-- The searches return what IsPick says.
use binglib.Base.{
  ℕ, String, ◌≡◌, refl, ◌<◌, inl, inr, List, [], ◌∷◌, ◌++◌, leb, if◌then◌else◌, All, leb→le, leb→gt,
  gt→leb, Bool-cases, some, none,
}
use binglib.Base.Dict.{Dict, lookup}
use binglib.Base.Effect.{ok, err, out_of_range}
use binglib.Bitcoin.{Libbitcoin}
use binglib.Libb.{ObeliskClient}
use binglib.Converter.{base58_to_spkh_hex}
use binglib.Base.Word.{to_u64}
use binglib.Electrum.{ElectrumInterface, AddressBalance}
use binglib.Purse.{
  AddressFunds, AddressFundsInfo, no_funds, no_funds_info, obtain_funds, look_for_funds_from,
  look_for_funds, look_for_address_from, look_for_address_with_balance, info,
}
use binglib.Purse.Pick.{IsPick, IsPick-nil, IsPick-here, IsPick-next}

module _ {W : Type 0} (lib : Libbitcoin) (client : ObeliskClient W) (requested : ℕ)
    (funds : String → AddressFunds) where
  -- The funds that the server reports for the address are always the same.
  abbrev pub HasFunds : String → Type 0
  HasFunds a = (w : W) → (obtain_funds lib client requested a w).0 ≡ ok (funds a)

  look_for_funds_from-IsPick :
      (addresses : List String) (best : AddressFunds) (w : W)
      → All HasFunds addresses
      → (r : AddressFunds) × ((look_for_funds_from lib client requested addresses best w).0 ≡ ok r)
        × IsPick (λ f. f.actual_funds) requested funds best addresses r
  unfolding look_for_funds_from
  look_for_funds_from-IsPick [] best w answers = (best, refl, IsPick-nil _ _ _ best)
  look_for_funds_from-IsPick (a ∷ addresses) best w answers =
      elim (Bool-cases (leb requested (funds a).actual_funds)) [
        | inl enough ↦ (
          funds a,
          rw (answers.0 w, enough) refl,
          IsPick-here _ _ _ best a addresses (leb→le _ _ enough),
        )
        | inr short ↦
            let (r, e, pick) =
              look_for_funds_from-IsPick addresses
                (if leb best.actual_funds (funds a).actual_funds then funds a else best)
                (obtain_funds lib client requested a w).1 answers.1 in
            (
              r,
              rw (answers.0 w, short) e,
              IsPick-next _ _ _ best a addresses r (leb→gt _ _ short) pick,
            )
      ]

  -- If every address has funds that the server reports alike throughout the call, then
  -- look_for_funds returns the funds of the first address that suffice, and if none does, a
  -- largest of them, or the empty funds if there is no address.
  pub look_for_funds-IsPick :
      (addresses : List String) (w : W)
      → All HasFunds addresses
      → (r : AddressFunds) × ((look_for_funds lib client requested addresses w).0 ≡ ok r)
        × IsPick (λ f. f.actual_funds) requested funds no_funds addresses r
  unfolding look_for_funds
  look_for_funds-IsPick addresses w answers =
      look_for_funds_from-IsPick addresses no_funds w answers

module _ (requested : ℕ) (balances : Dict ℕ) (balance : String → ℕ) where
  look_for_address_from-IsPick :
      (addresses : List String) (best : AddressFundsInfo)
      → All (λ a. lookup a balances ≡ some (balance a)) addresses
      → (r : AddressFundsInfo) × (look_for_address_from requested balances addresses best ≡ ok r)
        × IsPick
            (λ f. f.actual_funds)
            requested
            (λ a. info requested balances a (balance a))
            best
            addresses
            r
  unfolding look_for_address_from
  look_for_address_from-IsPick [] best known = (best, refl, IsPick-nil _ _ _ best)
  look_for_address_from-IsPick (a ∷ addresses) best known =
      elim (Bool-cases (leb requested (balance a))) [
        | inl enough ↦ (
          info requested balances a (balance a),
          rw (known.0, enough) refl,
          IsPick-here _ _ _ best a addresses (leb→le _ _ enough),
        )
        | inr short ↦
            let (r, e, pick) =
              look_for_address_from-IsPick addresses
                (if leb best.actual_funds (balance a)
                  then info requested balances a (balance a)
                  else best)
                known.1 in
            (r, rw (known.0, short) e, IsPick-next _ _ _ best a addresses r (leb→gt _ _ short) pick)
      ]

-- If every address has an entry in the map, then look_for_address_with_balance returns the first
-- address whose balance suffices, and if none does, one with a largest balance, or the empty
-- answer if there is no address.
pub look_for_address_with_balance-IsPick :
    (requested : ℕ) (balances : Dict ℕ) (balance : String → ℕ) (addresses : List String)
    → All (λ a. lookup a balances ≡ some (balance a)) addresses
    → (r : AddressFundsInfo) × (look_for_address_with_balance requested balances addresses ≡ ok r)
      × IsPick
          (λ f. f.actual_funds)
          requested
          (λ a. info requested balances a (balance a))
          no_funds_info
          addresses
          r
unfolding look_for_address_with_balance
look_for_address_with_balance-IsPick requested balances balance addresses known =
    look_for_address_from-IsPick requested balances balance addresses no_funds_info known

look_for_address_from-missing :
    (requested : ℕ) (balances : Dict ℕ) (balance : String → ℕ) (before : List String) (a : String)
    (after : List String) (best : AddressFundsInfo)
    → All (λ b. (lookup b balances ≡ some (balance b)) × (balance b < requested)) before
    → lookup a balances ≡ none
    → look_for_address_from requested balances (before ++ a ∷ after) best ≡ err out_of_range
unfolding look_for_address_from
look_for_address_from-missing requested balances balance [] a after best known missing =
    rw missing refl
look_for_address_from-missing requested balances balance (b ∷ before) a after best known missing =
    rw (known.0.0, gt→leb _ _ known.0.1)
      (look_for_address_from-missing requested balances balance before a after _ known.1 missing)

-- An address without an entry that is reached, because no balance before it suffices, ends the
-- search with std::out_of_range, whatever stands behind it.
pub look_for_address_missing :
    (requested : ℕ) (balances : Dict ℕ) (balance : String → ℕ) (before : List String) (a : String)
    (after : List String)
    → All (λ b. (lookup b balances ≡ some (balance b)) × (balance b < requested)) before
    → lookup a balances ≡ none
    → look_for_address_with_balance requested balances (before ++ a ∷ after) ≡ err out_of_range
unfolding look_for_address_with_balance
look_for_address_missing requested balances balance before a after known missing =
    look_for_address_from-missing requested balances balance before a after no_funds_info known
      missing

-- What an address offers look_for_funds_by_balance: its funds if its confirmed balance suffices,
-- and else the balance, with no outputs.
abbrev pub offer : ℕ → (String → ℕ) → (String → AddressFunds) → String → AddressFunds
offer requested balance funds a =
    if leb requested (balance a)
    then funds a
    else record { address = a; requested_funds = requested; actual_funds = balance a; points = [] }

module _ {W : Type 0} (lib : Libbitcoin) (electrum : ElectrumInterface W) (client : ObeliskClient W)
    (requested : ℕ) (balance : String → ℕ) (funds : String → AddressFunds)
    (spkh : String → String) where
  -- The address can be converted, and the servers report its balance and its funds always the same.
  pub record IsReported (a : String) : Type 0 where
    pub converted : base58_to_spkh_hex lib a ≡ ok (spkh a)
    pub reported : AddressBalance
    pub balances : (w : W) → (electrum.get_balance (spkh a) w).0 ≡ ok reported
    pub confirmed : to_u64 reported.confirmed ≡ balance a
    pub has_funds : HasFunds lib client requested funds a
