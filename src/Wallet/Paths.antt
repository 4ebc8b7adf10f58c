-- ===== src/Wallet/Paths.antt =====
-- Which addresses a wallet has.
use mathlib.Core.List.{append-nil, append_assoc}
use binglib.Base.{
  ℕ, zero, suc, ◌≡◌, refl, sym, ap, ◌∙◌, String, Bool, List, [], ◌∷◌, ◌++◌, map, if◌then◌else◌,
  Bool-cases, inl, inr,
}
use binglib.Base.Effect.{ok, err, invalid_argument}
use binglib.Bitcoin.{Libbitcoin}
use binglib.Wallet.{Derivation, Derived, derive_one, derive_from, derive_electrum_addresses}

-- The indices from `j` on, `n` of them.
abbrev pub indices : ℕ → ℕ → List ℕ
indices zero j = []
indices (suc n) j = j ∷ indices n (suc j)

module _ {K : Type 0} (lib : Libbitcoin) (d : Derivation K) where
  -- The address at path m/i/j of a seed phrase.
  abbrev pub address_at : Bool → String → ℕ → ℕ → String
  address_at testnet seed_phrase i j =
      let m = d.root seed_phrase (if testnet then d.hd_testnet else d.hd_mainnet) in
      d.encoded_address (d.derive_private (d.derive_private m i) j)
        (if testnet then lib.testnet_p2kh else lib.mainnet_p2kh)

  derive_from-addresses :
      (version : ℕ) (mx : K) (i n j : ℕ) (out : Derived)
      → (derive_from lib d version mx i n j out).addresses
        ≡ out.addresses
          ++ map (λ k. d.encoded_address (d.derive_private mx k) version) (indices n j)
  unfolding derive_from
  derive_from-addresses version mx i zero j out = sym (append-nil out.addresses)
  derive_from-addresses version mx i (suc n) j out =
      derive_from-addresses version mx i n (suc j) (derive_one lib d version mx i j out)
      ∙ append_assoc out.addresses (_ ∷ []) _

  -- For a valid seed phrase, derive_electrum_addresses returns the addresses of the paths m/0/0,
  -- m/0/1, ... and then those of m/1/0, m/1/1, ..., as many of each as were asked for, on the
  -- asked network; for an invalid one it throws and returns no address.
  pub derive_electrum_addresses-addresses :
      (testnet : Bool) (seed_phrase : String) (count0 count1 : ℕ)
      → ((derive_electrum_addresses lib d testnet seed_phrase count0 count1).0 ≡ (
          if d.validate_mnemonic seed_phrase
          then ok tt
          else err (invalid_argument "incorrect mnemonic")))
        × ((derive_electrum_addresses lib d testnet seed_phrase count0 count1).1.addresses ≡ (
            if d.validate_mnemonic seed_phrase
            then map (address_at testnet seed_phrase 0) (indices count0 0)
              ++ map (address_at testnet seed_phrase 1) (indices count1 0)
            else []))
  unfolding derive_electrum_addresses
  derive_electrum_addresses-addresses testnet seed_phrase count0 count1 =
      let m = d.root seed_phrase (if testnet then d.hd_testnet else d.hd_mainnet) in
      let version = if testnet then lib.testnet_p2kh else lib.mainnet_p2kh in
      let none_yet : Derived = record { addresses = []; addresses_to_data = [] } in
      let out0 = derive_from lib d version (d.derive_private m 0) 0 count0 0 none_yet in
      let first = derive_from-addresses version (d.derive_private m 0) 0 count0 0 none_yet in
      let second = derive_from-addresses version (d.derive_private m 1) 1 count1 0 out0 in
      elim (Bool-cases (d.validate_mnemonic seed_phrase)) [
        | inl valid ↦ rw valid (
          refl,
          second ∙ ap (λ xs. xs ++ map (address_at testnet seed_phrase 1) (indices count1 0)) first,
        )
        | inr invalid ↦ rw invalid (refl, refl)
      ]
