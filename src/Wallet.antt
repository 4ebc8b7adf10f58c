-- ===== src/Wallet.antt =====
-- src/wallet/bing_wallet.cpp: the addresses of a wallet, from its seed phrase. What libbitcoin's
-- electrum and hd_private compute is a parameter.
pub mod Paths
mod Tests
use binglib.Base.{ℕ, zero, suc, ◌+◌, String, Bool, List, [], ◌∷◌, ◌++◌, if◌then◌else◌}
use binglib.Base.Text.{written, decimal}
use binglib.Base.Dict.{Dict, insert}
use binglib.Base.Effect.{Result, ok, err, invalid_argument}
use binglib.Bitcoin.{Bytes, Libbitcoin, EcPrivate}

-- bing_wallet.hpp
pub record AddressDerivationResult : Type 0 where
  pub priv_key_ec : EcPrivate
  pub derivation_path : String

-- `K` is hd_private: split and validate_mnemonic, decode_mnemonic with the root key for a network
-- version, derive_private, and the address and private key of a key's secret.
pub record Derivation (K : Type 0) : Type 0 where
  pub validate_mnemonic : String → Bool
  pub root : String → ℕ → K
  pub derive_private : K → ℕ → K
  pub encoded_address : K → ℕ → String
  pub ec_private_of : K → ℕ → EcPrivate
  pub hd_testnet : ℕ
  pub hd_mainnet : ℕ

-- The two containers that are filled by reference.
pub record Derived : Type 0 where
  pub addresses : List String
  pub addresses_to_data : Dict AddressDerivationResult

module _ {K : Type 0} (lib : Libbitcoin) (d : Derivation K) where
  abbrev pub is_mnemonic_valid : String → Bool
  is_mnemonic_valid = d.validate_mnemonic

  abbrev pub path : ℕ → ℕ → String
  path i j = written ("m/" ∷ decimal i ∷ "/" ∷ decimal j ∷ [])

  -- One round of the inner loop.
  abbrev pub derive_one : ℕ → K → ℕ → ℕ → Derived → Derived
  derive_one version mx i j out =
      let key = d.derive_private mx j in
      let address = d.encoded_address key version in
      record {
        addresses = out.addresses ++ address ∷ [];
        addresses_to_data =
            insert address
              (record { priv_key_ec = d.ec_private_of key version; derivation_path = path i j })
              out.addresses_to_data;
      }

  -- The inner loop, with `n` rounds left, from index `j` on.
  unfoldable pub derive_from : ℕ → K → ℕ → ℕ → ℕ → Derived → Derived
  derive_from version mx i zero j out = out
  derive_from version mx i (suc n) j out =
      derive_from version mx i n (suc j) (derive_one version mx i j out)

  -- What the caller's containers hold afterwards, also if the phrase is refused. Counts are not
  -- negative here.
  unfoldable pub derive_electrum_addresses : Bool → String → ℕ → ℕ → Result (Unit {0}) × Derived
  derive_electrum_addresses testnet seed_phrase count0 count1 =
      let cleared : Derived = record { addresses = []; addresses_to_data = [] } in
      let m = d.root seed_phrase (if testnet then d.hd_testnet else d.hd_mainnet) in
      let version = if testnet then lib.testnet_p2kh else lib.mainnet_p2kh in
      let first = derive_from version (d.derive_private m 0) 0 count0 0 cleared in
      let both = derive_from version (d.derive_private m 1) 1 count1 0 first in
      if d.validate_mnemonic seed_phrase
      then (ok tt, both)
      else (err (invalid_argument "incorrect mnemonic"), cleared)
