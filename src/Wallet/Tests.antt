-- ===== src/Wallet/Tests.antt =====
-- The addresses of a wallet whose keys are paths.
use binglib.Base.{ℕ, ◌≡◌, true, List, [], ◌∷◌, ◌++◌, map}
use binglib.Base.Text.{concat}
use binglib.Base.Effect.{ok}
use binglib.Sample.{sample_lib, key}
use binglib.Wallet.{Derivation, derive_electrum_addresses}
use binglib.Wallet.Paths.{address_at, indices, derive_electrum_addresses-addresses}

-- A key is the list of the indices that lead to it.
abbrev paths : Derivation (List ℕ)
paths = record {
  validate_mnemonic = λ phrase. true;
  root = λ phrase version. [];
  derive_private = λ k i. k ++ i ∷ [];
  encoded_address = λ k version. concat "a" "b";
  ec_private_of = λ k version. key;
  hd_testnet = 1;
  hd_mainnet = 0;
}

derive_electrum_addresses-addresses_example :
    ((derive_electrum_addresses sample_lib paths true "seed" 2 1).0 ≡ ok tt)
    × ((derive_electrum_addresses sample_lib paths true "seed" 2 1).1.addresses
        ≡ map (address_at sample_lib paths true "seed" 0) (indices 2 0)
          ++ map (address_at sample_lib paths true "seed" 1) (indices 1 0))
derive_electrum_addresses-addresses_example =
    derive_electrum_addresses-addresses sample_lib paths true "seed" 2 1
