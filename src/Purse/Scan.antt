-- ===== src/Purse/Scan.antt =====
-- What the scans leave in the maps.
use binglib.Base.{ℕ, String, ◌≡◌, refl, List, [], ◌∷◌, arith, if◌then◌else◌, some}
use binglib.Base.Text.{str_eq_iff, contains}
use binglib.Base.Dict.{Dict, lookup, insert, lookup-insert}
use binglib.Base.Effect.{ok}
use binglib.Bitcoin.{Libbitcoin}
use binglib.Electrum.{ElectrumInterface}
use binglib.Purse.{confirmed_balance, record_balance, scan_balances}

module _ {W : Type 0} (lib : Libbitcoin) (electrum : ElectrumInterface W) (balance : String → ℕ)
    (answers : (a : String) (w : W) → (confirmed_balance lib electrum a w).0 ≡ ok (balance a)) where
  record_balance-ok :
      (a : String) (balances : Dict ℕ) (w : W)
      → record_balance lib electrum a (balances, w)
        ≡ (ok (balance a), (insert a (balance a) balances, (confirmed_balance lib electrum a w).1))
  unfolding record_balance
  record_balance-ok a balances w = rw (answers a w) refl

  -- If every address has a balance that the server reports alike throughout the call, then
  -- scan_balances ends without an exception, with the balance of each address that it was given in
  -- the map and every other entry as it was.
  pub scan_balances-lookup :
      (addresses : List String) (balances : Dict ℕ) (w : W)
      → ((scan_balances lib electrum addresses (balances, w)).0 ≡ ok tt)
        × ((k : String)
            → lookup k (scan_balances lib electrum addresses (balances, w)).1.0
              ≡ (if contains k addresses then some (balance k) else lookup k balances))
  unfolding scan_balances
  scan_balances-lookup [] balances w = (refl, λ k. refl)
  scan_balances-lookup (a ∷ addresses) balances w =
      let next =
        scan_balances-lookup addresses (insert a (balance a) balances)
          (confirmed_balance lib electrum a w).1 in
      rw (record_balance-ok a balances w) (
        next.0,
        λ k. ground (arith, next.1 k, lookup-insert a k (balance a) balances, str_eq_iff a k),
      )
