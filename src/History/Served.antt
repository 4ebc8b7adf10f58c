-- ===== src/History/Served.antt =====
-- The balances over the wallet's caches and a server whose answers do not change.
use binglib.Base.{ℕ, ◌+◌, ◌<◌, ◌≡◌, refl, ap, ◌∙◌, String, Bool, List, [], ◌∷◌, arith, All}
use binglib.Base.Word.{u64_mod, add64}
use binglib.Base.Effect.{ok}
use binglib.Base.Runs.{Runs, Runs-ok, Runs-result, Runs-value}
use binglib.Bitcoin.{Libbitcoin, Transaction, Input, Output}
use binglib.Electrum.{ElectrumInterface, AddressHistory}
use binglib.WalletState.{WalletState}
use binglib.WalletState.Coherent.{IsAnswered, IsCoherent, IsKept, IsKept-trans}
use binglib.History.{calculate_address_balance, total_balance_from, calculate_total_balance}
use binglib.History.Balance.{IsConsistent, unspent, calc_address_balance-unspent}
use binglib.History.Unspent.{balance_items, IsKnown, total_unspent, AreConsistent}
use binglib.History.Items.{calculate_address_balance-items}

module _ {W : Type 0} (lib : Libbitcoin) (electrum : ElectrumInterface W) (is_testnet : Bool)
    (history : String → AddressHistory) (hex : String → String) (spkh : String → String)
    (tx : String → Transaction) (previous : Input → Output)
    (answered : IsAnswered electrum history hex) where
  module _ (u : Bool) (wallet : List String) where
    calculate_address_balance-unspent :
        (a : String) (s : WalletState W) (w : W)
        → s.addresses ≡ wallet
        → IsCoherent history hex spkh s
        → IsKnown lib hex tx previous history spkh a
        → IsConsistent a (balance_items lib is_testnet tx previous wallet u (history (spkh a)))
        → unspent a (balance_items lib is_testnet tx previous wallet u (history (spkh a))) < u64_mod
        → Runs
            (calculate_address_balance lib electrum is_testnet a u)
            (s, w)
            (λ r s'.
              (r ≡ unspent a (balance_items lib is_testnet tx previous wallet u (history (spkh a))))
              × IsKept lib electrum history hex spkh answered s s'.0)
    calculate_address_balance-unspent a s w own coherent known consistent fits =
        let items = balance_items lib is_testnet tx previous wallet u (history (spkh a)) in
        let run =
          calculate_address_balance-items lib electrum is_testnet history hex spkh tx previous
            answered u wallet a s w own coherent known in
        record {
          value = unspent a items;
          after = run.after;
          returns =
              Runs-value _ run
              ∙ ap (λ v. (ok v, run.after)) (calc_address_balance-unspent a items consistent fits);
          ensures = (refl, run.ensures.1);
        }

    total_balance_from-total_unspent :
        (addresses : List String) (b : ℕ) (s : WalletState W) (w : W)
        → s.addresses ≡ wallet
        → IsCoherent history hex spkh s
        → All (IsKnown lib hex tx previous history spkh) addresses
        → AreConsistent lib is_testnet history spkh tx previous u wallet addresses
        → b + total_unspent lib is_testnet history spkh tx previous u wallet addresses < u64_mod
        → Runs
            (total_balance_from lib electrum is_testnet addresses u b)
            (s, w)
            (λ r s'.
              (r ≡ b + total_unspent lib is_testnet history spkh tx previous u wallet addresses)
              × IsKept lib electrum history hex spkh answered s s'.0)
    unfolding total_balance_from
    total_balance_from-total_unspent [] b s w own coherent known consistent fits =
        Runs-ok _ b refl
          (omega arith, record { coherent = coherent; addresses = refl; callbacks = refl })
    total_balance_from-total_unspent (a ∷ addresses) b s w own coherent known consistent fits =
        let items = balance_items lib is_testnet tx previous wallet u (history (spkh a)) in
        let sum : add64 b (unspent a items) ≡ b + unspent a items = omega arith in
        let first =
          calculate_address_balance-unspent a s w own coherent known.0 consistent.0 (omega arith) in
        let kept = first.ensures.1 in
        let rest =
          total_balance_from-total_unspent addresses (add64 b (unspent a items)) first.after.0
            first.after.1 (kept.addresses ∙ own) kept.coherent known.1 consistent.1 (omega arith) in
        record {
          value = rest.value;
          after = rest.after;
          returns = rw (Runs-value _ first) rest.returns;
          ensures = (
            rest.ensures.0 ∙ omega arith,
            IsKept-trans lib electrum history hex spkh answered kept rest.ensures.1,
          );
        }

  -- If every address of the wallet can be converted, the server's answers do not change, the caches hold
  -- nothing but such answers, every transaction of the histories and every one that it spends from
  -- has an id and can be decoded, with the output spent, in the history of each address, of which with
  -- unconfirmed_only only the entries without a height above 0 count, every value is below 2 ^ 64
  -- and no output is spent twice or in part, and what is then unspent is worth less than 2 ^ 64
  -- together, then calculate_total_balance returns what is unspent of all addresses, and the caches
  -- hold nothing but answers of the server afterwards.
  pub calculate_total_balance-total_unspent :
      (u : Bool) (s : WalletState W) (w : W)
      → IsCoherent history hex spkh s
      → All (IsKnown lib hex tx previous history spkh) s.addresses
      → AreConsistent lib is_testnet history spkh tx previous u s.addresses s.addresses
      → total_unspent lib is_testnet history spkh tx previous u s.addresses s.addresses < u64_mod
      → ((calculate_total_balance lib electrum is_testnet u (s, w)).0
          ≡ ok (total_unspent lib is_testnet history spkh tx previous u s.addresses s.addresses))
        × IsCoherent history hex spkh (calculate_total_balance lib electrum is_testnet u (s, w)).1.0
  unfolding calculate_total_balance
  calculate_total_balance-total_unspent u s w coherent known consistent fits =
      let all =
        total_balance_from-total_unspent u s.addresses s.addresses 0 s w refl coherent known
          consistent (omega arith) in
      let (returned, (value, kept)) = Runs-result all in
      (returned ∙ ap ok (value ∙ omega arith), kept.coherent)
