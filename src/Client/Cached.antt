-- ===== src/Client/Cached.antt =====
-- What the wallet's caches make of an error that the server reports: the caches of WalletState over the
-- client.
use binglib.Base.{ℕ, String, ◌≡◌, ap, Bool, none, [], ◌∷◌}
use binglib.Base.Dict.{lookup}
use binglib.Base.Effect.{ok}
use binglib.Bitcoin.{Libbitcoin}
use binglib.Json.{JsonLibrary}
use binglib.Electrum.{ElectrumInterface}
use binglib.Converter.{base58_to_spkh_hex}
use binglib.WalletState.{WalletState, get_history}
use binglib.WalletState.Cache.{get_history_again}
use binglib.Client.{Connection, RonghuaClient}
use binglib.Client.Errors.{IsError, IsReplied, get_history_lost}
use binglib.Client.Wire.{ronghua_interface}

module _ {W : Type 0} (lib : Libbitcoin) (electrum : ElectrumInterface W) where
  -- An empty answer for an address that the caches do not know.
  get_history_empty :
      (a spkh : String) (s : WalletState W) (w : W)
      → lookup a s.history_cache_empty ≡ none
      → lookup a s.history_cache ≡ none
      → base58_to_spkh_hex lib a ≡ ok spkh
      → (electrum.get_history spkh w).0 ≡ ok []
      → (get_history lib electrum a [] (s, w)).0 ≡ ok []
  unfolding get_history
  get_history_empty a spkh s w unknown missing converted answer =
      rw (unknown, missing, converted, answer)

module _ {J W : Type 0} (lib : Libbitcoin) (json : JsonLibrary J) (connection : Connection J W)
    (response with_null : J) (message : String)
    (error : IsError json response with_null message) where
  -- If the caches do not know the address, which can be converted, and the request for its history is taken
  -- and answered with an error under its id, then get_history of the wallet's caches over the client
  -- returns an empty history. It returns that again at the next call, with no further request.
  pub history_error_cached :
      (memory : ℕ → Bool) (fuel : ℕ) (a spkh : String) (s : WalletState (RonghuaClient × W))
      (w w' : RonghuaClient × W)
      → IsReplied json connection response w ("blockchain.scripthash.get_history", spkh ∷ [])
      → lookup a s.history_cache_empty ≡ none
      → lookup a s.history_cache ≡ none
      → base58_to_spkh_hex lib a ≡ ok spkh
      → let electrum = ronghua_interface json connection memory fuel in
        let asked = get_history lib electrum a [] (s, w) in
        let again = get_history lib electrum a [] (asked.1.0, w') in
        (asked.0 ≡ ok []) × (again.0 ≡ ok []) × (again.1.1 ≡ w')
  history_error_cached memory fuel a spkh s w w' replied unknown missing converted =
      let electrum = ronghua_interface json connection memory fuel in
      let lost =
        get_history_lost json connection response with_null message error memory spkh w replied in
      let asked = get_history_empty lib electrum a spkh s w unknown missing converted lost in
      let rest = (get_history lib electrum a [] (s, w)).1 in
      let again =
        get_history_again lib electrum a s rest.0 w rest.1 w' [] (ap (λ r. (r, rest)) asked) in
      (asked, again.0, again.1)
