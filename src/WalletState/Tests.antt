-- ===== src/WalletState/Tests.antt =====
-- The caches of a small wallet.
use binglib.Base.{ℕ, String, ◌≡◌, refl, true, false, List, [], ◌∷◌, map}
use binglib.Base.Int.{pos}
use binglib.Base.Text.{str_lt}
use binglib.Base.Effect.{ok}
use binglib.Electrum.{AddressHistoryItem}
use binglib.Converter.{base58_to_spkh_hex}
use binglib.Sample.{sample_lib, server, one_item}
use binglib.WalletState.{
  WalletState, fresh_state, get_history, with_freshness, clear_caches_for_address, comes_before,
  sort_history,
}
use binglib.WalletState.Cache.{get_history_again, get_history-clear_caches_for_address}

abbrev wallet : WalletState ℕ
wallet = fresh_state ("src" ∷ "dst" ∷ []) [] []

abbrev fresh_items : List AddressHistoryItem
fresh_items = map (with_freshness true) one_item

abbrev after_get_history : WalletState ℕ
after_get_history = record wallet {
  history_cache = ("src", fresh_items) ∷ [];
  history_cache_empty = ("src", false) ∷ [];
}

get_history_again_example :
    ((get_history sample_lib server "src" [] (after_get_history, 7)).0
      ≡ ok (map (with_freshness false) fresh_items))
    × ((get_history sample_lib server "src" [] (after_get_history, 7)).1.1 ≡ 7)
unfolding get_history base58_to_spkh_hex
get_history_again_example =
    get_history_again sample_lib server "src" wallet after_get_history 0 1 7 fresh_items refl

get_history-clear_caches_for_address_example :
    ((get_history sample_lib server "src" []
        (clear_caches_for_address "src" after_get_history, 7)).0
      ≡ ok fresh_items)
    × ((get_history sample_lib server "src" []
          (clear_caches_for_address "src" after_get_history, 7)).1.1
        ≡ 8)
unfolding base58_to_spkh_hex
get_history-clear_caches_for_address_example =
    get_history-clear_caches_for_address sample_lib server "src" "09876543210987654321"
      after_get_history 7 one_item refl refl

abbrev item : String → ℕ → AddressHistoryItem
item txid height = record { txid = txid; height = pos height; fresh = true }

abbrev some_items : List AddressHistoryItem
some_items = item "a" 5 ∷ item "b" 0 ∷ item "c" 9 ∷ item "d" 5 ∷ []

sort_history_run : sort_history some_items ≡ item "b" 0 ∷ item "c" 9 ∷ item "d" 5 ∷ item "a" 5 ∷ []
unfolding sort_history comes_before str_lt
sort_history_run = refl
