-- ===== src/WalletState/Cache.antt =====
-- What the caches give back.
use binglib.Base.{
  String, ◌≡◌, ◌≢◌, refl, sym, subst, ap, ◌∙◌, ◌⊎◌, inl, inr, Bool, true, false, List, [], ◌∷◌, map,
  arith, null, Bool-cases,
}
use binglib.Base.Text.{str_eq_iff, is_empty}
use binglib.Base.Dict.{lookup, index, value_or, index-value, value-index, lookup-insert_self}
use binglib.Base.Effect.{Result, Result-cases, ok}
use binglib.Bitcoin.{Libbitcoin, Transaction}
use binglib.Electrum.{ElectrumInterface, AddressHistoryItem}
use binglib.Converter.{base58_to_spkh_hex}
use binglib.WalletState.{
  WalletState, hex_2_tx, get_transaction, get_history, with_freshness, clear_caches_for_address,
}

module _ {W : Type 0} (lib : Libbitcoin) (electrum : ElectrumInterface W) where
  abbrev cached : WalletState W → String → String
  cached s txid = value_or "" (lookup txid s.txid_to_txhex_cache)

  -- The text behind a returned transaction is in the cache.
  get_transaction-cached :
      (txid : String) (s : WalletState W) (w : W) (tx : Transaction)
      → (get_transaction lib electrum txid (s, w)).0 ≡ ok tx
      → hex_2_tx lib (cached (get_transaction lib electrum txid (s, w)).1.0 txid) ≡ ok tx
  unfolding get_transaction
  get_transaction-cached txid s w tx e =
      elim (Bool-cases (is_empty (index "" txid s.txid_to_txhex_cache).0)) [
        | inl missing ↦ elim (Result-cases (electrum.get_transaction txid w).0) [
          | inl (hex, answer) ↦
              ground (arith, lookup-insert_self txid hex (index "" txid s.txid_to_txhex_cache).1)
          | inr (x, failed) ↦ ground arith
        ]
        | inr known ↦ ground (
          arith,
          index-value "" txid s.txid_to_txhex_cache,
          value-index "" txid txid s.txid_to_txhex_cache,
        )
      ]

  get_transaction_of_cached :
      (txid : String) (s : WalletState W) (w : W) (tx : Transaction)
      → hex_2_tx lib (cached s txid) ≡ ok tx
      → cached s txid ≢ ""
      → ((get_transaction lib electrum txid (s, w)).0 ≡ ok tx)
        × ((get_transaction lib electrum txid (s, w)).1.1 ≡ w)
  unfolding get_transaction
  get_transaction_of_cached txid s w tx e ne =
      ground (arith, index-value "" txid s.txid_to_txhex_cache, str_eq_iff (cached s txid) "")

  -- Once get_transaction has returned a transaction, it returns the same one again with no further
  -- request to the server, provided that the empty text is the text of no transaction.
  pub get_transaction_again :
      (txid : String) (s s' : WalletState W) (w w' w'' : W) (tx : Transaction)
      → ((t : Transaction) → hex_2_tx lib "" ≢ ok t)
      → get_transaction lib electrum txid (s, w) ≡ (ok tx, (s', w'))
      → ((get_transaction lib electrum txid (s', w'')).0 ≡ ok tx)
        × ((get_transaction lib electrum txid (s', w'')).1.1 ≡ w'')
  get_transaction_again txid s s' w w' w'' tx no_empty e =
      let known =
        subst
          (λ (r : Result Transaction × (WalletState W × W)).
            hex_2_tx lib (cached r.1.0 txid) ≡ ok tx)
          e (get_transaction-cached txid s w tx (ap (λ r. r.0) e)) in
      get_transaction_of_cached txid s' w'' tx known
        (λ empty. no_empty tx (ap (hex_2_tx lib) (sym empty) ∙ known))

restale :
    (b : Bool) (items : List AddressHistoryItem)
    → map (with_freshness false) (map (with_freshness b) items) ≡ map (with_freshness false) items
restale b [] = refl
restale b (x ∷ items) = ap (◌∷◌ (with_freshness false x)) (restale b items)

module _ {W : Type 0} (lib : Libbitcoin) (electrum : ElectrumInterface W) where
  abbrev known_empty : WalletState W → String → Bool
  known_empty s a = value_or false (lookup a s.history_cache_empty)

  abbrev stored : WalletState W → String → List AddressHistoryItem
  stored s a = value_or [] (lookup a s.history_cache)

  -- What the caches say of an address whose history `items` was returned.
  abbrev Remembers : String → List AddressHistoryItem → WalletState W → Type 0
  Remembers a items s =
      ((known_empty s a ≡ true) × (items ≡ []))
      ⊎ ((known_empty s a ≡ false)
          × (null (stored s a) ≡ false)
          × (map (with_freshness false) (stored s a) ≡ map (with_freshness false) items))

  get_history-Remembers :
      (a : String) (s : WalletState W) (w : W) (items : List AddressHistoryItem)
      → (get_history lib electrum a [] (s, w)).0 ≡ ok items
      → Remembers a items (get_history lib electrum a [] (s, w)).1.0
  unfolding get_history
  get_history-Remembers a s w items e = elim (Bool-cases (index false a s.history_cache_empty).0) [
    | inl known ↦ ground (
      arith,
      index-value false a s.history_cache_empty,
      value-index false a a s.history_cache_empty,
    )
    | inr unknown ↦ elim (Bool-cases (null (index [] a s.history_cache).0)) [
      | inr cached_before ↦ ground (
        arith,
        index-value false a s.history_cache_empty,
        value-index false a a s.history_cache_empty,
        index-value [] a s.history_cache,
        value-index [] a a s.history_cache,
        restale false (stored s a),
      )
      | inl missing ↦ elim (Result-cases (base58_to_spkh_hex lib a)) [
        | inr (x, failed) ↦ ground arith
        | inl (spkh, converted) ↦ elim (Result-cases (electrum.get_history spkh w).0) [
          | inr (x, failed) ↦ ground arith
          | inl (history, answer) ↦ ground (
            arith,
            index-value false a s.history_cache_empty,
            value-index false a a s.history_cache_empty,
            lookup-insert_self a true (index false a s.history_cache_empty).1,
            lookup-insert_self a (map (with_freshness true) history) (index [] a s.history_cache).1,
            restale true history,
          )
        ]
      ]
    ]
  ]

  get_history_of_Remembers :
      (a : String) (s : WalletState W) (w : W) (items : List AddressHistoryItem)
      → Remembers a items s
      → (get_history lib electrum a [] (s, w)).0 ≡ ok (map (with_freshness false) items)
  unfolding get_history
  get_history_of_Remembers a s w items (inl (known, e)) =
      ground (arith, index-value false a s.history_cache_empty)
  get_history_of_Remembers a s w items (inr (unknown, some_items, same)) =
      ground (arith, index-value false a s.history_cache_empty, index-value [] a s.history_cache)

  world_of_Remembers :
      (a : String) (s : WalletState W) (w : W) (items : List AddressHistoryItem)
      → Remembers a items s
      → (get_history lib electrum a [] (s, w)).1.1 ≡ w
  unfolding get_history
  world_of_Remembers a s w items (inl (known, e)) =
      ground (arith, index-value false a s.history_cache_empty)
  world_of_Remembers a s w items (inr (unknown, some_items, same)) =
      ground (arith, index-value false a s.history_cache_empty, index-value [] a s.history_cache)

  -- Once get_history has returned the history of an address, it returns the same entries again,
  -- marked as not fresh, with no further request to the server. That holds for an empty history
  -- too.
  pub get_history_again :
      (a : String) (s s' : WalletState W) (w w' w'' : W) (items : List AddressHistoryItem)
      → get_history lib electrum a [] (s, w) ≡ (ok items, (s', w'))
      → ((get_history lib electrum a [] (s', w'')).0 ≡ ok (map (with_freshness false) items))
        × ((get_history lib electrum a [] (s', w'')).1.1 ≡ w'')
  get_history_again a s s' w w' w'' items e =
      let remembers =
        subst
          (λ (r : Result (List AddressHistoryItem) × (WalletState W × W)). Remembers a items r.1.0)
          e (get_history-Remembers a s w items (ap (λ r. r.0) e)) in
      (
        get_history_of_Remembers a s' w'' items remembers,
        world_of_Remembers a s' w'' items remembers,
      )

  -- After clear_caches_for_address the next get_history of the address asks the server and
  -- returns what it answers, all marked as fresh, if the address can be converted and the server
  -- answers.
  pub get_history-clear_caches_for_address :
      (a spkh : String) (s : WalletState W) (w : W) (history : List AddressHistoryItem)
      → base58_to_spkh_hex lib a ≡ ok spkh
      → (electrum.get_history spkh w).0 ≡ ok history
      → ((get_history lib electrum a [] (clear_caches_for_address a s, w)).0
          ≡ ok (map (with_freshness true) history))
        × ((get_history lib electrum a [] (clear_caches_for_address a s, w)).1.1
            ≡ (electrum.get_history spkh w).1)
  unfolding get_history clear_caches_for_address
  get_history-clear_caches_for_address a spkh s w history converted answer =
      rw
        (
          lookup-insert_self a false s.history_cache_empty,
          lookup-insert_self a [] s.history_cache,
          converted,
          answer,
        )
        (refl, refl)
