-- ===== src/WalletState/Stored.antt =====
-- What the bulk requests bring into the caches.
use binglib.Base.{
  ℕ, zero, suc, String, ◌≡◌, refl, ap, ◌∙◌, List, [], ◌∷◌, map, arith, inr, All, get_elem?, drop,
  some,
}
use binglib.Base.Dict.Everywhere.{Everywhere-insert}
use binglib.Base.Effect.{ok}
use binglib.Base.Runs.{Runs, Runs-ok}
use binglib.Bitcoin.{Libbitcoin, Transaction}
use binglib.Electrum.{
  ElectrumInterface, AddressHistory, AddressHistoryItem, ProgressCallback, ProgressEvent,
}
use binglib.Converter.{base58_to_spkh_hex}
use binglib.WalletState.{
  WalletState, txids_of, set_insert_all, push_progress_event, convert_all, store_histories,
  store_txs, store_txhexes, load_txs_bulk,
}
use binglib.WalletState.Unmarked.{unmarked, unmarked-set_insert_all}
use binglib.WalletState.Coherent.{
  IsAnswered, IsCoherent, IsHistory, IsText, IsKept, IsKept-trans, with_texts, with_histories,
  flags_of,
}
use binglib.WalletState.Listing.{gathered, plain, info_of, AreDecoded}

-- What the server says to bulk requests: the same, one answer for each parameter and in their order.
pub record IsAnsweredInBulk {W : Type 0} (electrum : ElectrumInterface W)
    (history : String → AddressHistory) (hex : String → String) : Type 0 where
  pub histories :
      (spkhs : List String) (callbacks : List (ProgressCallback W)) (w : W)
      → (electrum.get_history_bulk spkhs callbacks w).0 ≡ ok (map history spkhs)
  pub txs :
      (txids : List String) (callbacks : List (ProgressCallback W)) (w : W)
      → (electrum.get_transaction_bulk txids callbacks w).0 ≡ ok (map hex txids)

-- The callbacks return.
abbrev pub AllReturn : {W : Type 0} → List (ProgressCallback W) → Type 0
AllReturn {W} callbacks =
    All (λ c. (event : ProgressEvent) (w : W) → (c event w).0 ≡ ok tt) callbacks

pub drop_step :
    {A : Type 0} (i : ℕ) (xs rest : List A) (x : A)
    → drop i xs ≡ x ∷ rest
    → (get_elem? xs i ≡ some x) × (drop (suc i) xs ≡ rest)
drop_step zero [] rest x e = cc
drop_step zero (y ∷ xs) rest x e = (cc, cc)
drop_step (suc i) [] rest x e = cc
drop_step (suc i) (y ∷ xs) rest x e = drop_step i xs rest x e

module _ {W : Type 0} (lib : Libbitcoin) (electrum : ElectrumInterface W) where
  pub push_progress_event-returns :
      (event : ProgressEvent) (callbacks : List (ProgressCallback W)) (s : WalletState W) (w : W)
      → AllReturn callbacks
      → (w' : W) × (push_progress_event lib electrum event callbacks (s, w) ≡ (ok tt, (s, w')))
  unfolding push_progress_event
  push_progress_event-returns event [] s w return = (w, refl)
  push_progress_event-returns event (c ∷ callbacks) s w return =
      let (w', rest) = push_progress_event-returns event callbacks s (c event w).1 return.1 in
      (w', rw (return.0 event w, rest) refl)

  pub convert_all-map :
      (spkh : String → String) (addresses : List String)
      → All (λ a. base58_to_spkh_hex lib a ≡ ok (spkh a)) addresses
      → convert_all lib electrum addresses ≡ ok (map spkh addresses)
  unfolding convert_all
  convert_all-map spkh [] known = refl
  convert_all-map spkh (a ∷ addresses) known =
      ground (arith, known.0, convert_all-map spkh addresses known.1)

module _ {W : Type 0} (lib : Libbitcoin) (electrum : ElectrumInterface W)
    (history : String → AddressHistory) (hex : String → String) (spkh : String → String)
    (tx : String → Transaction) (answered : IsAnswered electrum history hex)
    (in_bulk : IsAnsweredInBulk electrum history hex) where
  pub store_histories-gathered :
      (rest : List String) (i : ℕ) (set : List AddressHistoryItem) (s : WalletState W) (w : W)
      → IsCoherent history hex spkh s
      → drop i s.addresses ≡ rest
      → Runs
          (store_histories lib electrum (map history (map spkh rest)) i set)
          (s, w)
          (λ r s'.
            (unmarked r ≡ gathered history spkh rest (unmarked set))
            × IsKept lib electrum history hex spkh answered s s'.0)
  unfolding store_histories
  store_histories-gathered [] i set s w coherent left =
      Runs-ok _ set refl (refl, record { coherent = coherent; addresses = refl; callbacks = refl })
  store_histories-gathered (a ∷ rest) i set s w coherent left =
      let (here, left') = drop_step i s.addresses rest a left in
      let items = history (spkh a) in
      let kept =
        with_histories lib electrum history hex spkh answered s _ _ coherent
          (Everywhere-insert (IsHistory history hex spkh) [] a items s.history_cache (inr refl)
            coherent.histories)
          (flags_of lib electrum history hex spkh answered a items s.history_cache_empty refl
            coherent.flags) in
      let next =
        store_histories-gathered rest (suc i) (set_insert_all items set) _ w kept.coherent left' in
      Runs-ok _ next.value (rw (here, next.returns) refl) (
        rw (here, next.returns)
          (
            next.ensures.0 ∙ ap (gathered history spkh rest) (unmarked-set_insert_all items set),
            IsKept-trans lib electrum history hex spkh answered kept next.ensures.1,
          ))

  pub store_txs-infos :
      (items : List AddressHistoryItem) (tx_hexes : List String) (i : ℕ) (s : WalletState W) (w : W)
      → IsCoherent history hex spkh s
      → AreDecoded lib hex tx items
      → drop i tx_hexes ≡ map hex (txids_of items)
      → Runs
          (store_txs lib electrum items tx_hexes i)
          (s, w)
          (λ r s'.
            (map plain r ≡ map (info_of tx) items)
            × IsKept lib electrum history hex spkh answered s s'.0)
  unfolding store_txs
  store_txs-infos [] tx_hexes i s w coherent decoded left =
      Runs-ok _ [] refl (refl, record { coherent = coherent; addresses = refl; callbacks = refl })
  store_txs-infos (item ∷ items) tx_hexes i s w coherent decoded left =
      let (here, left') = drop_step i tx_hexes (map hex (txids_of items)) (hex item.txid) left in
      let kept = with_texts lib electrum history hex spkh answered s _ coherent (
        Everywhere-insert (IsText history hex spkh) "" item.txid (hex item.txid)
          s.txid_to_txhex_cache (inr refl) coherent.texts) in
      let rest = store_txs-infos items tx_hexes (suc i) _ w kept.coherent decoded.1 left' in
      Runs-ok _
        (record { tx = tx item.txid; height = item.height; fresh = item.fresh } ∷ rest.value)
        (rw (here, decoded.0.1, rest.returns) refl)
        (rw (here, decoded.0.1, rest.returns)
          (
            cc (rest.ensures.0),
            IsKept-trans lib electrum history hex spkh answered kept rest.ensures.1,
          ))

  store_txhexes-IsKept :
      (txids tx_hexes : List String) (i : ℕ) (s : WalletState W) (w : W)
      → IsCoherent history hex spkh s
      → drop i tx_hexes ≡ map hex txids
      → Runs
          (store_txhexes lib electrum txids tx_hexes i)
          (s, w)
          (λ r s'. IsKept lib electrum history hex spkh answered s s'.0)
  unfolding store_txhexes
  store_txhexes-IsKept [] tx_hexes i s w coherent left =
      Runs-ok _ tt refl (record { coherent = coherent; addresses = refl; callbacks = refl })
  store_txhexes-IsKept (txid ∷ txids) tx_hexes i s w coherent left =
      let (here, left') = drop_step i tx_hexes (map hex txids) (hex txid) left in
      let kept = with_texts lib electrum history hex spkh answered s _ coherent (
        Everywhere-insert (IsText history hex spkh) "" txid (hex txid) s.txid_to_txhex_cache
          (inr refl) coherent.texts) in
      let rest = store_txhexes-IsKept txids tx_hexes (suc i) _ w kept.coherent left' in
      Runs-ok _ tt (rw (here, rest.returns) refl) (
        rw (here, rest.returns)
          (IsKept-trans lib electrum history hex spkh answered kept rest.ensures))

  pub load_txs_bulk-IsKept :
      (txids : List String) (s : WalletState W) (w : W)
      → IsCoherent history hex spkh s
      → Runs
          (load_txs_bulk lib electrum txids)
          (s, w)
          (λ r s'. IsKept lib electrum history hex spkh answered s s'.0)
  unfolding load_txs_bulk
  load_txs_bulk-IsKept txids s w coherent =
      let w' = (electrum.get_transaction_bulk txids s.progress_callbacks w).1 in
      let run = store_txhexes-IsKept txids (map hex txids) 0 s w' coherent refl in
      record {
        value = run.value;
        after = run.after;
        returns = rw (in_bulk.txs txids s.progress_callbacks w) run.returns;
        ensures = run.ensures;
      }
