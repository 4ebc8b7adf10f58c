-- ===== src/WalletState/Coherent.antt =====
-- The caches against a server whose answers do not change: what a method returns is what the server says,
-- whatever the caches hold already.
use binglib.Base.{
  if◌then◌else◌, String, ◌≡◌, refl, sym, ap, ◌∙◌, subst, ◌⊎◌, inl, inr, Bool, true, false, List, [],
  ◌∷◌, map, null, arith, Bool-cases,
}
use binglib.Base.Text.{is_empty, str_eq_iff}
use binglib.Base.Dict.{Dict, index, insert, index-value}
use binglib.Base.Dict.Everywhere.{Everywhere, Everywhere-index, Everywhere-insert}
use binglib.Base.Effect.{ok}
use binglib.Base.Runs.{Runs, Runs-ok}
use binglib.Bitcoin.{Libbitcoin, Transaction}
use binglib.Electrum.{ElectrumInterface, AddressHistory, AddressHistoryItem}
use binglib.Converter.{base58_to_spkh_hex}
use binglib.WalletState.Unmarked.{unmarked, unmarked-with_freshness, unmarked-nil}
use binglib.WalletState.{WalletState, hex_2_tx, get_transaction, get_history, with_freshness}

-- What the server says of each script hash and of each transaction, at any time.
pub record IsAnswered {W : Type 0} (electrum : ElectrumInterface W)
    (history : String → AddressHistory) (hex : String → String) : Type 0 where
  pub histories : (spkh : String) (w : W) → (electrum.get_history spkh w).0 ≡ ok (history spkh)
  pub txs :
      (txid : String) (w : W)
      → is_empty txid ≡ false
      → (electrum.get_transaction txid w).0 ≡ ok (hex txid)

-- An id that is not empty, and a text that can be decoded.
abbrev pub IsDecoded : Libbitcoin → (String → String) → (String → Transaction) → String → Type 0
IsDecoded lib hex tx txid = (is_empty txid ≡ false) × (hex_2_tx lib (hex txid) ≡ ok (tx txid))

module _ (history : String → AddressHistory) (hex : String → String) (spkh : String → String) where
  abbrev pub IsText : String → String → Type 0
  IsText txid tx_hex = (tx_hex ≡ "") ⊎ (tx_hex ≡ hex txid)

  abbrev pub IsHistory : String → List AddressHistoryItem → Type 0
  IsHistory a items = (items ≡ []) ⊎ (unmarked items ≡ unmarked (history (spkh a)))

  abbrev pub IsFlag : String → Bool → Type 0
  IsFlag a known_empty = (known_empty ≡ false) ⊎ (history (spkh a) ≡ [])

  -- The caches hold nothing but what the server says.
  pub record IsCoherent {W : Type 0} (s : WalletState W) : Type 0 where
    pub texts : Everywhere IsText "" s.txid_to_txhex_cache
    pub histories : Everywhere IsHistory [] s.history_cache
    pub flags : Everywhere IsFlag false s.history_cache_empty

module _ {W : Type 0} (lib : Libbitcoin) (electrum : ElectrumInterface W)
    (history : String → AddressHistory) (hex : String → String) (spkh : String → String)
    (answered : IsAnswered electrum history hex) where
  -- What a method leaves: coherent caches, and the wallet's addresses and callbacks as they were.
  pub record IsKept (before after : WalletState W) : Type 0 where
    pub coherent : IsCoherent history hex spkh after
    pub addresses : after.addresses ≡ before.addresses
    pub callbacks : after.progress_callbacks ≡ before.progress_callbacks

  pub with_texts :
      (s : WalletState W) (texts : Dict String)
      → IsCoherent history hex spkh s
      → Everywhere (IsText history hex spkh) "" texts
      → IsKept s (record s { txid_to_txhex_cache = texts })
  with_texts s texts coherent fine = record {
    coherent = record { texts = fine; histories = coherent.histories; flags = coherent.flags };
    addresses = refl;
    callbacks = refl;
  }

  pub with_histories :
      (s : WalletState W) (histories : Dict (List AddressHistoryItem)) (flags : Dict Bool)
      → IsCoherent history hex spkh s
      → Everywhere (IsHistory history hex spkh) [] histories
      → Everywhere (IsFlag history hex spkh) false flags
      → IsKept s (record s { history_cache = histories; history_cache_empty = flags })
  with_histories s histories flags coherent fine fine' = record {
    coherent = record { texts = coherent.texts; histories = fine; flags = fine' };
    addresses = refl;
    callbacks = refl;
  }

  read_text :
      (txid : String) (s : WalletState W)
      → IsCoherent history hex spkh s
      → IsText history hex spkh txid (index "" txid s.txid_to_txhex_cache).0
  read_text txid s coherent =
      subst (IsText history hex spkh txid) (sym (index-value "" txid s.txid_to_txhex_cache))
        (coherent.texts txid)

  pub get_transaction-IsCoherent :
      (tx : String → Transaction) (txid : String) (s : WalletState W) (w : W)
      → IsCoherent history hex spkh s
      → IsDecoded lib hex tx txid
      → Runs (get_transaction lib electrum txid) (s, w) (λ r s'. (r ≡ tx txid) × IsKept s s'.0)
  unfolding get_transaction
  get_transaction-IsCoherent tx txid s w coherent (nonempty, decoded) =
      let cache = index "" txid s.txid_to_txhex_cache in
      let cached =
        Everywhere-index (IsText history hex spkh) "" txid s.txid_to_txhex_cache coherent.texts in
      elim (Bool-cases (is_empty cache.0)) [
        | inl missing ↦
            let asked =
              Everywhere-insert (IsText history hex spkh) "" txid (hex txid) cache.1 (inr refl)
                cached in
            Runs-ok _ (tx txid) (rw (missing, answered.txs txid w nonempty) decoded)
              (rw (missing, answered.txs txid w nonempty) (refl, with_texts s _ coherent asked))
        | inr known ↦ elim (read_text txid s coherent) [
          | inl unset ↦ absurd (ground (arith, unset, known, str_eq_iff cache.0 ""))
          | inr same ↦
              Runs-ok _ (tx txid) (rw (known, same) decoded)
                (rw known (refl, with_texts s _ coherent cached))
        ]
      ]

  read-IsFlag :
      (a : String) (s : WalletState W)
      → IsCoherent history hex spkh s
      → IsFlag history hex spkh a (index false a s.history_cache_empty).0
  read-IsFlag a s coherent =
      subst (IsFlag history hex spkh a) (sym (index-value false a s.history_cache_empty))
        (coherent.flags a)

  read_items :
      (a : String) (s : WalletState W)
      → IsCoherent history hex spkh s
      → IsHistory history hex spkh a (index [] a s.history_cache).0
  read_items a s coherent =
      subst (IsHistory history hex spkh a) (sym (index-value [] a s.history_cache))
        (coherent.histories a)

  -- The flags after write_empty.
  pub flags_of :
      (a : String) (items : List AddressHistoryItem) (flags : Dict Bool)
      → unmarked items ≡ unmarked (history (spkh a))
      → Everywhere (IsFlag history hex spkh) false flags
      → Everywhere
          (IsFlag history hex spkh)
          false
          (if null items then insert a true flags else flags)
  flags_of a [] flags same fine =
      Everywhere-insert (IsFlag history hex spkh) false a true flags
        (inr (unmarked-nil (history (spkh a)) (sym same))) fine
  flags_of a (x ∷ items) flags same fine = fine

  pub get_history-IsCoherent :
      (a : String) (s : WalletState W) (w : W)
      → IsCoherent history hex spkh s
      → base58_to_spkh_hex lib a ≡ ok (spkh a)
      → Runs
          (get_history lib electrum a [])
          (s, w)
          (λ r s'. (unmarked r ≡ unmarked (history (spkh a))) × IsKept s s'.0)
  unfolding get_history
  get_history-IsCoherent a s w coherent converted =
      let flag = index false a s.history_cache_empty in
      let cache = index [] a s.history_cache in
      let flags =
        Everywhere-index (IsFlag history hex spkh) false a s.history_cache_empty coherent.flags in
      let histories =
        Everywhere-index (IsHistory history hex spkh) [] a s.history_cache coherent.histories in
      elim (Bool-cases flag.0) [
        | inl known_empty ↦ elim (read-IsFlag a s coherent) [
          | inl unset ↦ let wrong = sym unset ∙ known_empty in cc
          | inr none_there ↦ Runs-ok _ [] (rw known_empty refl) (
              rw known_empty (
                ap unmarked (sym none_there),
                with_histories s s.history_cache flag.1 coherent coherent.histories flags,
              ))
        ]
        | inr unknown ↦ elim (Bool-cases (null cache.0)) [
          | inl missing ↦
              let items = map (with_freshness true) (history (spkh a)) in
              let same = unmarked-with_freshness true (history (spkh a)) in
              Runs-ok _ items (rw (unknown, missing, converted, answered.histories (spkh a) w) refl)
                (rw (unknown, missing, converted, answered.histories (spkh a) w)
                  (
                    same,
                    with_histories s _ _ coherent
                        (Everywhere-insert (IsHistory history hex spkh) [] a items cache.1
                          (inr same) histories)
                        (flags_of a items flag.1 same flags),
                  ))
          | inr some_items ↦ elim (read_items a s coherent) [
            | inl unset ↦ let wrong = ap null (sym unset) ∙ some_items in cc
            | inr same ↦
                Runs-ok _ (map (with_freshness false) cache.0) (rw (unknown, some_items) refl) (
                  rw (unknown, some_items)
                    (
                      unmarked-with_freshness false cache.0 ∙ same,
                      with_histories s cache.1 flag.1 coherent histories flags,
                    ))
          ]
        ]
      ]

  pub IsKept-trans : {s t u : WalletState W} → IsKept s t → IsKept t u → IsKept s u
  IsKept-trans st tu = record {
    coherent = tu.coherent;
    addresses = tu.addresses ∙ st.addresses;
    callbacks = tu.callbacks ∙ st.callbacks;
  }
