-- ===== src/WalletState/Histories.antt =====
-- The set of all transactions' entries that a refresh collects.
use mathlib.Core.List.{append-nil}
use binglib.Base.{
  String, ◌≡◌, ◌≢◌, refl, sym, subst, ap, ◌∙◌, ◌⊎◌, inl, inr, true, Option, none, some, List, [],
  ◌∷◌, ◌++◌, arith, if◌then◌else◌, Bool-cases, All,
}
use binglib.Base.Text.{str_eq, str_eq_iff, str_lt}
use binglib.Base.Text.Order.{str_lt_irrefl, str_lt_trans, str_lt-total}
use binglib.Base.Effect.{Exception, Result-cases, ok, err}
use binglib.Bitcoin.{Libbitcoin}
use binglib.Electrum.{ElectrumInterface, AddressHistoryItem}
use binglib.WalletState.{
  WalletState, set_insert, set_insert_all, get_history, gather_history, refresh_all_history,
}

-- The first entry of a transaction.
abbrev pub find_item : String → List AddressHistoryItem → Option AddressHistoryItem
find_item txid [] = none
find_item txid (item ∷ items) = if str_eq item.txid txid then some item else find_item txid items

-- The txids ascend strictly, so no transaction has two entries.
abbrev pub IsAscending : List AddressHistoryItem → Type 0
IsAscending [] = Unit {0}
IsAscending (a ∷ items) = All (λ b. str_lt a.txid b.txid ≡ true) items × IsAscending items

All-below :
    (a b : AddressHistoryItem) (items : List AddressHistoryItem)
    → str_lt a.txid b.txid ≡ true
    → All (λ c. str_lt b.txid c.txid ≡ true) items
    → All (λ c. str_lt a.txid c.txid ≡ true) items
All-below a b [] h all = tt
All-below a b (c ∷ items) h all =
    (str_lt_trans a.txid b.txid c.txid h all.0, All-below a b items h all.1)

pub All-set_insert :
    (P : AddressHistoryItem → Type 0) (item : AddressHistoryItem) (set : List AddressHistoryItem)
    → P item
    → All P set
    → All P (set_insert item set)
unfolding set_insert
All-set_insert P item [] h all = (h, tt)
All-set_insert P item (x ∷ set) h all = elim (Bool-cases (str_lt item.txid x.txid)) [
  | inl below ↦ rw below (h, all)
  | inr above ↦ elim (Bool-cases (str_lt x.txid item.txid)) [
    | inl later ↦ rw (above, later) (all.0, All-set_insert P item set h all.1)
    | inr same ↦ rw (above, same) all
  ]
]

set_insert-IsAscending :
    (item : AddressHistoryItem) (set : List AddressHistoryItem)
    → IsAscending set
    → IsAscending (set_insert item set)
unfolding set_insert
set_insert-IsAscending item [] ascending = (tt, tt)
set_insert-IsAscending item (x ∷ xs) ascending = elim (Bool-cases (str_lt item.txid x.txid)) [
  | inl below ↦ rw below ((below, All-below item x xs below ascending.0), ascending)
  | inr above ↦ elim (Bool-cases (str_lt x.txid item.txid)) [
    | inl later ↦
        rw (above, later)
          (
            All-set_insert (λ c. str_lt x.txid c.txid ≡ true) item xs later ascending.0,
            set_insert-IsAscending item xs ascending.1,
          )
    | inr same ↦ rw (above, same) ascending
  ]
]

-- An entry that is there stays; else the new one is found.
abbrev pub or_item :
    String → AddressHistoryItem → Option AddressHistoryItem → Option AddressHistoryItem
or_item txid item none = if str_eq item.txid txid then some item else none
or_item txid item (some x) = some x

abbrev pub or_else :
    Option AddressHistoryItem → Option AddressHistoryItem → Option AddressHistoryItem
or_else none other = other
or_else (some x) other = some x

find_item-above :
    (txid : String) (items : List AddressHistoryItem)
    → All (λ c. str_lt txid c.txid ≡ true) items
    → find_item txid items ≡ none
find_item-above txid [] all = refl
find_item-above txid (c ∷ items) all = ground (
  arith,
  str_eq_iff c.txid txid,
  str_lt_irrefl txid,
  ap (str_lt txid),
  find_item-above txid items all.1,
)

front_item :
    (txid : String) (item : AddressHistoryItem) (items : List AddressHistoryItem)
    → All (λ c. str_lt item.txid c.txid ≡ true) items
    → find_item txid (item ∷ items) ≡ or_item txid item (find_item txid items)
front_item txid item items above = elim (Bool-cases (str_eq item.txid txid)) [
  | inl same ↦
      let here = (str_eq_iff item.txid txid).0 same in
      let above' = subst (λ t. All (λ c. str_lt t c.txid ≡ true) items) here above in
      rw (same, find_item-above txid items above') (rw same refl)
  | inr other ↦ ground (arith, other)
]

same_item :
    (txid : String) (item x : AddressHistoryItem) (items : List AddressHistoryItem)
    → item.txid ≡ x.txid
    → find_item txid (x ∷ items) ≡ or_item txid item (find_item txid (x ∷ items))
same_item txid item x items same = elim (Bool-cases (str_eq x.txid txid)) [
  | inl hit ↦ rw hit refl
  | inr miss ↦ ground (arith, same, miss)
]

str_lt-distinct : (s t : String) → str_lt s t ≡ true → s ≢ t
str_lt-distinct s t h e = ground (arith, str_lt_irrefl t, ap (λ u. str_lt u t) e)

behind_item :
    (txid : String) (item x : AddressHistoryItem) (items items' : List AddressHistoryItem)
    → x.txid ≢ item.txid
    → find_item txid items' ≡ or_item txid item (find_item txid items)
    → find_item txid (x ∷ items') ≡ or_item txid item (find_item txid (x ∷ items))
behind_item txid item x items items' ne rest = elim (Bool-cases (str_eq x.txid txid)) [
  | inl hit ↦ rw hit refl
  | inr miss ↦ rw miss rest
]

pub find_item-append :
    (txid : String) (xs ys : List AddressHistoryItem)
    → find_item txid (xs ++ ys) ≡ or_else (find_item txid xs) (find_item txid ys)
find_item-append txid [] ys = refl
find_item-append txid (x ∷ xs) ys = ground (arith, find_item-append txid xs ys)

find_item-set_insert :
    (txid : String) (item : AddressHistoryItem) (set : List AddressHistoryItem)
    → IsAscending set
    → find_item txid (set_insert item set) ≡ or_item txid item (find_item txid set)
unfolding set_insert
find_item-set_insert txid item [] ascending = refl
find_item-set_insert txid item (x ∷ xs) ascending = elim (Bool-cases (str_lt item.txid x.txid)) [
  | inl below ↦
      rw below (front_item txid item (x ∷ xs) (below, All-below item x xs below ascending.0))
  | inr above ↦ elim (Bool-cases (str_lt x.txid item.txid)) [
    | inl later ↦
        rw (above, later)
          (behind_item txid item x xs (set_insert item xs) (str_lt-distinct x.txid item.txid later)
            (find_item-set_insert txid item xs ascending.1))
    | inr same ↦
        rw (above, same) (same_item txid item x xs (str_lt-total item.txid x.txid above same))
  ]
]

-- A whole history, inserted entry by entry into an ascending set, leaves the set ascending; an
-- entry that was in the set for a transaction stays, and a transaction new to the set gets the
-- first of its entries.
pub set_insert_all-find_item :
    (items set : List AddressHistoryItem)
    → IsAscending set
    → IsAscending (set_insert_all items set)
      × ((txid : String)
          → find_item txid (set_insert_all items set) ≡ find_item txid (set ++ items))
set_insert_all-find_item [] set ascending =
    (ascending, λ txid. ap (find_item txid) (sym (append-nil set)))
set_insert_all-find_item (item ∷ items) set ascending =
    let next =
      set_insert_all-find_item items (set_insert item set)
        (set_insert-IsAscending item set ascending) in
    (
      next.0,
      λ txid.
          next.1 txid
          ∙ find_item-append txid (set_insert item set) items
          ∙ ground (
            arith,
            find_item-set_insert txid item set ascending,
            find_item-append txid set (item ∷ items),
          ),
    )

module _ {W : Type 0} (lib : Libbitcoin) (electrum : ElectrumInterface W) where
  gather_history-IsAscending :
      (addresses : List String) (set r : List AddressHistoryItem) (s : WalletState W × W)
      → IsAscending set
      → (gather_history lib electrum addresses set s).0 ≡ ok r
      → IsAscending r
  unfolding gather_history
  gather_history-IsAscending [] set r s ascending e =
      let same : set ≡ r = cc in rw (← same) ascending
  gather_history-IsAscending (a ∷ addresses) set r s ascending e =
      elim (Result-cases (get_history lib electrum a [] s).0) [
        | inl (items, answer) ↦
            gather_history-IsAscending addresses (set_insert_all items set) r
              (get_history lib electrum a [] s).1 (set_insert_all-find_item items set ascending).0
              (rw answer at e)
        | inr (x, failed) ↦ let e' = rw failed at e in cc
      ]

  -- refresh_all_history throws, or it leaves all_history_ strictly ascending by transaction id, so
  -- that no transaction is in it twice, even if it concerns several addresses of the wallet.
  pub refresh_all_history-IsAscending :
      (s : WalletState W) (w : W)
      → ((refresh_all_history lib electrum (s, w)).0 ≡ ok tt
          × IsAscending (refresh_all_history lib electrum (s, w)).1.0.all_history)
        ⊎ ((x : Exception) × ((refresh_all_history lib electrum (s, w)).0 ≡ err x))
  unfolding refresh_all_history
  refresh_all_history-IsAscending s w =
      elim (Result-cases (gather_history lib electrum s.addresses [] (s, w)).0) [
        | inl (set, gathered) ↦
            inl
              (rw gathered (refl, gather_history-IsAscending s.addresses [] set (s, w) tt gathered))
        | inr (x, failed) ↦ inr (x, rw failed refl)
      ]
