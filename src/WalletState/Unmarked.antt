-- ===== src/WalletState/Unmarked.antt =====
-- Entries of a history without their marks of freshness.
use binglib.Base.{All, String, ◌≡◌, refl, ap, ◌∙◌, List, [], ◌∷◌, map, Bool, false, arith}
use binglib.Electrum.{AddressHistoryItem}
use binglib.WalletState.{
  with_freshness, set_insert, set_insert_all, comes_before, sort_insert, sort_history,
}

-- Entries up to their mark.
abbrev pub unmarked : List AddressHistoryItem → List AddressHistoryItem
unmarked items = map (with_freshness false) items

pub unmarked-with_freshness :
    (b : Bool) (items : List AddressHistoryItem)
    → unmarked (map (with_freshness b) items) ≡ unmarked items
unmarked-with_freshness b [] = refl
unmarked-with_freshness b (x ∷ items) =
    ap (◌∷◌ (with_freshness false x)) (unmarked-with_freshness b items)

pub unmarked-nil : (items : List AddressHistoryItem) → unmarked items ≡ [] → items ≡ []
unmarked-nil [] e = refl
unmarked-nil (x ∷ items) e = cc

-- Neither the set nor the order look at the marks.
unmarked-set_insert :
    (item : AddressHistoryItem) (set : List AddressHistoryItem)
    → unmarked (set_insert item set) ≡ set_insert (with_freshness false item) (unmarked set)
unfolding set_insert
unmarked-set_insert item [] = refl
unmarked-set_insert item (x ∷ set) = ground (arith, unmarked-set_insert item set)

pub unmarked-set_insert_all :
    (items set : List AddressHistoryItem)
    → unmarked (set_insert_all items set) ≡ set_insert_all (unmarked items) (unmarked set)
unmarked-set_insert_all [] set = refl
unmarked-set_insert_all (item ∷ items) set =
    unmarked-set_insert_all items (set_insert item set)
    ∙ ap (set_insert_all (unmarked items)) (unmarked-set_insert item set)

comes_before_unmarked :
    (a b : AddressHistoryItem)
    → comes_before (with_freshness false a) (with_freshness false b) ≡ comes_before a b
unfolding comes_before
comes_before_unmarked a b = refl

unmarked-sort_insert :
    (item : AddressHistoryItem) (items : List AddressHistoryItem)
    → unmarked (sort_insert item items) ≡ sort_insert (with_freshness false item) (unmarked items)
unfolding sort_insert
unmarked-sort_insert item [] = refl
unmarked-sort_insert item (x ∷ items) =
    ground (arith, unmarked-sort_insert item items, comes_before_unmarked x item)

pub unmarked-sort_history :
    (items : List AddressHistoryItem)
    → unmarked (sort_history items) ≡ sort_history (unmarked items)
unfolding sort_history
unmarked-sort_history [] = refl
unmarked-sort_history (item ∷ items) =
    unmarked-sort_insert item (sort_history items)
    ∙ ap (sort_insert (with_freshness false item)) (unmarked-sort_history items)

-- What holds of the transactions of entries does not depend on the marks.
pub All-unmarked :
    (Q : String → Type 0) (items : List AddressHistoryItem)
    → All (λ item. Q item.txid) (unmarked items)
    → All (λ item. Q item.txid) items
All-unmarked Q [] all = tt
All-unmarked Q (item ∷ items) all = (all.0, All-unmarked Q items all.1)

pub unmarked-All :
    (Q : String → Type 0) (items : List AddressHistoryItem)
    → All (λ item. Q item.txid) items
    → All (λ item. Q item.txid) (unmarked items)
unmarked-All Q [] all = tt
unmarked-All Q (item ∷ items) all = (all.0, unmarked-All Q items all.1)
