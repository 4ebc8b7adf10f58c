-- ===== src/WalletState/Sorting.antt =====
-- The order in which the wallet lists its transactions.
use mathlib.Core.List.{Perm}
use mathlib.Core.List.Perm
use binglib.Base.{◌≡◌, ◌≢◌, sym, ◌⊎◌, inl, inr, true, false, List, [], ◌∷◌, arith, Bool-cases, All}
use binglib.Base.Int.{ℤ, pos, ltb_ℤ, eqb_ℤ, eq_of_parts}
use binglib.Base.Text.{str_lt}
use binglib.Base.Text.Order.{str_lt_irrefl, str_lt-asymm, str_lt-ge_trans}
use binglib.Electrum.{AddressHistoryItem}
use binglib.WalletState.{comes_before, sort_insert, sort_history}

-- The comparison is a strict weak order, which is what std::sort requires.
comes_before_irrefl : (a : AddressHistoryItem) → comes_before a a ≡ false
unfolding comes_before
comes_before_irrefl a = ground (arith, str_lt_irrefl a.txid)

comes_before-asymm : (a b : AddressHistoryItem) → comes_before a b ≡ true → comes_before b a ≡ false
unfolding comes_before
comes_before-asymm a b h = ground (arith, str_lt-asymm b.txid a.txid)

comes_before-ge_trans :
    (a b c : AddressHistoryItem)
    → comes_before b a ≡ false
    → comes_before c b ≡ false
    → comes_before c a ≡ false
unfolding comes_before
comes_before-ge_trans a b c h k = ground (arith, str_lt-ge_trans c.txid b.txid a.txid)

-- No entry comes before one that stands in front of it.
abbrev IsSorted : List AddressHistoryItem → Type 0
IsSorted [] = Unit {0}
IsSorted (a ∷ items) = All (λ b. comes_before b a ≡ false) items × IsSorted items

All-ge_trans :
    (a b : AddressHistoryItem) (items : List AddressHistoryItem)
    → comes_before b a ≡ false
    → All (λ c. comes_before c b ≡ false) items
    → All (λ c. comes_before c a ≡ false) items
All-ge_trans a b [] h all = tt
All-ge_trans a b (c ∷ items) h all =
    (comes_before-ge_trans a b c h all.0, All-ge_trans a b items h all.1)

All-sort_insert :
    (P : AddressHistoryItem → Type 0) (item : AddressHistoryItem) (items : List AddressHistoryItem)
    → P item
    → All P items
    → All P (sort_insert item items)
unfolding sort_insert
All-sort_insert P item [] h all = (h, tt)
All-sort_insert P item (x ∷ items) h all = elim (Bool-cases (comes_before x item)) [
  | inl first ↦ rw first (all.0, All-sort_insert P item items h all.1)
  | inr later ↦ rw later (h, all)
]

pub All-sort_history :
    (P : AddressHistoryItem → Type 0) (items : List AddressHistoryItem)
    → All P items
    → All P (sort_history items)
unfolding sort_history
All-sort_history P [] all = tt
All-sort_history P (item ∷ items) all =
    All-sort_insert P item (sort_history items) all.0 (All-sort_history P items all.1)

sort_insert-IsSorted :
    (item : AddressHistoryItem) (items : List AddressHistoryItem)
    → IsSorted items
    → IsSorted (sort_insert item items)
unfolding sort_insert
sort_insert-IsSorted item [] sorted = (tt, tt)
sort_insert-IsSorted item (x ∷ items) sorted = elim (Bool-cases (comes_before x item)) [
  | inl first ↦ rw first (
    All-sort_insert (λ c. comes_before c x ≡ false) item items (comes_before-asymm x item first)
        sorted.0,
    sort_insert-IsSorted item items sorted.1,
  )
  | inr later ↦ rw later ((later, All-ge_trans item x items later sorted.0), sorted)
]

sort_insert-perm :
    (item : AddressHistoryItem) (items : List AddressHistoryItem)
    → Perm (sort_insert item items) (item ∷ items)
unfolding sort_insert
sort_insert-perm item [] = Perm.refl _
sort_insert-perm item (x ∷ items) = elim (Bool-cases (comes_before x item)) [
  | inl first ↦
      rw first (Perm.trans (Perm.cons x (sort_insert-perm item items)) (Perm.swap item x items))
  | inr later ↦ rw later (Perm.refl _)
]

-- `a` may stand in front of `b`: entries without a height come first, then the others by falling
-- height, and entries of one height by falling txid.
abbrev pub InOrder : AddressHistoryItem → AddressHistoryItem → Type 0
InOrder a b =
    ((a.height ≡ pos 0) × (b.height ≢ pos 0))
    ⊎ (((a.height ≢ pos 0) × (b.height ≢ pos 0) × (ltb_ℤ b.height a.height ≡ true))
        ⊎ ((a.height ≡ b.height) × (str_lt a.txid b.txid ≡ false)))

abbrev pub AllInOrder : List AddressHistoryItem → Type 0
AllInOrder [] = Unit {0}
AllInOrder (a ∷ items) = All (InOrder a) items × AllInOrder items

eqb_ℤ-cases : (i j : ℤ) → ((i ≡ j) × (eqb_ℤ i j ≡ true)) ⊎ ((i ≢ j) × (eqb_ℤ i j ≡ false))
eqb_ℤ-cases i j = elim (Bool-cases (eqb_ℤ i j)) [
  | inl e ↦ inl (eq_of_parts i j (ground (arith, e)), e)
  | inr e ↦ inr (λ same. let e' = rw same at e in ground (arith, e'), e)
]

ltb_ℤ-total : (i j : ℤ) → i ≢ j → ltb_ℤ i j ≡ false → ltb_ℤ j i ≡ true
ltb_ℤ-total i j ne h = ground (arith, eq_of_parts i j)

comes_before-InOrder : (a b : AddressHistoryItem) → comes_before b a ≡ false → InOrder a b
unfolding comes_before
comes_before-InOrder a b h = elim (eqb_ℤ-cases b.height a.height) [
  | inl (same, e) ↦ inr (inr (sym same, ground (arith, e)))
  | inr (other, e) ↦ elim (eqb_ℤ-cases b.height (pos 0)) [
    | inl (unset, e') ↦ absurd (ground (arith, e, e'))
    | inr (set, e') ↦ elim (eqb_ℤ-cases a.height (pos 0)) [
      | inl (first, _) ↦ inl (first, set)
      | inr (later, e'') ↦ inr (
          inl (
            later,
            set,
            ltb_ℤ-total a.height b.height (λ s. other (sym s)) (ground (arith, e, e', e'')),
          ))
    ]
  ]
]

All-InOrder :
    (a : AddressHistoryItem) (items : List AddressHistoryItem)
    → All (λ b. comes_before b a ≡ false) items
    → All (InOrder a) items
All-InOrder a [] all = tt
All-InOrder a (b ∷ items) all = (comes_before-InOrder a b all.0, All-InOrder a items all.1)

IsSorted-AllInOrder : (items : List AddressHistoryItem) → IsSorted items → AllInOrder items
IsSorted-AllInOrder [] sorted = tt
IsSorted-AllInOrder (a ∷ items) sorted =
    (All-InOrder a items sorted.0, IsSorted-AllInOrder items sorted.1)

sort_history-IsSorted :
    (items : List AddressHistoryItem)
    → IsSorted (sort_history items) × Perm (sort_history items) items
unfolding sort_history
sort_history-IsSorted [] = (tt, Perm.refl [])
sort_history-IsSorted (item ∷ items) =
    let (sorted, perm) = sort_history-IsSorted items in
    (
      sort_insert-IsSorted item (sort_history items) sorted,
      Perm.trans (sort_insert-perm item (sort_history items)) (Perm.cons item perm),
    )

-- sort_all_history rearranges the entries so that of any two, those without a height come first,
-- then the others by falling height, and entries of one height stand by falling txid.
pub sort_history-AllInOrder :
    (items : List AddressHistoryItem)
    → AllInOrder (sort_history items) × Perm (sort_history items) items
sort_history-AllInOrder items =
    let (sorted, perm) = sort_history-IsSorted items in
    (IsSorted-AllInOrder (sort_history items) sorted, perm)
