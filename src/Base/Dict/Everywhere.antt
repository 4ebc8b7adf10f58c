-- ===== src/Base/Dict/Everywhere.antt =====
-- Properties of all that a map reads, the default of a missing key included.
use binglib.Base.{String, sym, subst, Bool-cases, inl, inr}
use binglib.Base.Text.{str_eq, str_eq_iff}
use binglib.Base.Dict.{Dict, lookup, insert, index, value_or, value-index, lookup-insert}

module _ {V : Type 0} (P : String → V → Type 0) (d : V) where
  abbrev pub Everywhere : Dict V → Type 0
  Everywhere m = (k : String) → P k (value_or d (lookup k m))

  pub Everywhere-index : (k : String) (m : Dict V) → Everywhere m → Everywhere (index d k m).1
  Everywhere-index k m all j = subst (P j) (sym (value-index d k j m)) (all j)

  pub Everywhere-insert :
      (k : String) (v : V) (m : Dict V) → P k v → Everywhere m → Everywhere (insert k v m)
  Everywhere-insert k v m here all j =
      subst (λ r. P j (value_or d r)) (sym (lookup-insert k j v m))
        (elim (Bool-cases (str_eq k j)) [
          | inl same ↦ rw same (subst (λ t. P t v) ((str_eq_iff k j).0 same) here)
          | inr other ↦ rw other (all j)
        ])
