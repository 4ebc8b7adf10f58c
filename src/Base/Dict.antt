-- ===== src/Base/Dict.antt =====
-- std::map with texts for keys, as an association list.
pub mod Everywhere
use binglib.Base.{String, ◌≡◌, refl, Option, none, some, List, [], ◌∷◌, arith, if◌then◌else◌}
use binglib.Base.Text.{str_eq, str_eq_iff}

abbrev pub Dict {ℓ} : Type ℓ → Type ℓ
Dict V = List (String × V)

module _ {ℓ} {V : Type ℓ} where
  abbrev pub lookup : String → Dict V → Option V
  lookup k [] = none
  lookup k ((j, v) ∷ m) = if str_eq j k then some v else lookup k m

  -- m[k] = v
  abbrev pub insert : String → V → Dict V → Dict V
  insert k v [] = (k, v) ∷ []
  insert k v ((j, w) ∷ m) = if str_eq j k then (k, v) ∷ m else (j, w) ∷ insert k v m

  abbrev index_found : V → String → Dict V → Option V → V × Dict V
  index_found d k m none = (d, insert k d m)
  index_found d k m (some v) = (v, m)

  -- m[k] as a value: operator[] inserts the default of a missing key.
  abbrev pub index : V → String → Dict V → V × Dict V
  index d k m = index_found d k m (lookup k m)

  pub lookup-insert :
      (k j : String) (v : V) (m : Dict V)
      → lookup j (insert k v m) ≡ (if str_eq k j then some v else lookup j m)
  lookup-insert k j v [] = refl
  lookup-insert k j v ((i, w) ∷ m) =
      ground (arith, str_eq_iff k j, str_eq_iff i k, str_eq_iff i j, lookup-insert k j v m)

  pub lookup-insert_self : (k : String) (v : V) (m : Dict V) → lookup k (insert k v m) ≡ some v
  lookup-insert_self k v m = ground (arith, str_eq_iff k k, lookup-insert k k v m)

  -- What m[k] reads, whether or not it has to insert.
  abbrev pub value_or : V → Option V → V
  value_or d none = d
  value_or d (some v) = v

  pub index-value : (d : V) (k : String) (m : Dict V) → (index d k m).0 ≡ value_or d (lookup k m)
  index-value d k m = ground arith

  -- Reading by m[k] changes no value.
  pub value-index :
      (d : V) (k j : String) (m : Dict V)
      → value_or d (lookup j (index d k m).1) ≡ value_or d (lookup j m)
  value-index d k j m = ground (arith, str_eq_iff k j, lookup-insert k j d m)
