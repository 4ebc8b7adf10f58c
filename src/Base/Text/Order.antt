-- ===== src/Base/Text/Order.antt =====
-- The order of texts is strict and total.
use Prim.Native.String.{String}
use text.Mathlib.TextEquality.{Char-path}
use mathlib.Core.Path.{ap₂}
use binglib.Base.{ℕ, ◌≡◌, refl, true, false, List, [], ◌∷◌, arith, Bool-cases, inl, inr}
use binglib.Base.Text.{codes, lex_lt, str_lt}

lex_lt_irrefl : (xs : List ℕ) → lex_lt xs xs ≡ false
lex_lt_irrefl [] = refl
lex_lt_irrefl (x ∷ xs) = ground (arith, lex_lt_irrefl xs)

lex_lt_trans : (xs ys zs : List ℕ) → lex_lt xs ys ≡ true → lex_lt ys zs ≡ true → lex_lt xs zs ≡ true
lex_lt_trans xs ys [] h k = cc
lex_lt_trans xs [] (z ∷ zs) h k = cc
lex_lt_trans [] (y ∷ ys) (z ∷ zs) h k = refl
lex_lt_trans (x ∷ xs) (y ∷ ys) (z ∷ zs) h k = ground (arith, lex_lt_trans xs ys zs)

lex_lt-total : (xs ys : List ℕ) → lex_lt xs ys ≡ false → lex_lt ys xs ≡ false → xs ≡ ys
lex_lt-total [] [] h k = refl
lex_lt-total [] (y ∷ ys) h k = cc
lex_lt-total (x ∷ xs) [] h k = cc
lex_lt-total (x ∷ xs) (y ∷ ys) h k = ground (arith, lex_lt-total xs ys)

codes-injective : (s t : String) → codes s ≡ codes t → s ≡ t
codes-injective String.[] String.[] e = refl
codes-injective String.[] (String.◌∷◌ c t) e = cc
codes-injective (String.◌∷◌ c s) String.[] e = cc
codes-injective (String.◌∷◌ c s) (String.◌∷◌ d t) e =
    ap₂ String.◌∷◌ (Char-path c d (cc)) (codes-injective s t (cc))

pub str_lt_irrefl : (s : String) → str_lt s s ≡ false
unfolding str_lt
str_lt_irrefl s = lex_lt_irrefl (codes s)

pub str_lt_trans : (s t u : String) → str_lt s t ≡ true → str_lt t u ≡ true → str_lt s u ≡ true
unfolding str_lt
str_lt_trans s t u = lex_lt_trans (codes s) (codes t) (codes u)

pub str_lt-total : (s t : String) → str_lt s t ≡ false → str_lt t s ≡ false → s ≡ t
unfolding str_lt
str_lt-total s t h k = codes-injective s t (lex_lt-total (codes s) (codes t) h k)

pub str_lt-asymm : (s t : String) → str_lt s t ≡ true → str_lt t s ≡ false
str_lt-asymm s t h = ground (arith, str_lt_trans s t s, str_lt_irrefl s)

-- Of three texts in non-descending order the last is not below the first.
pub str_lt-ge_trans :
    (s t u : String) → str_lt t s ≡ false → str_lt u t ≡ false → str_lt u s ≡ false
str_lt-ge_trans s t u h k = elim (Bool-cases (str_lt s t)) [
  | inl below ↦ ground (arith, str_lt_trans u s t, str_lt-total s t)
  | inr same ↦ ground (arith, str_lt-total s t)
]
