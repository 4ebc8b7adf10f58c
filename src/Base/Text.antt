-- ===== src/Base/Text.antt =====
-- Texts: std::string is compared for equality and, as a txid, by its lexicographic order.
pub mod Order
use Prim.Native.Nat.{compare, Ordering}
use Prim.Native.Char.{code}
use Prim.Native.String.{◌++◌ as str_append}
use text.Mathlib.Text.{◌==◌ as str_beq}
use text.Mathlib.TextEquality.{eq_iff}
use binglib.Base.Int.{ℤ, pos, negsuc}
use binglib.Base.{
  get_or, zero, suc, ◌/◌, ◌%◌, ltb, if◌then◌else◌, ℕ, String, ◌≡◌, Bool, true, false, ◌||◌, List,
  [], ◌∷◌,
}

abbrev pub str_eq : String → String → Bool
str_eq = str_beq

pub str_eq_iff : (s t : String) → ((str_eq s t ≡ true) → s ≡ t) × (s ≡ t → str_eq s t ≡ true)
str_eq_iff s t = eq_iff s t

-- s + t
abbrev pub concat : String → String → String
concat = str_append

abbrev pub is_empty : String → Bool
is_empty s = str_eq s ""

-- The characters of a text, as numbers.
abbrev pub codes : String → List ℕ
codes String.[] = []
codes (String.◌∷◌ c s) = code c ∷ codes s

abbrev pub lex_lt : List ℕ → List ℕ → Bool
lex_lt xs [] = false
lex_lt [] (y ∷ ys) = true
lex_lt (x ∷ xs) (y ∷ ys) = elim (compare x y) [
  | Ordering.lt ↦ true
  | Ordering.eq ↦ lex_lt xs ys
  | Ordering.gt ↦ false
]

-- std::string's operator<
unfoldable pub str_lt : String → String → Bool
str_lt s t = lex_lt (codes s) (codes t)

-- std::find over texts, as a test
abbrev pub contains : String → List String → Bool
contains s [] = false
contains s (t ∷ ts) = str_eq t s || contains s ts

-- Texts written one after another to a stream.
abbrev pub written : List String → String
written [] = ""
written (s ∷ ss) = concat s (written ss)

abbrev pub digit : ℕ → String
digit n = get_or ("0" ∷ "1" ∷ "2" ∷ "3" ∷ "4" ∷ "5" ∷ "6" ∷ "7" ∷ "8" ∷ "9" ∷ []) n ""

pub decimal_digits : ℕ → ℕ → String
decimal_digits zero n = ""
decimal_digits (suc fuel) n =
    let more = concat (decimal_digits fuel (n / 10)) (digit (n % 10)) in
    if ltb n 10 then digit n else more

-- A uint64_t in decimal: it has 20 digits at most.
unfoldable pub decimal : ℕ → String
unfolding decimal_digits
decimal n = decimal_digits 20 n

-- to_string of an int
abbrev pub signed_decimal : ℤ → String
signed_decimal (pos n) = decimal n
signed_decimal (negsuc n) = concat "-" (decimal (suc n))

-- s.substr(1) of a text that is not empty
abbrev pub tail : String → String
tail String.[] = String.[]
tail (String.◌∷◌ c s) = s
