-- ===== src/Json.antt =====
-- nlohmann::json, which is not part of the repository: its operations that the program uses, over the
-- type `J` of JSON values, with the exceptions that they throw. What a theorem needs of them is a law of
-- JsonLaws, or a hypothesis of its own.
pub mod Samples
use binglib.Base.{ℕ, String, ◌≡◌, ◌≤◌, Bool, true, false, Option, some, List}
use binglib.Base.Int.{ℤ, IsInt}
use binglib.Base.Dict.{Dict, lookup}
use binglib.Base.Effect.{Exception, Result, ok}
use binglib.Bitcoin.{Bytes}

pub record JsonLibrary (J : Type 0) : Type 0 where
  -- json(), and the values that the initialisers make
  pub null : J
  pub string : String → J
  pub number : ℤ → J
  pub strings : List String → J
  pub array : List J → J
  pub object : Dict J → J
  -- j.at(key), and j[key] on a json that is not const: its value, and `j` afterwards, to which a key
  -- that is missing has been added
  pub at : String → J → Result J
  pub index : String → J → Result (J × J)
  -- the values of j.items()
  pub items : J → List J
  pub is_null : J → Bool
  pub is_empty : J → Bool
  -- j.get_to(x), by the type of x
  pub get_string : J → Result String
  pub get_int : J → Result ℤ
  pub get_long : J → Result ℤ
  pub get_uint32 : J → Result ℕ
  pub get_uint64 : J → Result ℕ
  pub get_strings : J → Result (List String)
  pub dump : J → String
  -- json::parse, `none` for a parse_error
  pub parse : Bytes → Option J
  -- what() of an exception
  pub what : Exception → String

-- The documented behaviour of objects, of the values in them and of null.
pub record JsonLaws {J : Type 0} (json : JsonLibrary J) : Type 0 where
  pub at-object :
      (key : String) (fields : Dict J) (value : J)
      → lookup key fields ≡ some value
      → json.at key (json.object fields) ≡ ok value
  pub get_string-string : (s : String) → json.get_string (json.string s) ≡ ok s
  pub get_int-number : (n : ℤ) → IsInt n → json.get_int (json.number n) ≡ ok n
  pub get_strings-strings : (ss : List String) → json.get_strings (json.strings ss) ≡ ok ss
