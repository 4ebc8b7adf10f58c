-- ===== src/Json/Samples.antt =====
-- A small JSON library, at which the tests and the examples run. It parses two texts,
-- that of an object with no entries and that of a response.
use binglib.Base.{
  ℕ, suc, ◌-◌, ◌^◌, ◌%◌, ◌≡◌, refl, String, Bool, true, false, ◌&&◌, ◌==◌, Option, none, some, List,
  [], ◌∷◌, if◌then◌else◌, arith,
}
use binglib.Base.Int.{ℤ, pos, negsuc}
use binglib.Base.Text.{codes, str_eq, written, signed_decimal}
use binglib.Base.Dict.{Dict, lookup}
use binglib.Base.Effect.{Exception, Result, ok, err, foreign, cons_ok}
use binglib.Bitcoin.{Bytes}
use binglib.Json.{JsonLibrary, JsonLaws}

mutual
  pub data Members : Type 0 where
    no_members : Members
    member : String → Value → Members → Members

  pub data Elements : Type 0 where
    no_elements : Elements
    element : Value → Elements → Elements

  pub data Value : Type 0 where
    object : Members → Value
    array : Elements → Value
    number : ℤ → Value
    text : String → Value
    nothing : Value

abbrev elements_of : List Value → Elements
elements_of [] = no_elements
elements_of (v ∷ vs) = element v (elements_of vs)

abbrev texts_of : List String → Elements
texts_of [] = no_elements
texts_of (s ∷ ss) = element (text s) (texts_of ss)

abbrev members_of : Dict Value → Members
members_of [] = no_members
members_of ((k, v) ∷ members) = member k v (members_of members)

abbrev missing_key : Exception
missing_key = foreign "key not found"

abbrev wrong_type : Exception
wrong_type = foreign "wrong type"

abbrev find : String → Members → Option Value
find key no_members = none
find key (member k v members) = if str_eq k key then some v else find key members

abbrev found : Option Value → Result Value
found none = err missing_key
found (some v) = ok v

abbrev at : String → Value → Result Value
at key (object members) = found (find key members)
at key v = err wrong_type

abbrev add_null : String → Members → Members
add_null key no_members = member key nothing no_members
add_null key (member k v members) = member k v (add_null key members)

abbrev indexed : String → Members → Option Value → Result (Value × Value)
indexed key members none = ok (nothing, object (add_null key members))
indexed key members (some v) = ok (v, object members)

abbrev index : String → Value → Result (Value × Value)
index key nothing = ok (nothing, object (member key nothing no_members))
index key (object members) = indexed key members (find key members)
index key v = err wrong_type

abbrev values : Elements → List Value
values no_elements = []
values (element v items) = v ∷ values items

abbrev member_values : Members → List Value
member_values no_members = []
member_values (member k v members) = v ∷ member_values members

abbrev items : Value → List Value
items nothing = []
items (array vs) = values vs
items (object members) = member_values members
items v = v ∷ []

abbrev is_null : Value → Bool
is_null nothing = true
is_null v = false

abbrev is_empty : Value → Bool
is_empty nothing = true
is_empty (array no_elements) = true
is_empty (object no_members) = true
is_empty v = false

abbrev get_string : Value → Result String
get_string (text s) = ok s
get_string v = err wrong_type

abbrev get_int : Value → Result ℤ
get_int (number n) = ok n
get_int v = err wrong_type

abbrev wrapped : ℕ → ℤ → ℕ
wrapped w (pos n) = n % 2 ^ w
wrapped w (negsuc n) = 2 ^ w - suc (n % 2 ^ w)

abbrev get_unsigned : ℕ → Value → Result ℕ
get_unsigned w (number n) = ok (wrapped w n)
get_unsigned w v = err wrong_type

abbrev texts : Elements → Result (List String)
texts no_elements = ok []
texts (element v vs) = cons_ok (get_string v) (texts vs)

abbrev get_strings : Value → Result (List String)
get_strings (array vs) = texts vs
get_strings v = err wrong_type

unfoldable mutual
  pub dump : Value → String
  dump nothing = "null"
  dump (text s) = written ("\"" ∷ s ∷ "\"" ∷ [])
  dump (number n) = signed_decimal n
  dump (array vs) = written ("[" ∷ dump_elements vs ∷ "]" ∷ [])
  dump (object members) = written ("{" ∷ dump_members members ∷ "}" ∷ [])

  pub dump_elements : Elements → String
  dump_elements no_elements = ""
  dump_elements (element v no_elements) = dump v
  dump_elements (element v (element u vs)) =
      written (dump v ∷ "," ∷ dump_elements (element u vs) ∷ [])

  pub dump_members : Members → String
  dump_members no_members = ""
  dump_members (member k v no_members) = written ("\"" ∷ k ∷ "\":" ∷ dump v ∷ [])
  dump_members (member k v (member j u members)) =
      written ("\"" ∷ k ∷ "\":" ∷ dump v ∷ "," ∷ dump_members (member j u members) ∷ [])

abbrev same_bytes : Bytes → Bytes → Bool
same_bytes [] [] = true
same_bytes (a ∷ bytes) (b ∷ bytes') = (a == b) && same_bytes bytes bytes'
same_bytes bytes bytes' = false

-- The response to a request for a transaction, and its text.
abbrev pub sample_reply : Value
sample_reply = object (member "id" (number (pos 4)) (member "result" (text "12") no_members))

abbrev pub reply_text : Bytes
reply_text = codes "{\"id\":4,\"result\":\"12\"}"

abbrev parse : Bytes → Option Value
parse bytes =
    if same_bytes bytes (codes "{}")
    then some (object no_members)
    else if same_bytes bytes reply_text
    then some sample_reply
    else none

-- The value of the text in a table.
abbrev parse_in : List (Bytes × Value) → Bytes → Option Value
parse_in [] bytes = none
parse_in ((expected, v) ∷ table) bytes =
    if same_bytes bytes expected then some v else parse_in table bytes

abbrev what : Exception → String
what (foreign s) = s
what e = ""

abbrev pub sample_json : JsonLibrary Value
sample_json = record {
  null = nothing;
  string = text;
  number = number;
  strings = λ ss. array (texts_of ss);
  array = λ vs. array (elements_of vs);
  object = λ members. object (members_of members);
  at = at;
  index = index;
  items = items;
  is_null = is_null;
  is_empty = is_empty;
  get_string = get_string;
  get_int = get_int;
  get_long = get_int;
  get_uint32 = get_unsigned 32;
  get_uint64 = get_unsigned 64;
  get_strings = get_strings;
  dump = dump;
  parse = parse;
  what = what;
}

-- The library, but parsing these texts.
abbrev pub sample_json_of : List (Bytes × Value) → JsonLibrary Value
sample_json_of table = record sample_json { parse = parse_in table }

find-members_of :
    (key : String) (members : Dict Value) → find key (members_of members) ≡ lookup key members
find-members_of key [] = refl
find-members_of key ((k, v) ∷ members) = ground (arith, find-members_of key members)

texts-texts_of : (ss : List String) → texts (texts_of ss) ≡ ok ss
texts-texts_of [] = refl
texts-texts_of (s ∷ ss) = rw (texts-texts_of ss)

pub sample_laws : JsonLaws sample_json
sample_laws = record {
  at-object = λ key members value e. rw (find-members_of key members, e);
  get_string-string = λ s. refl;
  get_int-number = λ n small. refl;
  get_strings-strings = texts-texts_of;
}
