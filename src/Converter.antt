-- ===== src/Converter.antt =====
-- src/utility/address_converter.cpp: a base58 address as the script hash under which an Electrum
-- server keeps its history.
pub mod Payload
use binglib.Base.{
  ℕ, String, Option, none, some, List, [], ◌∷◌, ◌++◌, reverse, leb, if◌then◌else◌, length, take,
  drop,
}
use binglib.Base.Effect.{Result, ok, err, invalid_argument, undefined_behaviour}
use binglib.Bitcoin.{Bytes, Libbitcoin}

abbrev pub prefix : Bytes
prefix = 0x76 ∷ 0xa9 ∷ 0x14 ∷ []

abbrev pub postfix : Bytes
postfix = 0x88 ∷ 0xac ∷ []

-- From the decoded bytes on. The code reads bytes 1 to 20 whatever the length, which is outside
-- the vector if there are fewer than 21.
pub spkh_of_decoded : Libbitcoin → Bytes → Result String
spkh_of_decoded lib decoded =
    let stripped = take 20 (drop 1 decoded) in
    let sha = lib.sha256_hash (prefix ++ (stripped ++ postfix)) in
    if leb 21 (length decoded)
    then ok (lib.encode_base16 (reverse sha))
    else err undefined_behaviour

spkh_or_throw : Libbitcoin → Option Bytes → Result String
spkh_or_throw lib none = err (invalid_argument "base58_to_spk_hex")
spkh_or_throw lib (some decoded) = spkh_of_decoded lib decoded

unfoldable pub base58_to_spkh_hex : Libbitcoin → String → Result String
unfolding spkh_or_throw spkh_of_decoded
base58_to_spkh_hex lib base58_address = spkh_or_throw lib (lib.decode_base58 base58_address)
