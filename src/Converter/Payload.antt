-- ===== src/Converter/Payload.antt =====
-- What the conversion reads of an address.
use binglib.Base.{
  ℕ, suc, String, ◌≡◌, refl, some, List, [], ◌∷◌, ◌++◌, reverse, arith, length, take, length-append,
  zero,
}
use binglib.Base.Effect.{ok}
use binglib.Bitcoin.{Bytes, Libbitcoin}
use binglib.Converter.{base58_to_spkh_hex}

take-append {ℓ} : {A : Type ℓ} (xs ys : List A) (n : ℕ) → length xs ≡ n → take n (xs ++ ys) ≡ xs
take-append [] ys zero h = refl
take-append [] ys (suc n) h = absurd (omega arith)
take-append (x ∷ xs) ys zero h = absurd (omega arith)
take-append (x ∷ xs) ys (suc n) h = ground (arith, take-append xs ys n)

-- Where an address decodes to a version byte, a hash of 20 bytes and a checksum, it is converted to
-- the reversed SHA-256 of the script OP_DUP OP_HASH160 hash OP_EQUALVERIFY OP_CHECKSIG, in hex.
-- Neither the version nor the checksum matters.
pub base58_to_spkh_hex-payload :
    (lib : Libbitcoin) (address : String) (version : ℕ) (hash checksum : Bytes)
    → lib.decode_base58 address ≡ some (version ∷ (hash ++ checksum))
    → length hash ≡ 20
    → base58_to_spkh_hex lib address
      ≡ ok (
          lib.encode_base16
            (reverse (lib.sha256_hash (0x76 ∷ 0xa9 ∷ 0x14 ∷ (hash ++ 0x88 ∷ 0xac ∷ [])))))
unfolding base58_to_spkh_hex
base58_to_spkh_hex-payload lib address version hash checksum decodes size =
    rw decodes (ground (arith, length-append hash checksum, take-append hash checksum 20 size))
