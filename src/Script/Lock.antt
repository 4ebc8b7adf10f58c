-- ===== src/Script/Lock.antt =====
-- What the lock script commits to.
use binglib.Base.{ℕ, ◌+◌, ◌*◌, ◌/◌, ◌%◌, ◌^◌, ◌<◌, ◌≡◌, sym, ap, ◌∙◌, [], ◌∷◌, arith}
use binglib.Bitcoin.{Bytes, Libbitcoin}
use binglib.Script.{to_pay_key_hash_pattern_with_lock}

-- A 32-bit number as four bytes, the lowest first.
abbrev pub little_endian : ℕ → Bytes
little_endian n = n % 256 ∷ (n / 256) % 256 ∷ (n / 65536) % 256 ∷ (n / 16777216) % 256 ∷ []

abbrev pub IsLittleEndian : Libbitcoin → Type 0
IsLittleEndian lib = (n : ℕ) → n < 2 ^ 32 → lib.write_4_bytes_little_endian n ≡ little_endian n

abbrev value_of : Bytes → ℕ
value_of [] = 0
value_of (b ∷ bs) = b + 256 * value_of bs

value_of-little_endian : (n : ℕ) → n < 2 ^ 32 → value_of (little_endian n) ≡ n
value_of-little_endian n h = omega arith

little_endian-injective :
    (m n : ℕ) → m < 2 ^ 32 → n < 2 ^ 32 → little_endian m ≡ little_endian n → m ≡ n
little_endian-injective m n hm hn e =
    sym (value_of-little_endian m hm) ∙ ap value_of e ∙ value_of-little_endian n hn

-- The lock script says which key unlocks the funds and when: if libbitcoin writes a 32-bit number
-- as its four bytes, lowest first, then two lock scripts for times below 2 ^ 32 are equal only if
-- key and time are.
pub to_pay_key_hash_pattern_with_lock-injective :
    (lib : Libbitcoin) (key key' : Bytes) (lock lock' : ℕ)
    → IsLittleEndian lib
    → lock < 2 ^ 32
    → lock' < 2 ^ 32
    → to_pay_key_hash_pattern_with_lock lib key lock
      ≡ to_pay_key_hash_pattern_with_lock lib key' lock'
    → (key ≡ key') × (lock ≡ lock')
unfolding to_pay_key_hash_pattern_with_lock
to_pay_key_hash_pattern_with_lock-injective lib key key' lock lock' le h h' e =
    let same_key : key ≡ key' = cc in
    let same_bytes : lib.write_4_bytes_little_endian lock ≡ lib.write_4_bytes_little_endian lock' =
      cc in
    (same_key, little_endian-injective lock lock' h h' (sym (le lock h) ∙ same_bytes ∙ le lock' h'))
