-- ===== src/Script.antt =====
-- src/libbscript/redeem_script.cpp: the script that locks funds until a time.
pub mod Lock
mod Tests
use binglib.Base.{ℕ, List, [], ◌∷◌}
use binglib.Bitcoin.{Bytes, Libbitcoin, Script, code, push, checklocktimeverify, drop, checksig}

unfoldable pub to_pay_key_hash_pattern_with_lock : Libbitcoin → Bytes → ℕ → Script
to_pay_key_hash_pattern_with_lock lib public_key lock_until =
    push (lib.write_4_bytes_little_endian lock_until)
    ∷ code checklocktimeverify
    ∷ code drop
    ∷ push public_key
    ∷ code checksig
    ∷ []
