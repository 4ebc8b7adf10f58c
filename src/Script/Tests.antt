-- ===== src/Script/Tests.antt =====
-- The lock script at a concrete time.
use binglib.Base.{◌≡◌, refl, [], ◌∷◌}
use binglib.Bitcoin.{code, push, checklocktimeverify, drop, checksig}
use binglib.Sample.{sample_lib}
use binglib.Script.{to_pay_key_hash_pattern_with_lock}

lock_script :
    to_pay_key_hash_pattern_with_lock sample_lib (2 ∷ []) 0x5f5e1001
    ≡ push (0x01 ∷ 0x10 ∷ 0x5e ∷ 0x5f ∷ [])
      ∷ code checklocktimeverify
      ∷ code drop
      ∷ push (2 ∷ [])
      ∷ code checksig
      ∷ []
unfolding to_pay_key_hash_pattern_with_lock
lock_script = refl
